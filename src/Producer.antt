-- ===== src/Producer.antt =====
-- source/userspace/KernelRingTraceProducer.cpp: the client's end of one CPU's ring, with the two
-- files that it maps. `Process` counts the open descriptors and the mappings of the process.
pub mod Owned
pub mod Examples
use standalone_linux_io_trac.Base.{
  ℕ, ◌+◌, ◌-◌, Bool, true, false, Option, none, some, ◌==◌, ltb, not, if◌then◌else◌,
}

pub record Process : Type 0 where
  pub fds : ℕ
  pub maps : ℕ

-- What the kernel answers for one file: `open`, `fstat` with the size, and `mmap`.
pub record Answers : Type 0 where
  pub opens : Bool
  pub stats : Bool
  pub st_size : ℕ
  pub maps_it : Bool

-- The exceptions, by their texts.
pub data Exception : Type 0 where
  not_opened no_stat unexpected_size not_mapped unexpected_sizes : Exception

-- `struct MappedFile`: the length of the mapping.
pub record MappedFile : Type 0 where
  pub length : ℕ

pub data Made (A : Type 0) : Type 0 where
  made : A → Made A
  thrown : Exception → Made A

abbrev open_fd : Process → Process
open_fd p = record p { fds = p.fds + 1 }

abbrev close_fd : Process → Process
close_fd p = record p { fds = p.fds - 1 }

-- The constructor of `MappedFile`.
unfoldable pub new_mapped_file : Answers → ℕ → Process → Process × Made MappedFile
new_mapped_file a max_size p =
    if not a.opens
    then (p, thrown not_opened)
    else if not a.stats
    then (close_fd (open_fd p), thrown no_stat)
    else if ltb max_size a.st_size
    then (close_fd (open_fd p), thrown unexpected_size)
    else if not a.maps_it
    then (close_fd (open_fd p), thrown not_mapped)
    else (record (open_fd p) { maps = p.maps + 1 }, made (record { length = a.st_size }))

-- The destructor.
abbrev pub delete_mapped_file : Process → Process
delete_mapped_file p = close_fd (record p { maps = p.maps - 1 })

-- A `unique_ptr` that is set anew or goes out of scope.
abbrev pub reset : Option MappedFile → Process → Process
reset none p = p
reset (some f) p = delete_mapped_file p

-- `KernelRingTraceProducer`.
pub record Producer : Type 0 where
  pub stopped : Bool
  pub ring : Option MappedFile
  pub consumer_hdr : Option MappedFile

-- The constructor.
abbrev pub new_producer : Producer
new_producer = record { stopped = false; ring = none; consumer_hdr = none }

-- The end of `initRing`, with both files: the sizes must add up, then the producer takes them.
abbrev pub taken :
    ℕ → MappedFile → MappedFile → Producer → Process → Producer × Process × Made (Unit {0})
taken pool ring hdr x p =
    if not (ring.length + hdr.length == pool)
    then (x, delete_mapped_file (delete_mapped_file p), thrown unexpected_sizes)
    else (
      record x { ring = some ring; consumer_hdr = some hdr },
      reset x.consumer_hdr (reset x.ring p),
      made tt,
    )

abbrev pub with_hdr :
    ℕ → MappedFile → Producer → Process × Made MappedFile → Producer × Process × Made (Unit {0})
with_hdr pool ring x (p, thrown e) = (x, delete_mapped_file p, thrown e)
with_hdr pool ring x (p, made hdr) = taken pool ring hdr x p

abbrev pub with_ring :
    Answers → ℕ → ℕ → Producer → Process × Made MappedFile → Producer × Process × Made (Unit {0})
with_ring a hdr_size pool x (p, thrown e) = (x, p, thrown e)
with_ring a hdr_size pool x (p, made ring) = with_hdr pool ring x (new_mapped_file a hdr_size p)

-- `initRing`, of the answers for the ring's file and for the header's, whose size is `hdr_size`.
unfoldable pub init_ring :
    Answers → Answers → ℕ → ℕ → Producer → Process → Producer × Process × Made (Unit {0})
init_ring r h hdr_size pool x p = with_ring h hdr_size pool x (new_mapped_file r pool p)

-- `deinitRing`.
unfoldable pub deinit_ring : Producer → Process → Producer × Process
deinit_ring x p =
    (record x { ring = none; consumer_hdr = none }, reset x.consumer_hdr (reset x.ring p))

-- `wait`, with whether the ioctl that waits returned 0, and `stop`, without its ioctl.
abbrev pub wait : Bool → Producer → Bool
wait ioctl_ok x = if not x.stopped then ioctl_ok else false

abbrev pub stop : Producer → Producer
stop x = record x { stopped = true }
