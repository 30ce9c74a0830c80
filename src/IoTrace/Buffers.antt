-- ===== src/IoTrace/Buffers.antt =====
-- source/kernel/io_trace.c and procfs.c: the size of the trace buffers, their allocation for every
-- CPU, and the page faults of a consumer that has mapped one. `hdr_size` is the size of a ring's
-- header (a constant of the octf submodule), `vzalloc` whether the kernel has that many bytes for
-- a CPU.
use standalone_linux_io_trac.Base.{
  not, ℕ, ◌+◌, ◌-◌, ◌*◌, ◌/◌, ◌%◌, ◌^◌, Bool, true, false, List, [], ◌∷◌, Option, none, some, ◌==◌,
  ltb, leb, ◌||◌, if◌then◌else◌, length,
}
use standalone_linux_io_trac.Kernel.{Result, ok, err, einval, enospc, enomem, ◌>>=◌, set_cpu}
use standalone_linux_io_trac.Context.{Context, ProcFile}
use standalone_linux_io_trac.Bdev.{mutex_lock, mutex_unlock}

-- `iotrace_procfs_max_buffer_size_mb`.
abbrev pub max_buffer_size_mb : ℕ
max_buffer_size_mb = 4096

-- `iotrace_page_count`, in 64 bits.
abbrev pub page_count : ℕ → ℕ
page_count size = (size + 4096 - 1) % 2 ^ 64 / 4096

module _ {T : Type 0} where
  -- `iotrace_set_buffer_size`, with `n` online CPUs.
  unfoldable pub set_buffer_size : ℕ → Context T → ℕ → Context T × Result (Unit {0})
  set_buffer_size n ctx size_mb =
      let size = size_mb * 1024 * 1024 % 2 ^ 64 / n in
      if ltb max_buffer_size_mb size_mb || size == 0
      then (ctx, err einval)
      else (record ctx { size = size }, ok tt)

  -- `iotrace_get_buffer_size`.
  unfoldable pub get_buffer_size : ℕ → Context T → ℕ
  get_buffer_size n ctx = ctx.size * n % 2 ^ 64 / 1024 / 1024

module _ (hdr_size : ℕ) (vzalloc : ℕ → ℕ → Bool) where
  -- `iotrace_procfs_trace_file_alloc` behind the first check, for the size less the header.
  abbrev pub realloc_ring : ProcFile → ℕ → ℕ → ProcFile × Result (Unit {0})
  realloc_ring pf size cpu =
      let bytes = page_count size * 4096 % 2 ^ 64 in
      if vzalloc bytes cpu
      then (record { cpu = cpu; trace_ring = some bytes; trace_ring_size = size }, ok tt)
      else (pf, err enomem)

  abbrev pub has_ring : ProcFile → Bool
  has_ring pf = elim pf.trace_ring [ none ↦ false | some bytes ↦ true ]

  unfoldable pub trace_file_alloc : ProcFile → ℕ → ℕ → ProcFile × Result (Unit {0})
  trace_file_alloc pf size cpu =
      if ltb size hdr_size
      then (pf, err enospc)
      else if has_ring pf
      then (if pf.trace_ring_size == size - hdr_size
          then (pf, ok tt)
          else realloc_ring pf (size - hdr_size) cpu)
      else realloc_ring pf (size - hdr_size) cpu

  module _ {T : Type 0} where
    abbrev pub put_file : Context T → ℕ → ProcFile → Context T
    put_file ctx cpu pf = record ctx {
      cpu_context = set_cpu ctx.cpu_context cpu (record (ctx.cpu_context cpu) { proc_files = pf });
    }

    -- The loop of `iotrace_init_buffers`: it stops at the first CPU that has no memory.
    unfoldable pub alloc_files : List ℕ → Context T → Context T × Result (Unit {0})
    alloc_files [] ctx = (ctx, ok tt)
    alloc_files (cpu ∷ cpus) ctx =
        let (pf, r) = trace_file_alloc (ctx.cpu_context cpu).proc_files ctx.size cpu in
        elim r [
          | ok u ↦ alloc_files cpus (put_file ctx cpu pf)
          | err e ↦ (put_file ctx cpu pf, err e)
        ]

    abbrev pub sized_files : List ℕ → Context T × Result (Unit {0}) → Context T × Result (Unit {0})
    sized_files cpus (ctx, err e) = (ctx, err e)
    sized_files cpus (ctx, ok u) = alloc_files cpus ctx

    -- `iotrace_init_buffers`.
    unfoldable pub init_buffers : List ℕ → Context T → ℕ → Option (Context T × Result (Unit {0}))
    init_buffers cpus ctx0 size_mb = do
      ctx ← mutex_lock ctx0
      if ctx.trace_state.clients == 0
          then (let (ctx', r) = sized_files cpus (set_buffer_size (length cpus) ctx size_mb) in
              some (mutex_unlock ctx', r))
          else some (mutex_unlock ctx, err einval)

-- What a fault answers: `VM_FAULT_SIGBUS`, `-EACCES`, or `VM_FAULT_MAJOR` with the page at an
-- offset of the buffer.
pub data Fault : Type 0 where
  sigbus denied : Fault
  major : ℕ → Fault

-- `_iotrace_fault` in the ring or in the consumer header of `hdr_size` bytes: `to_page` is whether
-- `vmalloc_to_page` has a page at an offset of the buffer.
unfoldable pub fault : (ℕ → Bool) → ℕ → ProcFile → Bool → ℕ → Fault
fault to_page hdr_size pf trace_ring pgoff =
    let buf_size = if trace_ring then pf.trace_ring_size else hdr_size in
    let offset = pgoff * 4096 % 2 ^ 64 in
    if leb (page_count buf_size) pgoff
    then sigbus
    else if not (to_page offset)
    then denied
    else major offset
