-- ===== src/Bdev/Lookup.antt =====
-- What the I/O path and the `devices` file read of the device lists.
use standalone_linux_io_trac.Base.{
  ℕ, zero, suc, ◌-◌, ◌≤◌, ◌<◌, ◌≡◌, refl, sym, true, false, List, [], ◌∷◌, Option, none, some,
  arith, count, elem, leb, length, map, take_of_length-le, min,
}
use standalone_linux_io_trac.Kernel.{ok}
use standalone_linux_io_trac.Context.{Context, BlockDevice}
use standalone_linux_io_trac.Bdev.{Devices, bdev_list, mutex_unlock}
use standalone_linux_io_trac.Bdev.Arrays.{get_bdev_from_queue, list_names}
use standalone_linux_io_trac.Bdev.Model.{disk_name_len}
use standalone_linux_io_trac.Bdev.Slots.{
  slots, on_queue, on_queue-none, on_queue-some, queue_count, scan_queue-slots,
}
use standalone_linux_io_trac.Bdev.Invariant.{Tracks}

-- What the I/O path is told of a queue: a traced device on it, or that there is none.
abbrev pub Answers : (ℕ → BlockDevice) → ℕ → List ℕ → Option ℕ → Type 0
Answers dev q ds none = queue_count dev q ds ≡ 0
Answers dev q ds (some d) = ((dev d).bd_queue ≡ q) × (0 < count d ds)

-- All the names fit into an entry of the list.
abbrev pub NamesFit : (ℕ → BlockDevice) → ℕ → List ℕ → Type 0
NamesFit dev n [] = Unit {0}
NamesFit dev n (d ∷ ds) = (length (dev d).disk_name < n) × NamesFit dev n ds

on_queue-Answers :
    (dev : ℕ → BlockDevice) (q : ℕ) (ds : List ℕ) (r : Option ℕ)
    → on_queue dev q ds ≡ r
    → Answers dev q ds r
on_queue-Answers dev q ds none e = (on_queue-none dev q ds).0 e
on_queue-Answers dev q ds (some d) e = on_queue-some dev q d ds e

-- With the devices `ds` tracked, on every online CPU a request queue is looked up right: the
-- result is a traced device on that queue, and `NULL` exactly if no traced device is on it.
pub get_bdev_from_queue-Answers :
    {T : Type 0} (dev : ℕ → BlockDevice) (cpus ds : List ℕ) (ctx : Context T) (cpu q : ℕ)
    → Tracks dev cpus ds ctx
    → elem cpu cpus ≡ true
    → Answers dev q ds (get_bdev_from_queue dev ctx.bdev cpu q)
unfolding get_bdev_from_queue
get_bdev_from_queue-Answers dev cpus ds ctx cpu q t on =
    on_queue-Answers dev q ds _ (sym (rw (t.same cpu on) (scan_queue-slots dev 32 q ds t.bounded)))

list_names-slots :
    (dev : ℕ → BlockDevice) (n entry_len : ℕ) (ds : List ℕ)
    → length ds ≤ n
    → disk_name_len ≤ entry_len
    → NamesFit dev disk_name_len ds
    → list_names dev (slots n ds) (length ds) entry_len
      ≡ some (ok (map (λ d. (dev d).disk_name) ds))
unfolding list_names slots
list_names-slots dev n len [] h m f = refl
list_names-slots dev zero len (d ∷ ds) h m f = absurd (omega arith)
list_names-slots dev (suc n) len (d ∷ ds) h m f =
    let short : leb 32 (min (length (dev d).disk_name) 32) ≡ false = ground arith in
    rw short (
      rw (list_names-slots dev n len ds (omega arith) m f.1)
        (rw (take_of_length-le (len - 1) (dev d).disk_name (omega arith)) refl))

-- With the devices `ds` tracked, called on an online CPU with the mutex free,
-- `iotrace_bdev_list` returns the names of the traced devices, whole and in their order, if each
-- is shorter than 32 bytes and an entry has room for 32; it changes nothing.
pub bdev_list-names :
    {T : Type 0} (k : Devices) (cpus ds : List ℕ) (ctx : Context T) (cpu entry_len : ℕ)
    → Tracks k.dev cpus ds ctx
    → elem cpu cpus ≡ true
    → ctx.locked ≡ false
    → disk_name_len ≤ entry_len
    → NamesFit k.dev disk_name_len ds
    → (ctx' : Context T) × (bdev_list k entry_len cpu ctx
        ≡ some (ctx', ok (map (λ d. (k.dev d).disk_name) ds)))
      × (ctx' ≡ ctx)
unfolding bdev_list
bdev_list-names k cpus ds ctx cpu len t on free m f = (
  mutex_unlock ctx,
  rw free
      (rw (t.same cpu on) (rw (t.num) (rw (list_names-slots k.dev 32 len ds t.bounded m f) refl))),
  λ i. record ctx { locked = sym free i },
)
