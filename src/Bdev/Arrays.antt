-- ===== src/Bdev/Arrays.antt =====
-- source/kernel/trace_bdev.c and trace_bdev.h: the loops over a CPU's array of device pointers.
-- `dev` is what stands at a device pointer.
use standalone_linux_io_trac.Base.{
  ℕ, zero, suc, ◌+◌, Bool, true, false, List, [], ◌∷◌, Option, none, some, ◌==◌, leb, if◌then◌else◌,
}
use standalone_linux_io_trac.Kernel.{Result, ok, err, enospc, ◌>>=◌}
use standalone_linux_io_trac.Strings.{strnlen, strlcpy}
use standalone_linux_io_trac.Context.{BlockDevice, IotraceBdev}
use standalone_linux_io_trac.Bdev.Model.{disk_name_len}

abbrev pub consed : List ℕ → Result (List (List ℕ)) → Result (List (List ℕ))
consed name (ok names) = ok (name ∷ names)
consed name (err e) = err e

module _ (dev : ℕ → BlockDevice) where
  -- `iotrace_get_bdev_from_queue`: from the array's start, up to its end or a `NULL`.
  unfoldable pub scan_queue : List (Option ℕ) → ℕ → Option ℕ
  scan_queue [] q = none
  scan_queue (none ∷ arr) q = none
  scan_queue (some d ∷ arr) q = if (dev d).bd_queue == q then some d else scan_queue arr q

  unfoldable pub get_bdev_from_queue : IotraceBdev → ℕ → ℕ → Option ℕ
  get_bdev_from_queue b cpu q = scan_queue (b.list cpu) q

  -- The loop of `iotrace_bdev_add` over the first `num` places: is a device on this queue traced?
  -- A `NULL` among them, or a place outside the array, faults.
  unfoldable pub queue_traced : List (Option ℕ) → ℕ → ℕ → Option Bool
  queue_traced arr zero q = some false
  queue_traced [] (suc n) q = none
  queue_traced (none ∷ arr) (suc n) q = none
  queue_traced (some d ∷ arr) (suc n) q =
      if (dev d).bd_queue == q then some true else queue_traced arr n q

  -- The loop of `iotrace_bdev_list` over the first `num` places.
  unfoldable pub list_names : List (Option ℕ) → ℕ → ℕ → Option (Result (List (List ℕ)))
  list_names arr zero entry_len = some (ok [])
  list_names [] (suc n) entry_len = none
  list_names (none ∷ arr) (suc n) entry_len = none
  list_names (some d ∷ arr) (suc n) entry_len =
      if leb disk_name_len (strnlen (dev d).disk_name disk_name_len)
      then some (err enospc)
      else list_names arr n entry_len >>= λ r. some (consed (strlcpy (dev d).disk_name entry_len) r)

-- The loop of `iotrace_bdev_remove_locked`: the index of a pointer among the first `num`.
unfoldable pub find_index : List (Option ℕ) → ℕ → ℕ → ℕ → Option (Option ℕ)
find_index arr zero i bdev = some none
find_index [] (suc n) i bdev = none
find_index (none ∷ arr) (suc n) i bdev = find_index arr n (i + 1) bdev
find_index (some d ∷ arr) (suc n) i bdev =
    if d == bdev then some (some i) else find_index arr n (i + 1) bdev
