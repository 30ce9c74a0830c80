-- ===== src/Procfs/Entries.antt =====
-- source/kernel/procfs.c: the files `add_device`, `remove_device`, `devices`, `version` and
-- `size`. `kstrtou64` and `show` stand for the kernel's `kstrtou64` with base 10 and for `%llu`
-- of its `snprintf`, `version` for the text that its `snprintf` makes of the version's numbers,
-- which the octf submodule has.
use standalone_linux_io_trac.Base.{
  ℕ, ◌+◌, ◌-◌, ◌*◌, Bool, List, [], ◌∷◌, ◌++◌, Option, some, ◌==◌, if◌then◌else◌, min, length,
}
use standalone_linux_io_trac.Kernel.{Result, ok, err, eperm, ◌>>=◌}
use standalone_linux_io_trac.Strings.{strlcpy}
use standalone_linux_io_trac.Context.{Context}
use standalone_linux_io_trac.Trace.{Octf}
use standalone_linux_io_trac.Bdev.{Devices, bdev_add, bdev_remove, bdev_list}
use standalone_linux_io_trac.Bdev.Model.{max_devices, disk_name_len}
use standalone_linux_io_trac.IoTrace.Buffers.{init_buffers, get_buffer_size}
use standalone_linux_io_trac.Procfs.Mngt.{User, Answer, mngt_write, mngt_read}

module _ {T H : Type 0} (o : Octf T H) (k : Devices) (cpus : List ℕ) (cpu : ℕ) where
  -- `add_dev_write`, with `_add_dev_scanf`.
  unfoldable pub add_dev_write : User → List ℕ → ℕ → Context T → Option (Answer (Context T) ℕ)
  add_dev_write = mngt_write (bdev_add o k cpus cpu)

module _ {T : Type 0} (k : Devices) (cpus : List ℕ) (cpu : ℕ) where
  -- `del_dev_write`, with `_del_dev_scanf`.
  unfoldable pub del_dev_write : User → List ℕ → ℕ → Context T → Option (Answer (Context T) ℕ)
  del_dev_write = mngt_write (bdev_remove k cpus cpu)

-- `snprintf` of a text: the length that it would have, and what fits before the terminator.
abbrev pub snprintf : List ℕ → ℕ → ℕ × List ℕ
snprintf s size = (length s, strlcpy s size)

-- The loop of `_list_dev_snprintf` over the names: `bytes_left` and `pos`, and the text so far.
unfoldable pub list_loop : List (List ℕ) → ℕ → ℕ → List ℕ → ℕ × List ℕ
list_loop [] bytes_left pos text = (pos, text)
list_loop (name ∷ names) bytes_left pos text =
    let (n, fits) = snprintf (name ++ b'\n' ∷ []) bytes_left in
    let bytes_copied = min n bytes_left in
    let rest = list_loop names (bytes_left - bytes_copied) (pos + bytes_copied) (text ++ fits) in
    if bytes_left - bytes_copied == 0 then (pos + bytes_copied, text ++ fits) else rest

abbrev pub listed :
    {T : Type 0} → ℕ → Context T × Result (List (List ℕ)) → Context T × Result (ℕ × List ℕ)
listed size (ctx, err e) = (ctx, err e)
listed size (ctx, ok names) = (ctx, ok (list_loop names size 0 []))

module _ {T : Type 0} (k : Devices) (cpu : ℕ) (vzalloc_names : Bool) where
  -- `_list_dev_snprintf`; without memory for the names it returns -1, which is `-EPERM`.
  unfoldable pub list_dev_snprintf : ℕ → Context T → Option (Context T × Result (ℕ × List ℕ))
  list_dev_snprintf size ctx =
      if vzalloc_names
      then bdev_list k disk_name_len cpu ctx >>= (λ r. some (listed size r))
      else some (ctx, err eperm)

  -- `list_dev_read`.
  unfoldable pub list_dev_read : User → ℕ → ℕ → Context T → Option (Answer (Context T) (List ℕ))
  list_dev_read u count ppos ctx =
      mngt_read list_dev_snprintf u count ppos (max_devices * disk_name_len) ctx

-- `version_buffer_max_len` and `size_file_max_count`.
abbrev pub version_buffer_max_len : ℕ
version_buffer_max_len = 64

abbrev pub size_file_max_count : ℕ
size_file_max_count = 10

-- `get_version`, with `_version_snprintf`.
unfoldable pub get_version :
    {T : Type 0} → List ℕ → User → ℕ → ℕ → Context T → Option (Answer (Context T) (List ℕ))
get_version version u count ppos ctx =
    mngt_read (λ size s. some (s, ok (snprintf version size))) u count ppos version_buffer_max_len
      ctx

module _ {T : Type 0} (show : ℕ → List ℕ) (cpus : List ℕ) where
  -- `size_read`, with `_size_snprintf`.
  unfoldable pub size_read : User → ℕ → ℕ → Context T → Option (Answer (Context T) (List ℕ))
  size_read u count ppos ctx =
      mngt_read (λ size s. some (s, ok (snprintf (show (get_buffer_size (length cpus) s)) size))) u
        count ppos size_file_max_count ctx

module _ {T : Type 0} (kstrtou64 : List ℕ → Result ℕ) (hdr_size : ℕ) (vzalloc : ℕ → ℕ → Bool)
    (cpus : List ℕ) where
  abbrev pub sized : Result ℕ → Context T → Option (Context T × Result (Unit {0}))
  sized (err e) ctx = some (ctx, err e)
  sized (ok size) ctx = init_buffers hdr_size vzalloc cpus ctx size

  -- `_buffer_size_sscanf`.
  unfoldable pub buffer_size_sscanf : List ℕ → Context T → Option (Context T × Result (Unit {0}))
  buffer_size_sscanf buf ctx = sized (kstrtou64 buf) ctx

  -- `size_write`.
  unfoldable pub size_write : User → List ℕ → ℕ → Context T → Option (Answer (Context T) ℕ)
  size_write = mngt_write buffer_size_sscanf
