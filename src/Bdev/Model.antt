-- ===== src/Bdev/Model.antt =====
-- source/kernel/trace_bdev.c: the model name of a device, read from sysfs into a buffer of 128
-- zeroes and trimmed.
use standalone_linux_io_trac.Base.{
  ℕ, zero, suc, ◌-◌, Bool, List, ◌++◌, Option, none, some, ◌==◌, leb, if◌then◌else◌, ◌||◌, ◌&&◌,
  length, take, replicate, set, get_elem?,
}
use standalone_linux_io_trac.Strings.{strlcpy, codes}
use standalone_linux_io_trac.Context.{BlockDevice}

-- `IOTRACE_MAX_DEVICES`, `PATH_MAX` and `DISK_NAME_LEN`.
abbrev pub max_devices : ℕ
max_devices = 32

abbrev pub path_max : ℕ
path_max = 4096

abbrev pub disk_name_len : ℕ
disk_name_len = 32

-- The kernel's `isspace`.
abbrev pub isspace : ℕ → Bool
isspace c = c == 32 || (leb 9 c && leb c 13) || c == 160

abbrev pub is_blank : ℕ → Bool
is_blank c = c == 0 || isspace c

-- The loop over `i`, from the given index down to 1.
unfoldable pub trim_from : ℕ → List ℕ → List ℕ
trim_from zero buf = buf
trim_from (suc i) buf = elim (get_elem? buf (suc i)) [
  | none ↦ buf
  | some ch ↦ let rest = trim_from i (set buf (suc i) 0) in if is_blank ch then rest else buf
]

abbrev pub model_path : BlockDevice → List ℕ
model_path bdev = strlcpy (codes "/sys/block/" ++ bdev.disk_name ++ codes "/device/model") 255

-- `read_file` stands for `kern_path`, `dentry_open` and `kernel_read`: `none` if the file cannot
-- be opened, else the bytes it holds, of which 127 are read.
unfoldable pub bdev_get_model : (List ℕ → Option (List ℕ)) → BlockDevice → List ℕ
bdev_get_model read_file bdev = elim (read_file (model_path bdev)) [
  | none ↦ replicate 128 0
  | some bytes ↦ trim_from 127 (take 127 bytes ++ replicate (128 - length (take 127 bytes)) 0)
]
