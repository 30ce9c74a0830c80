-- ===== src/Bio/Class.antt =====
-- source/kernel/trace_bio.c: the classes of Differentiated Storage Services and the class of a
-- file by its size, in the two versions that the source has.
use standalone_linux_io_trac.Base.{
  ℕ, ◌+◌, ◌-◌, ◌*◌, ◌/◌, ◌%◌, ◌^◌, bit_or, ◌||◌, leb, if◌then◌else◌,
}
use standalone_linux_io_trac.Bits.{bsr, clzl}

abbrev pub dss_unclassified : ℕ
dss_unclassified = 0

abbrev pub dss_metadata : ℕ
dss_metadata = 1

abbrev pub dss_data_dir : ℕ
dss_data_dir = 7

abbrev pub dss_data_file_4kb : ℕ
dss_data_file_4kb = 11

abbrev pub dss_data_file_bulk : ℕ
dss_data_file_bulk = 21

abbrev pub dss_data_direct : ℕ
dss_data_direct = 22

abbrev pub dss_misc : ℕ
dss_misc = 23

abbrev pub dss_max : ℕ
dss_max = 33

-- `size - 1` in 64 bits, with the twelve low bits set.
abbrev pub rounded : ℕ → ℕ
rounded size = bit_or ((size + (2 ^ 64 - 1)) % 2 ^ 64) 4095

-- The version for x86-64: `bsr`, `shr 1`, `add 6`, and at most 21.
unfoldable pub size_class_x86 : ℕ → ℕ
size_class_x86 size =
    let eax = bsr (rounded size) / 2 + 6 in
    if leb dss_data_file_bulk eax then dss_data_file_bulk else eax

-- The version in C. A `loff_t` is signed: a negative one, at least 2 ^ 63 as a bit pattern, is
-- below 1 GiB too.
unfoldable pub size_class_c : ℕ → ℕ
size_class_c size =
    if leb size (1024 * 1048576) || leb (2 ^ 63) size
    then (64 - clzl (rounded size) + dss_data_file_4kb) / 2
    else dss_data_file_bulk

-- The classes as their names say: a file of at most 4 KiB, 16 KiB, …, 1 GiB, and beyond.
unfoldable pub size_class : ℕ → ℕ
size_class size =
    if leb size (2 ^ 12)
    then 11
    else if leb size (2 ^ 14)
    then 12
    else if leb size (2 ^ 16)
    then 13
    else if leb size (2 ^ 18)
    then 14
    else if leb size (2 ^ 20)
    then 15
    else if leb size (2 ^ 22)
    then 16
    else if leb size (2 ^ 24)
    then 17
    else if leb size (2 ^ 26)
    then 18
    else if leb size (2 ^ 28)
    then 19
    else if leb size (2 ^ 30)
    then 20
    else 21
