-- ===== src/Bio/ClassLaws.antt =====
-- The class of a file by its size.
use standalone_linux_io_trac.Base.{
  ℕ, zero, suc, ◌+◌, ◌-◌, ◌*◌, ◌/◌, ◌%◌, ◌^◌, ◌≤◌, ◌<◌, ◌≡◌, if◌then◌else◌, ◌∙◌, refl, sym, false,
  Bool-cases, inl, inr, leb→le, lt→leb, leb_false→lt, ◌↔◌, arith, leb,
}
use standalone_linux_io_trac.Bits.{bsr, clzl, bit_or-4095}
use standalone_linux_io_trac.Bits.Bsr.{bsr-le, le-bsr}
use standalone_linux_io_trac.Bio.Class.{rounded, size_class, size_class_x86, size_class_c}

rounded_lem : (size : ℕ) → 0 < size → size < 2 ^ 63 → rounded size ≡ (size - 1) / 4096 * 4096 + 4095
rounded_lem size p h =
    let w : (size + (2 ^ 64 - 1)) % 2 ^ 64 ≡ size - 1 = omega arith in rw w (bit_or-4095 (size - 1))

module _ (size : ℕ) (p : 0 < size) (h : size < 2 ^ 63) where
  abbrev top : ℕ
  top = bsr (rounded size)

  -- A size up to a multiple of 4 KiB that is a power of two, and one above it.
  top-le : (c q : ℕ) → 2 ^ suc c ≡ q * 4096 → size ≤ q * 4096 → top ≤ c
  top-le c q e l = bsr-le (rounded size) c (omega (arith, rounded_lem size p h))

  le-top : (c q : ℕ) → 2 ^ c ≡ q * 4096 → c ≤ 64 → q * 4096 < size → c ≤ top
  le-top c q e k g = le-bsr (rounded size) c (omega (arith, rounded_lem size p h)) k

  le-top_least : 11 ≤ top
  le-top_least = le-bsr (rounded size) 11 (omega (arith, rounded_lem size p h)) (omega arith)

  -- The highest one, halved, against the thresholds of the classes.
  classed : (n : ℕ) → n ≡ top / 2 + 6 → (if leb 21 n then 21 else n) ≡ size_class size
  unfolding size_class
  classed n e = ground (
    arith,
    top-le 11 1 refl,
    top-le 13 4 refl,
    top-le 15 16 refl,
    top-le 17 64 refl,
    top-le 19 256 refl,
    top-le 21 1024 refl,
    top-le 23 4096 refl,
    top-le 25 16384 refl,
    top-le 27 65536 refl,
    top-le 29 262144 refl,
    le-top_least,
    le-top 12 1 refl (omega arith),
    le-top 14 4 refl (omega arith),
    le-top 16 16 refl (omega arith),
    le-top 18 64 refl (omega arith),
    le-top 20 256 refl (omega arith),
    le-top 22 1024 refl (omega arith),
    le-top 24 4096 refl (omega arith),
    le-top 26 16384 refl (omega arith),
    le-top 28 65536 refl (omega arith),
    le-top 30 262144 refl (omega arith),
  )

-- For every size from 1 to 2 ^ 63 - 1 bytes, the assembler version computes the class that the
-- names of the classes promise: 11 up to 4 KiB, 12 up to 16 KiB and so on up to 20 for 1 GiB,
-- and 21 above.
pub size_class_x86-size_class :
    (size : ℕ) → 0 < size → size < 2 ^ 63 → size_class_x86 size ≡ size_class size
unfolding size_class_x86
size_class_x86-size_class size p h = classed size p h _ refl

-- For every size from 1 to 2 ^ 63 - 1 bytes, the version in C computes the class that the names
-- of the classes promise.
pub size_class_c-size_class :
    (size : ℕ) → 0 < size → size < 2 ^ 63 → size_class_c size ≡ size_class size
unfolding size_class_c clzl
size_class_c-size_class size p h = elim (Bool-cases (leb size (1024 * 1048576))) [
  | inl small ↦
      let c = classed size p h _ refl in
      let t = top-le size p h 29 262144 refl (omega (arith, leb→le size (2 ^ 30) small)) in
      let s : leb (2 ^ 63) size ≡ false = lt→leb (2 ^ 63) size h in
      rw small (ground (arith, c, t, le-top_least size p h))
  | inr large ↦
      let s : leb (2 ^ 63) size ≡ false = lt→leb (2 ^ 63) size h in
      let g : 2 ^ 30 < size = leb_false→lt size (2 ^ 30) large in
      rw (large, s)
        (ground (
          arith,
          classed size p h _ refl,
          le-top size p h 30 262144 refl (omega arith) g,
          top-le size p h,
        ))
]

x86_empty : size_class_x86 0 ≡ 21
unfolding size_class_x86 bsr
x86_empty = refl

c_empty : size_class_c 0 ≡ 37
unfolding size_class_c clzl bsr
c_empty = refl

only_positive : (size : ℕ) → size < 2 ^ 63 → size_class_x86 size ≡ size_class_c size → 0 < size
only_positive zero h e = absurd (omega (arith, x86_empty, c_empty))
only_positive (suc n) h e = omega arith

-- For a size below 2 ^ 63, the assembler version and the version in C give the same class
-- exactly if the size is not 0.
pub size_class-agree :
    (size : ℕ) → size < 2 ^ 63 → (size_class_x86 size ≡ size_class_c size) ↔ (0 < size)
size_class-agree size h = (
  only_positive size h,
  λ p. size_class_x86-size_class size p h ∙ sym (size_class_c-size_class size p h),
)
