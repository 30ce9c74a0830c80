-- ===== src/Bits.antt =====
-- The bit operations that trace_bio.c uses, and the laws of `|` at variables.
pub mod Bsr
use Prim.Native.Nat.{digits, bit_or-bitwise}
use standalone_linux_io_trac.Base.{
  ℕ, zero, suc, ◌+◌, ◌-◌, ◌*◌, ◌/◌, ◌%◌, ◌^◌, ◌≤◌, ◌<◌, ◌≡◌, refl, ap, Bool, true, false, max,
  bit_or, arith, ltb, Bool-cases, inl, inr, ltb→lt, ltb_false→le,
}

abbrev or_digits : ℕ → ℕ → ℕ → ℕ
or_digits n a b = digits (λ b. b) max n a b

-- Any fuel from the first number on gives the same digits.
or_digits_fuel : (x y fuel more : ℕ) → x ≤ fuel → x ≤ more → or_digits more x y ≡ or_digits fuel x y
or_digits_fuel zero y zero zero l k = refl
or_digits_fuel zero y zero (suc more) l k = refl
or_digits_fuel zero y (suc fuel) zero l k = refl
or_digits_fuel zero y (suc fuel) (suc more) l k = refl
or_digits_fuel (suc x) y zero more l k = absurd (omega arith)
or_digits_fuel (suc x) y (suc fuel) zero l k = absurd (omega arith)
or_digits_fuel (suc x) y (suc fuel) (suc more) l k =
    let below : suc x / 2 ≤ fuel = omega arith in
    let above : suc x / 2 ≤ more = omega arith in
    omega (arith, or_digits_fuel (suc x / 2) (y / 2) fuel more below above)

zero-bit_or : (b : ℕ) → bit_or 0 b ≡ b
zero-bit_or b = bit_or-bitwise 0 b

-- The law for the lowest digit.
pub bit_or_step : (x y : ℕ) → bit_or x y ≡ max (x % 2) (y % 2) + 2 * bit_or (x / 2) (y / 2)
bit_or_step zero y = omega (arith, zero-bit_or (y / 2), zero-bit_or y)
bit_or_step (suc x) y =
    let half = suc x / 2 in
    let same = or_digits_fuel half (y / 2) half x (omega arith) (omega arith) in
    omega (arith, same, bit_or-bitwise half (y / 2), bit_or-bitwise (suc x) y)

bit_or-zero_fuel : (n a : ℕ) → a ≤ n → bit_or a 0 ≡ a
bit_or-zero_fuel n zero h = refl
bit_or-zero_fuel zero (suc a) h = absurd (omega arith)
bit_or-zero_fuel (suc n) (suc a) h =
    omega (arith, bit_or_step (suc a) 0, bit_or-zero_fuel n (suc a / 2) (omega arith))

-- A mask of ones takes one digit at a time.
or_ones_step : (a m h : ℕ) → h ≡ m * 2 + 1 → bit_or a h ≡ bit_or (a / 2) m * 2 + 1
or_ones_step a m h e =
    let half : h / 2 ≡ m = omega arith in
    let odd : h % 2 ≡ 1 = omega arith in omega (arith, bit_or_step a h, ap (bit_or (a / 2)) half)

or_ones-63 : (a : ℕ) → bit_or a 63 ≡ a / 64 * 64 + 63
or_ones-63 a = omega (
  arith,
  or_ones_step a 31 63 refl,
  or_ones_step (a / 2) 15 31 refl,
  or_ones_step (a / 2 / 2) 7 15 refl,
  or_ones_step (a / 2 / 2 / 2) 3 7 refl,
  or_ones_step (a / 2 / 2 / 2 / 2) 1 3 refl,
  or_ones_step (a / 2 / 2 / 2 / 2 / 2) 0 1 refl,
  bit_or-zero_fuel (a / 2 / 2 / 2 / 2 / 2 / 2) (a / 2 / 2 / 2 / 2 / 2 / 2) (omega arith),
)

-- `v | 4095` sets the twelve low digits.
pub bit_or-4095 : (a : ℕ) → bit_or a 4095 ≡ a / 4096 * 4096 + 4095
bit_or-4095 a = omega (
  arith,
  or_ones_step a 2047 4095 refl,
  or_ones_step (a / 2) 1023 2047 refl,
  or_ones_step (a / 2 / 2) 511 1023 refl,
  or_ones_step (a / 2 / 2 / 2) 255 511 refl,
  or_ones_step (a / 2 / 2 / 2 / 2) 127 255 refl,
  or_ones_step (a / 2 / 2 / 2 / 2 / 2) 63 127 refl,
  or_ones-63 (a / 2 / 2 / 2 / 2 / 2 / 2),
)

-- `bsr`: the place of the highest one of a number other than 0, here by halving, 64 times at most.
unfoldable pub bsr_from : ℕ → ℕ → ℕ
bsr_from zero v = 0
bsr_from (suc fuel) v = elim (ltb v 2) [ true ↦ 0 | false ↦ suc (bsr_from fuel (v / 2)) ]

unfoldable pub bsr : ℕ → ℕ
unfolding bsr_from
bsr v = bsr_from 64 v

-- `__builtin_clzl`, of a number other than 0.
unfoldable pub clzl : ℕ → ℕ
unfolding bsr
clzl v = 63 - bsr v
