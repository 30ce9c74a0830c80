-- ===== src/Bits/Bsr.antt =====
-- The bounds of `bsr`: the place of the highest one lies between the powers of two around a number.
use native.Mathlib.Nat.{pow-suc}
use standalone_linux_io_trac.Base.{
  ℕ, zero, suc, ◌/◌, ◌^◌, ◌≤◌, ◌<◌, arith, ltb, Bool-cases, inl, inr, ltb→lt, ltb_false→le,
}
use standalone_linux_io_trac.Bits.{bsr, bsr_from}

bsr_from-le : (fuel v c : ℕ) → v < 2 ^ suc c → bsr_from fuel v ≤ c
unfolding bsr_from
bsr_from-le zero v c h = omega arith
bsr_from-le (suc fuel) v zero h = elim (Bool-cases (ltb v 2)) [
  | inl e ↦ rw (e, bsr_from) (omega arith)
  | inr e ↦ absurd (omega (arith, ltb_false→le v 2 e))
]
bsr_from-le (suc fuel) v (suc c) h = elim (Bool-cases (ltb v 2)) [
  | inl e ↦ rw (e, bsr_from) (omega arith)
  | inr e ↦
      rw (e, bsr_from)
        (omega (arith, bsr_from-le fuel (v / 2) c (omega (arith, pow-suc 2 (suc c)))))
]

pow_pos : (c : ℕ) → 0 < 2 ^ c
pow_pos zero = omega arith
pow_pos (suc c) = omega (arith, pow_pos c, pow-suc 2 c)

le-bsr_from : (fuel v c : ℕ) → 2 ^ c ≤ v → c ≤ fuel → c ≤ bsr_from fuel v
unfolding bsr_from
le-bsr_from fuel v zero h k = omega arith
le-bsr_from zero v (suc c) h k = absurd (omega arith)
le-bsr_from (suc fuel) v (suc c) h k = elim (Bool-cases (ltb v 2)) [
  | inl e ↦ absurd (omega (arith, ltb→lt v 2 e, pow-suc 2 c, pow_pos c))
  | inr e ↦
      rw (e, bsr_from)
        (omega (arith, le-bsr_from fuel (v / 2) c (omega (arith, pow-suc 2 c)) (omega arith)))
]

pub bsr-le : (v c : ℕ) → v < 2 ^ suc c → bsr v ≤ c
unfolding bsr
bsr-le v c h = bsr_from-le 64 v c h

pub le-bsr : (v c : ℕ) → 2 ^ c ≤ v → c ≤ 64 → c ≤ bsr v
unfolding bsr
le-bsr v c h k = le-bsr_from 64 v c h k
