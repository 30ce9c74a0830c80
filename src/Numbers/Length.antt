-- ===== src/Numbers/Length.antt =====
-- The lengths of printed numbers.
use native.Mathlib.Nat.{pow-suc, pow-zero}
use standalone_linux_io_trac.Base.{
  ℕ, zero, suc, ◌+◌, ◌-◌, ◌*◌, ◌/◌, ◌%◌, ◌≡◌, ◌≤◌, ◌<◌, arith, true, List, [], ◌∷◌, ◌==◌,
  Bool-cases, inl, inr, length, replicate, length-append, length-replicate, ◌^◌, subst,
}
use standalone_linux_io_trac.Numbers.{digit, print_digits, print_number, print_padded}

-- How long the text of a number below a power of the base is.
print_digits-length :
    (base : ℕ)
    → ((n p : ℕ) → n < p * base → n / base < p)
    → (k fuel n : ℕ) (text : List ℕ) → n < base ^ suc k
    → length (print_digits base fuel n text) ≤ suc k + length text
unfolding print_digits
print_digits-length base div k zero n text h = omega arith
print_digits-length base div zero (suc fuel) n text h =
    let q : n / base < base ^ zero =
      div n (base ^ zero) (subst (λ z. n < z) (pow-suc base zero) h) in
    let one : base ^ zero ≡ 1 = pow-zero base in
    let e : (n / base == 0) ≡ true = ground arith in rw e (omega arith)
print_digits-length base div (suc k) (suc fuel) n text h = elim (Bool-cases (n / base == 0)) [
  | inl e ↦ rw e (omega arith)
  | inr e ↦ rw e (
      omega (
        arith,
        print_digits-length base div k fuel (n / base) (digit (n % base) ∷ text)
            (div n (base ^ suc k) (subst (λ z. n < z) (pow-suc base (suc k)) h)),
      ))
]

pub print_number-length_10 : (n : ℕ) → n < 2 ^ 31 → length (print_number 10 n) ≤ 10
unfolding print_number
print_number-length_10 n h =
    print_digits-length 10 (λ m p q. omega arith) 9 (suc n) n [] (omega arith)

pub print_padded-length_16 : (n : ℕ) → n < 2 ^ 64 → length (print_padded 16 n) ≡ 16
unfolding print_padded print_number
print_padded-length_16 n h =
    let short = print_digits-length 16 (λ m p q. omega arith) 15 (suc n) n [] (omega arith) in
    let k = 16 - length (print_digits 16 (suc n) n []) in
    omega (
      arith,
      short,
      length-append {0} (replicate k b'0') (print_digits 16 (suc n) n []),
      length-replicate {A = ℕ} k b'0',
    )

pub print_number-length_4 : (n : ℕ) → n < 10 ^ 4 → length (print_number 10 n) ≤ 4
unfolding print_number
print_number-length_4 n h =
    print_digits-length 10 (λ m p q. omega arith) 3 (suc n) n [] (omega arith)
