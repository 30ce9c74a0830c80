-- ===== src/Numbers/RoundTrip.antt =====
-- Reading a number that was printed gives it back.
use mathlib.Core.List.{append_assoc}
use standalone_linux_io_trac.Base.{
  ℕ, zero, suc, ◌+◌, ◌-◌, ◌*◌, ◌/◌, ◌%◌, ◌≡◌, ◌≤◌, ◌<◌, refl, sym, ap, ◌∙◌, arith, true, false,
  List, [], ◌∷◌, ◌++◌, none, some, ◌==◌, ltb, Bool-cases, inl, inr, length, replicate,
}
use standalone_linux_io_trac.Numbers.{
  digit, digit_value, print_digits, print_number, print_padded, read_digits, is_space, skip_space,
  read_number, number_at,
}

digit_value-digit_10 : (d : ℕ) → d < 10 → digit_value 10 (digit d) ≡ some d
unfolding digit_value
digit_value-digit_10 d h = ground arith

digit_value-digit_16 : (d : ℕ) → d < 16 → digit_value 16 (digit d) ≡ some d
unfolding digit_value
digit_value-digit_16 d h = ground arith

-- What is used of a base.
pub record IsBase (base : ℕ) : Type 0 where
  pub value : (d : ℕ) → d < base → digit_value base (digit d) ≡ some d
  pub newline : digit_value base b'\n' ≡ none
  pub below : (n : ℕ) → n % base < base
  pub whole : (n : ℕ) → n / base * base + n % base ≡ n
  pub smaller : (n fuel : ℕ) → n < suc fuel → (n / base == 0) ≡ false → n / base < fuel
  pub last : (n : ℕ) → (n / base == 0) ≡ true → n % base ≡ n
  pub room : base ≤ 16

pub ten-IsBase : IsBase 10
unfolding digit_value
ten-IsBase = record {
  value = digit_value-digit_10;
  newline = refl;
  below = λ n. omega arith;
  whole = λ n. omega arith;
  smaller = λ n fuel h e. ground arith;
  last = λ n e. ground arith;
  room = omega arith;
}

pub sixteen-IsBase : IsBase 16
unfolding digit_value
sixteen-IsBase = record {
  value = digit_value-digit_16;
  newline = refl;
  below = λ n. omega arith;
  whole = λ n. omega arith;
  smaller = λ n fuel h e. ground arith;
  last = λ n e. ground arith;
  room = omega arith;
}

digit-not_space : (d : ℕ) → d < 16 → is_space (digit d) ≡ false
digit-not_space d h = ground arith

skip_digit : (c : ℕ) (cs : List ℕ) → is_space c ≡ false → skip_space (c ∷ cs) ≡ c ∷ cs
unfolding skip_space
skip_digit c cs s = rw s refl

module _ (base : ℕ) (b : IsBase base) where
  -- The text starts with a digit.
  StartsDigit : List ℕ → Type 0
  StartsDigit [] = ⊥
  StartsDigit (c ∷ cs) = ((d : ℕ) × (digit_value base c ≡ some d)) × (is_space c ≡ false)

  digit-Starts : (n : ℕ) (text : List ℕ) → StartsDigit (digit (n % base) ∷ text)
  unfolding StartsDigit
  digit-Starts n text =
      let small = b.below n in
      ((n % base, b.value (n % base) small), digit-not_space (n % base) (omega (arith, b.room)))

  print_digits-Starts :
      (fuel n : ℕ) (text : List ℕ) → n < fuel → StartsDigit (print_digits base fuel n text)
  unfolding print_digits
  print_digits-Starts zero n text h = elim h [ ]
  print_digits-Starts (suc fuel) n text h = elim (Bool-cases (n / base == 0)) [
    | inl e ↦ rw e (digit-Starts n text)
    | inr e ↦
        rw e (print_digits-Starts fuel (n / base) (digit (n % base) ∷ text) (b.smaller n fuel h e))
  ]

  read_value :
      (v c d : ℕ) (text : List ℕ)
      → digit_value base c ≡ some d
      → read_digits base v (c ∷ text) ≡ read_digits base (v * base + d) text
  unfolding read_digits
  read_value v c d text e = rw (e, read_digits) refl

  stops : (n : ℕ) (rest : List ℕ) → read_digits base n (b'\n' ∷ rest) ≡ (n, b'\n' ∷ rest)
  unfolding read_digits
  stops n rest = rw (b.newline, read_digits) refl

  read_digit :
      (v d : ℕ) (text : List ℕ)
      → d < base
      → read_digits base v (digit d ∷ text) ≡ read_digits base (v * base + d) text
  read_digit v d text h = read_value v (digit d) d text (b.value d h)

  read_digits-print :
      (fuel n : ℕ) (text : List ℕ)
      → n < fuel
      → read_digits base 0 (print_digits base fuel n text) ≡ read_digits base n text
  unfolding print_digits
  read_digits-print zero n text h = elim h [ ]
  read_digits-print (suc fuel) n text h = elim (Bool-cases (n / base == 0)) [
    | inl e ↦ rw e (
        read_digit 0 (n % base) text (b.below n)
        ∙ ap (λ v. read_digits base v text) (omega (arith, b.last n e)))
    | inr e ↦ rw e (
        read_digits-print fuel (n / base) (digit (n % base) ∷ text) (b.smaller n fuel h e)
        ∙ read_digit (n / base) (n % base) text (b.below n)
        ∙ ap (λ v. read_digits base v text) (b.whole n))
  ]

  print_digits-append :
      (fuel n : ℕ) (text rest : List ℕ)
      → print_digits base fuel n (text ++ rest) ≡ print_digits base fuel n text ++ rest
  unfolding print_digits
  print_digits-append zero n text rest = refl
  print_digits-append (suc fuel) n text rest = elim (Bool-cases (n / base == 0)) [
    | inl e ↦ rw e refl
    | inr e ↦ rw e (print_digits-append fuel (n / base) (digit (n % base) ∷ text) rest)
  ]

  read_started :
      (limit n : ℕ) (text rest : List ℕ)
      → StartsDigit text
      → read_digits base 0 text ≡ (n, rest)
      → n < limit
      → read_number base limit text ≡ some (n, rest)
  unfolding StartsDigit read_number
  read_started limit n [] rest p e h = absurd p
  read_started limit n (c ∷ cs) rest ((d, q), s) e h =
      let step : read_digits base d cs ≡ (n, rest) =
        sym (read_value 0 c d cs q ∙ ap (λ v. read_digits base v cs) (omega arith)) ∙ e in
      let below : ltb n limit ≡ true = ground arith in
      rw (skip_digit c cs s) (rw (q, number_at) (rw step (rw below refl)))

  -- A printed number is read up to the newline behind it.
  pub read_number-print :
      (limit n : ℕ) (rest : List ℕ)
      → n < limit
      → read_number base limit (print_number base n ++ b'\n' ∷ rest) ≡ some (n, b'\n' ∷ rest)
  unfolding print_number
  read_number-print limit n rest h =
      let text = sym (print_digits-append (suc n) n [] (b'\n' ∷ rest)) in
      rw text (
        read_started limit n (print_digits base (suc n) n (b'\n' ∷ rest)) (b'\n' ∷ rest)
          (print_digits-Starts (suc n) n (b'\n' ∷ rest) (omega arith))
          (read_digits-print (suc n) n (b'\n' ∷ rest) (omega arith) ∙ stops n rest) h)

-- A printed number is read alone.
pub read_number-print_10 :
    (limit n : ℕ) → n < limit → read_number 10 limit (print_number 10 n) ≡ some (n, [])
unfolding print_number read_digits
read_number-print_10 limit n h =
    read_started 10 ten-IsBase limit n (print_digits 10 (suc n) n []) []
      (print_digits-Starts 10 ten-IsBase (suc n) n [] (omega arith))
      (read_digits-print 10 ten-IsBase (suc n) n [] (omega arith)) h

pub read_number-newline :
    (base limit : ℕ) (text : List ℕ)
    → read_number base limit (b'\n' ∷ text) ≡ read_number base limit text
unfolding read_number skip_space
read_number-newline base limit text = refl

read_zeros :
    (k : ℕ) (text : List ℕ) → read_digits 16 0 (replicate k b'0' ++ text) ≡ read_digits 16 0 text
unfolding read_digits digit_value
read_zeros zero text = refl
read_zeros (suc k) text = read_zeros k text

zeros-Starts :
    (k n : ℕ) (rest : List ℕ)
    → StartsDigit 16 sixteen-IsBase (replicate k b'0' ++ print_digits 16 (suc n) n rest)
unfolding StartsDigit digit_value
zeros-Starts zero n rest = print_digits-Starts 16 sixteen-IsBase (suc n) n rest (omega arith)
zeros-Starts (suc k) n rest = ((0, refl), refl)

-- The same with zeros before it.
pub read_number-padded :
    (width limit n : ℕ) (rest : List ℕ)
    → n < limit
    → read_number 16 limit (print_padded width n ++ b'\n' ∷ rest) ≡ some (n, b'\n' ∷ rest)
unfolding print_padded print_number
read_number-padded width limit n rest h =
    let k = width - length (print_digits 16 (suc n) n []) in
    let nl = b'\n' ∷ rest in
    let text : (replicate k b'0' ++ print_digits 16 (suc n) n []) ++ nl
        ≡ replicate k b'0' ++ print_digits 16 (suc n) n nl =
      append_assoc (replicate k b'0') (print_digits 16 (suc n) n []) nl
      ∙ ap (λ t. replicate k b'0' ++ t)
          (sym (print_digits-append 16 sixteen-IsBase (suc n) n [] nl)) in
    rw text (
      read_started 16 sixteen-IsBase limit n (replicate k b'0' ++ print_digits 16 (suc n) n nl) nl
        (zeros-Starts k n nl)
        (read_zeros k (print_digits 16 (suc n) n nl)
          ∙ read_digits-print 16 sixteen-IsBase (suc n) n nl (omega arith)
          ∙ stops 16 sixteen-IsBase n rest)
        h)
