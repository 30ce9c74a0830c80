-- ===== src/Base/Lists.antt =====
-- Lists measured and indexed by native numbers, under the library's names.
use Prim.Native.Nat.{ℕ, zero, suc, ◌+◌, ◌-◌, ◌≤◌, ◌<◌}
use mathlib.Core.Path.{◌≡◌, refl, sym, ap, ◌∙◌}
use mathlib.Core.Logic.{◌≢◌, inl, inr}
use mathlib.Core.Bool.{Bool, true, false, false≢true}
use mathlib.Core.List.{List, [], ◌∷◌, ◌++◌}
use mathlib.Core.Option.{Option, none, some}
use native.Mathlib.Omega.{arith}
use standalone_linux_io_trac.Base.Tests.{◌==◌, if◌then◌else◌, Bool-cases, ==→eq}

pub some_eq {ℓ} : {A : Type ℓ} {a b : A} → some a ≡ some b → a ≡ b
some_eq p = cc

pub none_is_not {ℓ} : {A : Type ℓ} {a : A} → ¬ (none ≡ some a)
none_is_not p = cc

module _ {ℓ} {A : Type ℓ} where
  abbrev pub length : List A → ℕ
  length [] = 0
  length (x ∷ xs) = suc (length xs)

  abbrev pub get_elem? : List A → ℕ → Option A
  get_elem? [] i = none
  get_elem? (x ∷ xs) zero = some x
  get_elem? (x ∷ xs) (suc i) = get_elem? xs i

  -- A write out of bounds changes nothing.
  abbrev pub set : List A → ℕ → A → List A
  set [] i v = []
  set (x ∷ xs) zero v = v ∷ xs
  set (x ∷ xs) (suc i) v = x ∷ set xs i v

  abbrev pub take : ℕ → List A → List A
  take n [] = []
  take zero (x ∷ xs) = []
  take (suc n) (x ∷ xs) = x ∷ take n xs

  abbrev pub drop : ℕ → List A → List A
  drop zero xs = xs
  drop (suc n) [] = []
  drop (suc n) (x ∷ xs) = drop n xs

  abbrev pub replicate : ℕ → A → List A
  replicate zero a = []
  replicate (suc n) a = a ∷ replicate n a

  -- All but the last element.
  abbrev pub drop_last : List A → List A
  drop_last [] = []
  drop_last (x ∷ []) = []
  drop_last (x ∷ y ∷ xs) = x ∷ drop_last (y ∷ xs)

module _ {ℓ} {A : Type ℓ} where
  pub length-append : (xs ys : List A) → length (xs ++ ys) ≡ length xs + length ys
  length-append [] ys = omega arith
  length-append (x ∷ xs) ys = omega (arith, length-append xs ys)

  pub length-replicate : (n : ℕ) (a : A) → length (replicate n a) ≡ n
  length-replicate zero a = refl
  length-replicate (suc n) a = ap suc (length-replicate n a)

  -- Nothing is cut from a list that is short enough.
  pub take_of_length-le : (k : ℕ) (ys : List A) → length ys ≤ k → take k ys ≡ ys
  take_of_length-le zero [] short = refl
  take_of_length-le (suc k) [] short = refl
  take_of_length-le zero (y ∷ ys) short = elim short [ ]
  take_of_length-le (suc k) (y ∷ ys) short =
      let rest : take k ys ≡ ys = take_of_length-le k ys (omega arith) in rw rest refl

  pub length-set : (xs : List A) (i : ℕ) (v : A) → length (set xs i v) ≡ length xs
  length-set [] i v = refl
  length-set (x ∷ xs) zero v = refl
  length-set (x ∷ xs) (suc i) v = ap suc (length-set xs i v)

  pub length-drop_last : (xs : List A) → length (drop_last xs) ≡ length xs - 1
  length-drop_last [] = refl
  length-drop_last (x ∷ []) = refl
  length-drop_last (x ∷ y ∷ xs) = omega (arith, length-drop_last (y ∷ xs))

  pub get_elem?-some : (xs : List A) (i : ℕ) → i < length xs → (a : A) × (get_elem? xs i ≡ some a)
  get_elem?-some [] i h = elim h [ ]
  get_elem?-some (x ∷ xs) zero h = (x, refl)
  get_elem?-some (x ∷ xs) (suc i) h = get_elem?-some xs i (omega arith)

module _ {ℓ} {A : Type ℓ} where
  pub get_elem?-set_self :
      (xs : List A) (i : ℕ) (v : A) → i < length xs → get_elem? (set xs i v) i ≡ some v
  get_elem?-set_self [] i v h = elim h [ ]
  get_elem?-set_self (x ∷ xs) zero v h = refl
  get_elem?-set_self (x ∷ xs) (suc i) v h = get_elem?-set_self xs i v (omega arith)

  pub get_elem?-set_ne :
      (xs : List A) (i j : ℕ) (v : A) → i ≢ j → get_elem? (set xs i v) j ≡ get_elem? xs j
  get_elem?-set_ne [] i j v h = refl
  get_elem?-set_ne (x ∷ xs) zero zero v h = absurd (h refl)
  get_elem?-set_ne (x ∷ xs) zero (suc j) v h = refl
  get_elem?-set_ne (x ∷ xs) (suc i) zero v h = refl
  get_elem?-set_ne (x ∷ xs) (suc i) (suc j) v h = get_elem?-set_ne xs i j v (λ e. h (ap suc e))

-- Membership and multiplicity of numbers, by evaluation.
abbrev pub elem : ℕ → List ℕ → Bool
elem a [] = false
elem a (x ∷ xs) = if x == a then true else elem a xs

-- How many numbers of a list pass a test.
abbrev pub tally : (ℕ → Bool) → List ℕ → ℕ
tally p [] = 0
tally p (x ∷ xs) = (if p x then 1 else 0) + tally p xs

abbrev pub count : ℕ → List ℕ → ℕ
count a xs = tally (λ x. x == a) xs

-- No number occurs twice.
abbrev pub Distinct : List ℕ → Type 0
Distinct [] = Unit {0}
Distinct (x ∷ xs) = (elem x xs ≡ false) × Distinct xs

pub tally-append : (p : ℕ → Bool) (xs ys : List ℕ) → tally p (xs ++ ys) ≡ tally p xs + tally p ys
tally-append p [] ys = omega arith
tally-append p (x ∷ xs) ys = omega (arith, tally-append p xs ys)

pub tally-set :
    (p : ℕ → Bool) (i v d : ℕ) (xs : List ℕ)
    → get_elem? xs i ≡ some d
    → tally p (set xs i v) + (if p d then 1 else 0) ≡ tally p xs + (if p v then 1 else 0)
tally-set p i v d [] h = cc
tally-set p zero v d (x ∷ xs) h = ground arith
tally-set p (suc i) v d (x ∷ xs) h = omega (arith, tally-set p i v d xs h)

pub tally-drop_last :
    (p : ℕ → Bool) (d i : ℕ) (xs : List ℕ)
    → length xs ≡ suc i
    → get_elem? xs i ≡ some d
    → tally p (drop_last xs) + (if p d then 1 else 0) ≡ tally p xs
tally-drop_last p d i [] h e = absurd (omega arith)
tally-drop_last p d zero (x ∷ []) h e = ground arith
tally-drop_last p d (suc i) (x ∷ []) h e = absurd (omega arith)
tally-drop_last p d zero (x ∷ y ∷ xs) h e = absurd (omega arith)
tally-drop_last p d (suc i) (x ∷ y ∷ xs) h e =
    omega (arith, tally-drop_last p d i (y ∷ xs) (omega arith) e)

pub count_pos : (a i : ℕ) (xs : List ℕ) → get_elem? xs i ≡ some a → 0 < count a xs
count_pos a i [] h = cc
count_pos a zero (x ∷ xs) h = ground arith
count_pos a (suc i) (x ∷ xs) h = omega (arith, count_pos a i xs h)

pub get_elem?-set_last :
    (i j v : ℕ) (xs : List ℕ)
    → length xs ≡ suc j
    → get_elem? xs j ≡ some v
    → i < length xs
    → get_elem? (set xs i v) j ≡ some v
get_elem?-set_last i j v [] h e l = absurd (omega arith)
get_elem?-set_last zero zero v (x ∷ xs) h e l = refl
get_elem?-set_last zero (suc j) v (x ∷ xs) h e l = e
get_elem?-set_last (suc i) zero v (x ∷ xs) h e l = absurd (omega arith)
get_elem?-set_last (suc i) (suc j) v (x ∷ xs) h e l =
    get_elem?-set_last i j v xs (omega arith) e (omega arith)

pub elem-append :
    (a : ℕ) (xs ys : List ℕ) → elem a (xs ++ ys) ≡ (if elem a xs then true else elem a ys)
elem-append a [] ys = refl
elem-append a (x ∷ xs) ys = ground (arith, elem-append a xs ys)

pub Distinct-snoc :
    (xs : List ℕ) (a : ℕ) → Distinct xs → elem a xs ≡ false → Distinct (xs ++ a ∷ [])
Distinct-snoc [] a d e = (refl, tt)
Distinct-snoc (x ∷ xs) a d e =
    (ground (arith, elem-append x xs (a ∷ [])), Distinct-snoc xs a d.1 (ground arith))

-- A member of a list is another number than one that is not in it.
pub elem_ne : (c x : ℕ) (xs : List ℕ) → elem x xs ≡ false → elem c xs ≡ true → (c == x) ≡ false
elem_ne c x xs d m = elim (Bool-cases (c == x)) [
  | inl e ↦ absurd (false≢true (sym d ∙ ap (λ n. elem n xs) (sym (==→eq _ _ e)) ∙ m))
  | inr n ↦ n
]
