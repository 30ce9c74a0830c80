-- ===== src/Monitor/Sharing.antt =====
-- How many inode tracers share the monitor, and how the count changes.
use standalone_linux_io_trac.Base.{
  ℕ, ◌+◌, ◌<◌, ◌≡◌, refl, sym, ap, ◌∙◌, Bool, true, false, List, [], ◌∷◌, Option, none, some, arith,
  ◌==◌, elem, elem_ne, tally, Distinct, Bool-cases, ◌⊎◌, inl, inr, ==→eq, none_is_not,
}
use mathlib.Core.Bool.{false≢true}
use standalone_linux_io_trac.Monitor.{Monitors, fsm_or, find_fsm}

-- A tracer has a monitor.
abbrev pub uses : Option (Option ℕ) → Bool
uses none = false
uses (some none) = false
uses (some (some p)) = true

-- The inode tracers of the CPUs that have a monitor.
abbrev pub users : List ℕ → Monitors → ℕ
users cpus w = tally (λ c. uses (w.tracers c)) cpus

pub tally_same :
    (p q : ℕ → Bool) (xs : List ℕ)
    → ((c : ℕ) → elem c xs ≡ true → p c ≡ q c)
    → tally p xs ≡ tally q xs
tally_same p q [] h = refl
tally_same p q (x ∷ xs) h =
    let here = h x (ground arith) in
    let rest = tally_same p q xs (λ c m. h c (ground (arith, m))) in ground (arith, here, rest)

-- One more CPU passes.
pub tally_raise :
    (p q : ℕ → Bool) (a : ℕ) (xs : List ℕ)
    → Distinct xs
    → elem a xs ≡ true
    → p a ≡ false
    → q a ≡ true
    → ((c : ℕ) → (c == a) ≡ false → p c ≡ q c)
    → tally q xs ≡ tally p xs + 1
tally_raise p q a [] d m f t h = absurd (false≢true m)
tally_raise p q a (x ∷ xs) (out, d) m f t h = elim (Bool-cases (x == a)) [
  | inl e ↦
      let s = ==→eq x a e in
      let rest =
        tally_same p q xs (λ c i. h c (elem_ne c a xs (ap (λ y. elem y xs) (sym s) ∙ out) i)) in
      let px : p x ≡ false = ap p s ∙ f in
      let qx : q x ≡ true = ap q s ∙ t in ground (arith, rest, px, qx)
  | inr n ↦
      let rest = tally_raise p q a xs d (ground (arith, m, n)) f t h in ground (arith, rest, h x n)
]

fsm_or-cases :
    (t : Option (Option ℕ)) (rest r : Option ℕ)
    → fsm_or t rest ≡ r
    → ((uses t ≡ false) × (rest ≡ r)) ⊎ ((p : ℕ) × (t ≡ some (some p)) × (r ≡ some p))
fsm_or-cases none rest r e = inl (refl, e)
fsm_or-cases (some none) rest r e = inl (refl, e)
fsm_or-cases (some (some p)) rest r e = inr (p, refl, sym e)

-- The monitor that is found is that of a tracer.
pub find_fsm-some :
    (cpus : List ℕ) (w : Monitors) (p : ℕ)
    → find_fsm cpus w ≡ some p
    → (c : ℕ) × (elem c cpus ≡ true) × (w.tracers c ≡ some (some p)) × (0 < users cpus w)
unfolding find_fsm
find_fsm-some [] w p e = absurd (none_is_not e)
find_fsm-some (cpu ∷ cpus) w p e =
    elim (fsm_or-cases (w.tracers cpu) (find_fsm cpus w) (some p) e) [
      | inl (unused, rest) ↦
          let (c, m, h, z) = find_fsm-some cpus w p rest in
          (c, ground (arith, m), h, omega (arith, z))
      | inr (q, here, same) ↦
          let mine : w.tracers cpu ≡ some (some p) = here ∙ ap (λ x. some x) (sym same) in
          (cpu, ground arith, mine, ground (arith, ap uses mine))
    ]

-- None is found only if no tracer has one.
pub find_fsm-none : (cpus : List ℕ) (w : Monitors) → find_fsm cpus w ≡ none → users cpus w ≡ 0
unfolding find_fsm
find_fsm-none [] w e = refl
find_fsm-none (cpu ∷ cpus) w e = elim (fsm_or-cases (w.tracers cpu) (find_fsm cpus w) none e) [
  | inl (unused, rest) ↦ ground (arith, unused, find_fsm-none cpus w rest)
  | inr (q, here, same) ↦ absurd (none_is_not same)
]

pub users_pos :
    (cpus : List ℕ) (w : Monitors) (c q : ℕ)
    → elem c cpus ≡ true
    → w.tracers c ≡ some (some q)
    → 0 < users cpus w
users_pos [] w c q m e = absurd (false≢true m)
users_pos (x ∷ cpus) w c q m e = elim (Bool-cases (x == c)) [
  | inl s ↦
      let used : uses (w.tracers x) ≡ true =
        ap (λ y. uses (w.tracers y)) (==→eq x c s) ∙ ap uses e in
      ground (arith, used)
  | inr n ↦ let z = users_pos cpus w c q (ground (arith, m, n)) e in omega (arith, z)
]
