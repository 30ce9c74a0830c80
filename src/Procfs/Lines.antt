-- ===== src/Procfs/Lines.antt =====
-- A text in a buffer, with a byte behind it.
use standalone_linux_io_trac.Base.{
  ℕ, suc, ◌+◌, ◌<◌, ◌≡◌, refl, ap, List, [], ◌∷◌, ◌++◌, Option, some, arith, ◌==◌, if◌then◌else◌,
  length, set, get_elem?, length-append,
}
use standalone_linux_io_trac.Strings.{c_string}

-- A text without NUL.
abbrev pub NoNul : List ℕ → Type 0
NoNul [] = Unit {0}
NoNul (c ∷ s) = (0 < c) × NoNul s

pub NoNul-append : (s t : List ℕ) → NoNul s → NoNul t → NoNul (s ++ t)
NoNul-append [] t p q = q
NoNul-append (c ∷ s) t (h, p) q = (h, NoNul-append s t p q)

pub c_string-append : (s t : List ℕ) → NoNul s → c_string (s ++ 0 ∷ t) ≡ s
c_string-append [] t p = refl
c_string-append (c ∷ s) t (h, p) =
    let e : (c == 0) ≡ standalone_linux_io_trac.Base.false = ground arith in
    rw e (ap (◌∷◌ c) (c_string-append s t p))

pub c_string-NoNul : (s : List ℕ) → NoNul s → c_string s ≡ s
c_string-NoNul [] p = refl
c_string-NoNul (c ∷ s) (h, p) =
    let e : (c == 0) ≡ standalone_linux_io_trac.Base.false = ground arith in
    rw e (ap (◌∷◌ c) (c_string-NoNul s p))

pub get_elem?-append_mid :
    (s t : List ℕ) (c : ℕ) → get_elem? ((s ++ c ∷ []) ++ t) (length s) ≡ some c
get_elem?-append_mid [] t c = refl
get_elem?-append_mid (x ∷ s) t c = get_elem?-append_mid s t c

pub set-append_mid :
    (s t : List ℕ) (c v : ℕ) → set ((s ++ c ∷ []) ++ t) (length s) v ≡ (s ++ v ∷ []) ++ t
set-append_mid [] t c v = refl
set-append_mid (x ∷ s) t c v = ap (◌∷◌ x) (set-append_mid s t c v)

pub c_string-cut : (s t : List ℕ) → NoNul s → c_string ((s ++ 0 ∷ []) ++ t) ≡ s
c_string-cut [] t p = refl
c_string-cut (c ∷ s) t (h, p) =
    let e : (c == 0) ≡ standalone_linux_io_trac.Base.false = ground arith in
    rw e (ap (◌∷◌ c) (c_string-cut s t p))
