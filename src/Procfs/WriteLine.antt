-- ===== src/Procfs/WriteLine.antt =====
-- What a line that is written to a management file does.
use standalone_linux_io_trac.Base.{
  ℕ, suc, ◌-◌, ◌<◌, ◌≡◌, refl, ap, ◌∙◌, Bool, true, false, List, [], ◌∷◌, ◌++◌, Option, none, some,
  arith, ◌==◌, leb, not, if◌then◌else◌, length, length-append,
}
use standalone_linux_io_trac.Kernel.{Errno, Result, enomem, efault, ◌>>=◌}
use standalone_linux_io_trac.Base.{get_elem?, set}
use standalone_linux_io_trac.Strings.{c_string}
use standalone_linux_io_trac.Procfs.Mngt.{User, Answer, fails, written, terminated, mngt_write}
use standalone_linux_io_trac.Procfs.Lines.{
  NoNul, NoNul-append, c_string-NoNul, c_string-cut, get_elem?-append_mid, set-append_mid,
}

-- What stops a write before its handler: in the order of the tests.
abbrev pub refusal : User → Option Errno
refusal u =
    if not u.access_ok
    then some efault
    else if not u.vzalloc_ok
    then some enomem
    else if not u.copy_ok
    then some efault
    else none

abbrev pub line : List ℕ → List ℕ
line s = s ++ b'\n' ∷ []

-- A write that is stopped, or that hands the text on.
abbrev pub handed :
    {S : Type 0} → Option Errno → ℕ → Option (S × Result (Unit {0})) → S → Option (Answer S ℕ)
handed (some e) len r s = fails s e 0
handed none len r s = r >>= λ out. some (written 0 len out)

terminated_nl :
    (buf : List ℕ) (len : ℕ)
    → get_elem? buf (len - 1) ≡ some b'\n'
    → terminated buf len ≡ set buf (len - 1) 0
terminated_nl buf len e = rw (e, terminated) refl

terminated-line :
    (s : List ℕ) → NoNul s → c_string (terminated (line s ++ 0 ∷ []) (suc (length s))) ≡ s
terminated-line s p =
    let last : suc (length s) - 1 ≡ length s = omega arith in
    let at_end = ap (get_elem? (line s ++ 0 ∷ [])) last ∙ get_elem?-append_mid s (0 ∷ []) b'\n' in
    ap c_string (
      terminated_nl (line s ++ 0 ∷ []) (suc (length s)) at_end
      ∙ ap (λ i. set (line s ++ 0 ∷ []) i 0) last
      ∙ set-append_mid s (0 ∷ []) b'\n' 0)
    ∙ c_string-cut s (0 ∷ []) p

-- The three tests on the user's buffer, and what they refuse.
gated :
    {S : Type 0} (a b c : Bool) (len : ℕ) (st : S) (r : Option (S × Result (Unit {0})))
    → (if not a
        then fails st efault 0
        else if not b
        then fails st enomem 0
        else if not c
        then fails st efault 0
        else r >>= λ out. some (written 0 len out))
      ≡ handed (refusal (record { access_ok = a; vzalloc_ok = b; copy_ok = c })) len r st
gated false b c len st r = refl
gated true false c len st r = refl
gated true true false len st r = refl
gated true true true len st r = refl

module _ {S : Type 0} (handler : List ℕ → S → Option (S × Result (Unit {0}))) where
  -- A line with its newline, written at the start of the file: a buffer that is not accessible or
  -- cannot be copied is an error and changes nothing, else the handler gets the line without the
  -- newline, and its error or the whole length is the result.
  pub mngt_write-line :
      (u : User) (s : List ℕ) (st : S)
      → NoNul s
      → length s < 4095
      → mngt_write handler u (line s) 0 st ≡ handed (refusal u) (suc (length s)) (handler s st) st
  unfolding mngt_write
  mngt_write-line u s st p h =
      let whole = c_string-NoNul (line s) (NoNul-append s (b'\n' ∷ []) p (omega arith, tt)) in
      let len : length (line s) ≡ suc (length s) =
        omega (arith, length-append {0} s (b'\n' ∷ [])) in
      let long : leb 4096 (length (line s)) ≡ false = ground (arith, len) in
      let empty : (suc (length s) == 0) ≡ false = ground arith in
      rw long (
        rw (whole) (
          rw len (
            rw empty (
              rw (terminated-line s p)
                (gated u.access_ok u.vzalloc_ok u.copy_ok (suc (length s)) st (handler s st))))))
