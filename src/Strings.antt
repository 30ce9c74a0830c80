-- ===== src/Strings.antt =====
-- C strings as lists of non-zero bytes, and the kernel's bounded operations on them.
use Prim.Native.Char.{code}
use Prim.Native.String.{String}
use standalone_linux_io_trac.Base.{
  ℕ, zero, suc, ◌-◌, min, Bool, true, false, ◌&&◌, List, [], ◌∷◌, length, take, ◌==◌, if◌then◌else◌,
}

-- The bytes of an ASCII literal.
abbrev pub codes : String → List ℕ
codes String.[] = []
codes (String.◌∷◌ c s) = code c ∷ codes s

-- `strnlen(s, n)`.
abbrev pub strnlen : List ℕ → ℕ → ℕ
strnlen s n = min (length s) n

-- `strlcpy(dst, s, n)`, and `snprintf(dst, n, …)` of a text: what stands in `dst` before the
-- terminator.
abbrev pub strlcpy : List ℕ → ℕ → List ℕ
strlcpy s n = take (n - 1) s

-- The string that starts a buffer: its bytes up to the first NUL.
abbrev pub c_string : List ℕ → List ℕ
c_string [] = []
c_string (c ∷ buf) = if c == 0 then [] else c ∷ c_string buf

-- Whether `strncmp(s, t, n)` is 0.
abbrev pub strncmp_eq : List ℕ → List ℕ → ℕ → Bool
strncmp_eq s t zero = true
strncmp_eq [] [] (suc n) = true
strncmp_eq [] (d ∷ t) (suc n) = false
strncmp_eq (c ∷ s) [] (suc n) = false
strncmp_eq (c ∷ s) (d ∷ t) (suc n) = c == d && strncmp_eq s t n
