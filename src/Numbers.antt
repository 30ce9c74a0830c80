-- ===== src/Numbers.antt =====
-- Numbers as text, as C's `snprintf` prints them (`%d`, `%016llX`) and C++'s `operator>>` reads
-- them, with the bases 10 and 16. A sign and the prefix `0x` do not occur in what is printed, and
-- are not read.
pub mod RoundTrip
pub mod Length
use standalone_linux_io_trac.Base.{
  ℕ, zero, suc, ◌+◌, ◌-◌, ◌*◌, ◌/◌, ◌%◌, Bool, true, false, List, [], ◌∷◌, ◌++◌, Option, none, some,
  ◌==◌, ltb, leb, ◌&&◌, ◌||◌, if◌then◌else◌, length, replicate,
}

abbrev pub digit : ℕ → ℕ
digit d = if ltb d 10 then b'0' + d else b'A' + (d - 10)

abbrev hex_value : ℕ → Option ℕ
hex_value c =
    if leb b'0' c && leb c b'9'
    then some (c - b'0')
    else if leb b'A' c && leb c b'F'
    then some (c - b'A' + 10)
    else if leb b'a' c && leb c b'f'
    then some (c - b'a' + 10)
    else none

abbrev below : ℕ → Option ℕ → Option ℕ
below base none = none
below base (some d) = if ltb d base then some d else none

unfoldable pub digit_value : ℕ → ℕ → Option ℕ
digit_value base c = below base (hex_value c)

-- The digits of `n` in front of `text`, on fuel; one more than `n` is enough.
unfoldable pub print_digits : ℕ → ℕ → ℕ → List ℕ → List ℕ
print_digits base zero n text = text
print_digits base (suc fuel) n text =
    let more = print_digits base fuel (n / base) (digit (n % base) ∷ text) in
    if n / base == 0 then digit (n % base) ∷ text else more

unfoldable pub print_number : ℕ → ℕ → List ℕ
print_number base n = print_digits base (suc n) n []

-- `%016llX` of a number below 2 ^ 64.
unfoldable pub print_padded : ℕ → ℕ → List ℕ
print_padded width n = let text = print_number 16 n in replicate (width - length text) b'0' ++ text

-- The digits that come first, as a number behind those that give `v`, and the rest.
unfoldable pub read_digits : ℕ → ℕ → List ℕ → ℕ × List ℕ
read_digits base v [] = (v, [])
read_digits base v (c ∷ cs) = elim (digit_value base c) [
  | none ↦ (v, c ∷ cs)
  | some d ↦ read_digits base (v * base + d) cs
]

abbrev pub is_space : ℕ → Bool
is_space c = c == b' ' || leb b'\t' c && leb c b'\r'

unfoldable pub skip_space : List ℕ → List ℕ
skip_space [] = []
skip_space (c ∷ cs) = if is_space c then skip_space cs else c ∷ cs

-- A number below `limit`; `none` is a stream that fails.
abbrev pub checked : ℕ → ℕ × List ℕ → Option (ℕ × List ℕ)
checked limit (v, rest) = if ltb v limit then some (v, rest) else none

abbrev pub number_at : ℕ → ℕ → List ℕ → Option (ℕ × List ℕ)
number_at base limit [] = none
number_at base limit (c ∷ cs) = elim (digit_value base c) [
  | none ↦ none
  | some d ↦ checked limit (read_digits base d cs)
]

unfoldable pub read_number : ℕ → ℕ → List ℕ → Option (ℕ × List ℕ)
read_number base limit text = number_at base limit (skip_space text)
