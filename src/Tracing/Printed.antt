-- ===== src/Tracing/Printed.antt =====
-- A decimal that is printed and read with the definitions of Numbers meets what is relied on.
use standalone_linux_io_trac.Base.{
  ℕ, zero, suc, ◌/◌, ◌%◌, ◌^◌, ◌==◌, List, [], ◌∷◌, Option, none, some, ap, arith, Bool-cases, inl,
  inr,
}
use standalone_linux_io_trac.Kernel.{Result, ok, err, einval}
use standalone_linux_io_trac.Numbers.{digit, print_digits, print_number, read_number}
use standalone_linux_io_trac.Numbers.RoundTrip.{read_number-print_10}
use standalone_linux_io_trac.Numbers.Length.{print_number-length_4}
use standalone_linux_io_trac.Procfs.Lines.{NoNul}
use standalone_linux_io_trac.Procfs.SizeFile.{Decimal}

-- The kernel's `kstrtou64` on what a client prints.
abbrev pub parsed : Option (ℕ × List ℕ) → Result ℕ
parsed none = err einval
parsed (some (n, [])) = ok n
parsed (some (n, c ∷ rest)) = err einval

pub kstrtou64 : List ℕ → Result ℕ
kstrtou64 text = parsed (read_number 10 (2 ^ 64) text)

digits-NoNul : (fuel n : ℕ) (text : List ℕ) → NoNul text → NoNul (print_digits 10 fuel n text)
unfolding print_digits
digits-NoNul zero n text p = p
digits-NoNul (suc fuel) n text p =
    let q : NoNul (digit (n % 10) ∷ text) = (ground arith, p) in
    elim (Bool-cases (n / 10 == 0)) [
      | inl e ↦ rw e q
      | inr e ↦ rw e (digits-NoNul fuel (n / 10) (digit (n % 10) ∷ text) q)
    ]

pub printed-Decimal : Decimal kstrtou64 (print_number 10)
unfolding kstrtou64 print_number
printed-Decimal = record {
  parses = λ m b. ap parsed (read_number-print_10 (2 ^ 64) m (omega arith));
  plain = λ m b. digits-NoNul (suc m) m [] tt;
  short = λ m b. print_number-length_4 m (omega arith);
}
