-- ===== src/Version.antt =====
-- The file `version`: the text that source/kernel/procfs.c makes of the version's numbers, and what
-- source/userspace/KernelTraceExecutor.cpp reads of it.
pub mod RoundTrip
pub mod Examples
use standalone_linux_io_trac.Base.{ℕ, ◌^◌, List, [], ◌∷◌, ◌++◌, Option, none, some}
use standalone_linux_io_trac.Kernel.{Result, ok, err, ◌>>=◌}
use standalone_linux_io_trac.Context.{Context}
use standalone_linux_io_trac.Numbers.{print_number, print_padded, read_number}
use standalone_linux_io_trac.Procfs.Mngt.{User, Answer}
use standalone_linux_io_trac.Procfs.Entries.{get_version}

-- `_version_snprintf`, before it is cut to the buffer.
unfoldable pub version_text : ℕ → ℕ → ℕ → List ℕ
version_text major minor magic =
    print_number 10 major
    ++ b'\n' ∷ (print_number 10 minor ++ b'\n' ∷ (print_padded 16 magic ++ b'\n' ∷ []))

-- The three numbers that `checkModuleCompatibility` reads: two of type `int` and one of 64 bits.
-- `none` is a stream that fails, which it does not test.
unfoldable pub read_version : List ℕ → Option (ℕ × ℕ × ℕ)
read_version text = do
  (major, text1) ← read_number 10 (2 ^ 31) text
  (minor, text2) ← read_number 10 (2 ^ 31) text1
  (magic, text3) ← read_number 16 (2 ^ 64) text2
  some (major, minor, magic)

abbrev read_answer : {S : Type 0} → Answer S (List ℕ) → Option (ℕ × ℕ × ℕ)
read_answer a = elim (a.result) [ ok text ↦ read_version text | err e ↦ none ]

-- What the client reads of the module, with a buffer of `room` bytes.
unfoldable pub client_version : {T : Type 0} → ℕ → ℕ → ℕ → User → ℕ → Context T → Option (ℕ × ℕ × ℕ)
client_version major minor magic u room s =
    get_version (version_text major minor magic) u room 0 s >>= read_answer
