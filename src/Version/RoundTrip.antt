-- ===== src/Version/RoundTrip.antt =====
-- The client reads the version that the module prints.
use standalone_linux_io_trac.Base.{
  ℕ, ◌+◌, ◌-◌, ◌^◌, ◌≡◌, ◌≤◌, ◌<◌, refl, ◌∙◌, arith, true, false, List, [], ◌∷◌, ◌++◌, some, ◌==◌,
  ltb, leb, min, length, length-append, take_of_length-le, ◌⊎◌, ◌≢◌,
}
use standalone_linux_io_trac.Kernel.{ok, ◌>>=◌}
use standalone_linux_io_trac.Context.{Context}
use standalone_linux_io_trac.Numbers.{print_number, print_padded}
use standalone_linux_io_trac.Numbers.RoundTrip.{
  ten-IsBase, read_number-print, read_number-newline, read_number-padded,
}
use standalone_linux_io_trac.Numbers.Length.{print_number-length_10, print_padded-length_16}
use standalone_linux_io_trac.Procfs.Mngt.{User, mngt_read}
use standalone_linux_io_trac.Procfs.Entries.{get_version}
use standalone_linux_io_trac.Procfs.ListText.{Willing, never}
use standalone_linux_io_trac.Executor.{
  Procfs, throws, incompatible, compatible, new_executor, sized, write_procfs,
}
use standalone_linux_io_trac.Version.{version_text, read_version, client_version}

-- The numbers that the module can have.
abbrev pub InRange : ℕ → ℕ → ℕ → Type 0
InRange major minor magic = (major < 2 ^ 31) × (minor < 2 ^ 31) × (magic < 2 ^ 64)

read_version-version_text :
    (major minor magic : ℕ)
    → InRange major minor magic
    → read_version (version_text major minor magic) ≡ some (major, minor, magic)
unfolding read_version version_text
read_version-version_text major minor magic (a, b, c) =
    let text2 = print_padded 16 magic ++ b'\n' ∷ [] in
    let text1 = print_number 10 minor ++ b'\n' ∷ text2 in
    let first = read_number-print 10 ten-IsBase (2 ^ 31) major text1 a in
    let second =
      read_number-newline 10 (2 ^ 31) text1
      ∙ read_number-print 10 ten-IsBase (2 ^ 31) minor text2 b in
    let third = read_number-newline 16 (2 ^ 64) text2 ∙ read_number-padded 16 (2 ^ 64) magic [] c in
    rw first (rw second (rw third refl))

version_text-length :
    (major minor magic : ℕ)
    → InRange major minor magic
    → length (version_text major minor magic) ≤ 39
unfolding version_text
version_text-length major minor magic (a, b, c) =
    let text2 = print_padded 16 magic ++ b'\n' ∷ [] in
    let text1 = print_number 10 minor ++ b'\n' ∷ text2 in
    omega (
      arith,
      print_number-length_10 major a,
      print_number-length_10 minor b,
      print_padded-length_16 magic c,
      length-append {0} (print_number 10 major) (b'\n' ∷ text1),
      length-append {0} (print_number 10 minor) (b'\n' ∷ text2),
      length-append {0} (print_padded 16 magic) (b'\n' ∷ []),
    )

-- A text that the buffers have room for is read whole.
get_version-whole :
    {T : Type 0} (u : User) (room : ℕ) (text : List ℕ) (s : Context T)
    → Willing u
    → length text ≤ 64
    → length text ≤ room
    → get_version text u room 0 s
      ≡ some (record { state = s; result = ok text; ppos = length text })
unfolding get_version mngt_read
get_version-whole u room text s (a, v, c) short fits =
    let all = take_of_length-le (min 64 room + 1 - 1) text (ground arith) in
    let again = take_of_length-le (length text) text (omega arith) in
    let below : leb (min 64 room + 1) (length text) ≡ false = ground arith in
    let inside : ltb room (length text) ≡ false = ground arith in
    rw a (rw v (rw below (rw inside (rw all (rw again (rw c (never (length text == 0) _ _)))))))

-- A client that reads the file `version` with a buffer of at least 39 bytes, and is not refused,
-- gets the three numbers that the module was built with, if they fit into an `int`, an `int` and 64
-- bits; the text is neither cut to the module's buffer nor to the client's.
pub client_version_lem :
    {T : Type 0} (major minor magic room : ℕ) (u : User) (s : Context T)
    → InRange major minor magic
    → 39 ≤ room
    → Willing u
    → client_version major minor magic u room s ≡ some (major, minor, magic)
unfolding client_version
client_version_lem major minor magic room u s i h w =
    let short = version_text-length major minor magic i in
    rw (get_version-whole u room (version_text major minor magic) s w (omega arith) (omega arith))
      (read_version-version_text major minor magic i)

module _ {T : Type 0} (major minor magic room : ℕ) (u : User) (k : Procfs (Context T)) where
  -- The module's files with its own `version`.
  abbrev pub versioned : Procfs (Context T)
  versioned = record k { version = λ s. client_version major minor magic u room s }

  -- Where the module's numbers fit into an `int`, an `int` and 64 bits, and a client reads at least
  -- 39 bytes of the file `version` and is not refused: if the module has the client's own magic and
  -- major number, whatever its minor one, the executor's constructor goes on to write the ring's
  -- size; if either differs, it throws that the version is incompatible and writes nothing.
  pub new_executor-versioned :
      (own_magic own_major : ℕ) (devices : List (List ℕ)) (text : List ℕ) (s : Context T)
      → InRange major minor magic
      → 39 ≤ room
      → Willing u
      → (magic ≡ own_magic
          → major ≡ own_major
          → new_executor versioned own_magic own_major devices text s
            ≡ (write_procfs k.size text s >>= λ r. some (sized k devices r)))
        × ((magic ≢ own_magic) ⊎ (major ≢ own_major)
            → new_executor versioned own_magic own_major devices text s
              ≡ some (s, throws incompatible))
  unfolding new_executor
  new_executor-versioned own_magic own_major devices text s i h w =
      let read = client_version_lem major minor magic room u s i h w in
      (
        (λ p q.
            let same : compatible own_magic own_major (major, minor, magic) ≡ true = ground arith in
            rw (read, new_executor) (rw same refl)),
        λ differ.
            let other : compatible own_magic own_major (major, minor, magic) ≡ false =
              ground arith in
            rw (read, new_executor) (rw other refl),
      )
