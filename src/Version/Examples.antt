-- ===== src/Version/Examples.antt =====
-- The version 1.0 with a magic number of 64 bits.
use standalone_linux_io_trac.Base.{ℕ, ◌≡◌, ◌≢◌, ◌⊎◌, refl, true, List, [], some, arith}
use standalone_linux_io_trac.Kernel.{◌>>=◌}
use standalone_linux_io_trac.Strings.{codes}
use standalone_linux_io_trac.Context.{Context}
use standalone_linux_io_trac.Trace.Events.{Event}
use standalone_linux_io_trac.Numbers.{
  print_number, print_digits, print_padded, read_number, read_digits, digit_value, skip_space,
}
use standalone_linux_io_trac.Bdev.Examples.{tracing}
use standalone_linux_io_trac.Procfs.Mngt.{User}
use standalone_linux_io_trac.Executor.{
  File, Procfs, throws, incompatible, new_executor, sized, write_procfs,
}
use standalone_linux_io_trac.Version.{version_text, read_version}
use standalone_linux_io_trac.Version.RoundTrip.{versioned, new_executor-versioned}

abbrev magic : ℕ
magic = 0x66C2F45010B3A9

abbrev willing : User
willing = record { access_ok = true; vzalloc_ok = true; copy_ok = true }

version_text_test : version_text 1 0 0xAB ≡ codes "1\n0\n00000000000000AB\n"
unfolding version_text print_number print_padded print_digits
version_text_test = refl

read_version_test : read_version (codes "12\n3\n00000000000001fE\n") ≡ some (12, 3, 510)
unfolding read_version read_number skip_space read_digits digit_value
read_version_test = refl

abbrev closed : File (Context (List Event))
closed = record { opens = λ s. true; write = λ text s. some (s, true) }

abbrev files : Procfs (Context (List Event))
files = record {
  add_device = closed;
  remove_device = closed;
  size = closed;
  version = λ s. some (0, 0, 0);
}

new_executor-versioned_example :
    (◌≡◌ {A = ℕ} magic 7
      → ◌≡◌ {A = ℕ} 1 1
      → new_executor (versioned 1 0 magic 8191 willing files) 7 1 [] (codes "64") tracing
        ≡ (write_procfs closed (codes "64") tracing >>= λ r. some (sized files [] r)))
    × ((◌≢◌ {A = ℕ} magic 7) ⊎ (◌≢◌ {A = ℕ} 1 1)
        → new_executor (versioned 1 0 magic 8191 willing files) 7 1 [] (codes "64") tracing
          ≡ some (tracing, throws incompatible))
new_executor-versioned_example =
    new_executor-versioned 1 0 magic 8191 willing files 7 1 [] (codes "64") tracing (omega arith)
      (omega arith) (refl, refl, refl)
