-- ===== src/Procfs/Examples.antt =====
-- The management files of a machine with two CPUs.
use standalone_linux_io_trac.Base.{
  ℕ, ◌+◌, ◌-◌, ◌*◌, ◌/◌, ◌%◌, ◌≡◌, refl, true, false, List, [], ◌∷◌, Option, some, arith, ltb,
  if◌then◌else◌,
}
use standalone_linux_io_trac.Kernel.{ok}
use standalone_linux_io_trac.Strings.{codes}
use standalone_linux_io_trac.Context.{Context}
use standalone_linux_io_trac.Trace.Events.{Event}
use standalone_linux_io_trac.Bdev.Examples.{
  ring, disk, devices, tracing, cpus, cpus-Distinct, tracing-Tracks,
}
use standalone_linux_io_trac.Bdev.Invariant.{Tracks}
use standalone_linux_io_trac.Bdev.AddPath.{add_decision, code_of, with_added}
use standalone_linux_io_trac.Bdev.{mutex_unlock}
use standalone_linux_io_trac.IoTrace.Examples.{idle}
use standalone_linux_io_trac.IoTrace.Buffers.{
  init_buffers, set_buffer_size, alloc_files, trace_file_alloc,
}
use standalone_linux_io_trac.Procfs.Mngt.{User, Answer, mngt_write, mngt_read}
use standalone_linux_io_trac.Procfs.Entries.{
  add_dev_write, list_dev_read, size_read, size_write, get_version, buffer_size_sscanf,
}
use standalone_linux_io_trac.Procfs.Lines.{NoNul}
use standalone_linux_io_trac.Procfs.WriteLine.{line, handed, refusal}
use standalone_linux_io_trac.Procfs.DeviceFiles.{add_dev_write-line}
use standalone_linux_io_trac.Procfs.ListText.{lines, whole_or_full, list_dev_read-lines}
use standalone_linux_io_trac.Procfs.SizeFile.{Decimal, rounded, size_read-size_write}

abbrev willing : User
willing = record { access_ok = true; vzalloc_ok = true; copy_ok = true }

abbrev path : List ℕ
path = codes "/dev/sda"

path-NoNul : NoNul path
path-NoNul = ground arith

add_dev_write-line_example :
    let r = add_decision devices path (7 ∷ []) 1 in
    (ctx' : Context (List Event)) × (add_dev_write ring devices cpus 1 willing (line path) 0 tracing
      ≡ handed (refusal willing) 9 (some (ctx', code_of r)) tracing)
    × Tracks disk cpus (with_added (7 ∷ []) r) ctx'
    × (ctx'.locked ≡ false)
add_dev_write-line_example =
    add_dev_write-line ring devices cpus cpus-Distinct 1 willing path (7 ∷ []) tracing
      tracing-Tracks refl refl path-NoNul (omega arith)

list_dev_read-lines_example :
    list_dev_read devices 1 true willing 4096 0 tracing
    ≡ some (whole_or_full 4096 (lines (codes "sda" ∷ [])) tracing)
list_dev_read-lines_example =
    list_dev_read-lines devices cpus 1 4096 willing (7 ∷ []) tracing tracing-Tracks refl refl
      (omega arith, tt) (refl, refl, refl)

-- A decimal of up to four digits, and its value.
abbrev show_small : ℕ → List ℕ
show_small m =
    if ltb m 10
    then (48 + m) ∷ []
    else if ltb m 100
    then (48 + m / 10) ∷ (48 + m % 10) ∷ []
    else if ltb m 1000
    then (48 + m / 100) ∷ (48 + m / 10 % 10) ∷ (48 + m % 10) ∷ []
    else (48 + m / 1000) ∷ (48 + m / 100 % 10) ∷ (48 + m / 10 % 10) ∷ (48 + m % 10) ∷ []

abbrev value : List ℕ → ℕ → ℕ
value [] acc = acc
value (c ∷ s) acc = value s (acc * 10 + (c - 48))

small-Decimal : Decimal (λ s. ok (value s 0)) show_small
small-Decimal = record {
  parses = λ m b. ground (arith, b);
  plain = λ m b. ground (arith, b);
  short = λ m b. ground (arith, b);
}

abbrev resized : Answer (Context (List Event)) ℕ
resized = record {
  state =
      mutex_unlock
        (alloc_files 128 (λ bytes cpu. true) cpus
          (record idle { locked = true; size = 100 * 1024 * 1024 / 2 })).0;
  result = ok 4;
  ppos = 4;
}

abbrev write_100 : Option (Answer (Context (List Event)) ℕ)
write_100 =
    size_write (λ s. ok (value s 0)) 128 (λ bytes cpu. true) cpus willing (line (show_small 100)) 0
      idle

write_100_taken : write_100 ≡ some resized
unfolding size_write mngt_write buffer_size_sscanf init_buffers set_buffer_size alloc_files
    trace_file_alloc
write_100_taken = refl

size_read-size_write_example :
    size_read show_small cpus willing 4096 0 resized.state
    ≡ some (whole_or_full 4096 (show_small (rounded 2 100)) resized.state)
size_read-size_write_example =
    size_read-size_write (λ s. ok (value s 0)) show_small small-Decimal 128 (λ bytes cpu. true) cpus
      willing willing 100 4096 idle resized (omega arith) (omega arith) (omega arith)
      (refl, refl, refl) write_100_taken refl

-- The version is given back.
get_version_test :
    get_version (codes "1.0") willing 100 0 idle
    ≡ some (record { state = idle; result = ok (codes "1.0"); ppos = 3 })
unfolding get_version mngt_read
get_version_test = refl
