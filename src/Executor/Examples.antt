-- ===== src/Executor/Examples.antt =====
-- An executor that starts two devices of which the second one is the first again.
use standalone_linux_io_trac.Base.{
  ℕ, ◌≡◌, refl, Bool, true, false, List, [], ◌∷◌, Option, some, arith, ltb,
}
use standalone_linux_io_trac.Strings.{codes}
use standalone_linux_io_trac.Kernel.{ok}
use standalone_linux_io_trac.Context.{Context}
use standalone_linux_io_trac.Trace.Events.{Event}
use standalone_linux_io_trac.Bdev.{Devices}
use standalone_linux_io_trac.Bdev.Examples.{
  ring, devices, tracing, cpus, cpus-Distinct, tracing-Tracks,
}
use standalone_linux_io_trac.Procfs.Lines.{NoNul}
use standalone_linux_io_trac.Executor.{
  File, Executor, Ended, throws, returns, Probing, cannot_close, incompatible, start_trace,
  new_executor, probe_module, poll_until,
}
use standalone_linux_io_trac.Executor.Kernel.{kernel_procfs}
use standalone_linux_io_trac.Executor.StartTrace.{AllOrNone, start_trace-AllOrNone}
use standalone_linux_io_trac.Executor.Polling.{ended, failure, probe_module_ends}

-- Every path is that of the device 9.
abbrev one_disk : Devices
one_disk = record devices { lookup_bdev = λ path. ok 9 }

abbrev no_file : File (Context (List Event))
no_file = record { opens = λ s. false; write = λ text s. some (s, false) }

abbrev no_version : Context (List Event) → Option (ℕ × ℕ × ℕ)
no_version s = some (1, 0, 7)

abbrev path : List ℕ
path = codes "/dev/sdb"

path-NoNul : NoNul path
path-NoNul = ground arith

abbrev twice : Executor
twice = record { devices = path ∷ path ∷ []; started_devices = []; signals = 0 }

start_trace-AllOrNone_example :
    (x' : Executor) × (s' : Context (List Event)) × (r : Ended Bool) × (start_trace
        (kernel_procfs ring one_disk cpus 1 no_file no_version)
        twice
        tracing
      ≡ some (x', s', r))
    × AllOrNone ring one_disk cpus 1 no_file no_version cpus-Distinct
        (7 ∷ [])
        (path ∷ path ∷ [])
        0
        x'
        s'
        r
    × (s'.locked ≡ false)
start_trace-AllOrNone_example =
    start_trace-AllOrNone ring one_disk cpus 1 no_file no_version cpus-Distinct twice (7 ∷ [])
      tracing refl
      ((path-NoNul, omega arith), (λ d e. e), ((path-NoNul, omega arith), (λ d e. e), tt))
      tracing-Tracks refl refl

-- The module goes after three polls, and is back at once.
abbrev slow : Probing
slow = record {
  remove_command = 0;
  probe_command = 0;
  loaded_after_remove = λ t. ltb t 3;
  loaded_after_probe = λ t. true;
}

probe_module_ends_example : probe_module slow ≡ some (ended (failure slow))
probe_module_ends_example = probe_module_ends slow

slow_test : probe_module slow ≡ some (returns tt)
unfolding probe_module poll_until
slow_test = refl

-- A module that never goes.
stays_test :
    probe_module (record slow { loaded_after_remove = λ t. true }) ≡ some (throws cannot_close)
unfolding probe_module poll_until
stays_test = refl

-- Another magic number.
version_test :
    new_executor (kernel_procfs ring one_disk cpus 1 no_file no_version) 8 1 [] (codes "64") tracing
    ≡ some (tracing, throws incompatible)
unfolding new_executor kernel_procfs
version_test = refl
