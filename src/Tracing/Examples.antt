-- ===== src/Tracing/Examples.antt =====
-- A host whose module keeps the lines that are written to it, and a manager that starts and stops
-- the executor.
use standalone_linux_io_trac.Base.{
  ℕ, ◌≡◌, ◌≢◌, ◌↔◌, ◌*◌, ◌/◌, refl, Bool, true, false, List, [], ◌∷◌, ◌++◌, none, some, arith,
}
use standalone_linux_io_trac.Kernel.{ok, ◌>>=◌}
use standalone_linux_io_trac.Strings.{codes}
use standalone_linux_io_trac.Bdev.Examples.{tracing}
use standalone_linux_io_trac.IoTrace.Buffers.{set_buffer_size}
use standalone_linux_io_trac.Executor.{
  File, Procfs, Executor, Ended, returns, throws, incompatible, invalid_duration, write_procfs,
  start_loop, start_trace, stop_loop, stop_devices, stop_trace, signalled, new_executor,
  probe_module, poll_until,
}
use standalone_linux_io_trac.Tracing.{
  Request, Jobs, Manager, Host, failed_by, Reply, attempt, start_tracing, refused_parameter,
  check_integer_parameters,
}
use standalone_linux_io_trac.Tracing.Limits.{
  InLimits, refused_parameter-none, accepted-set_buffer_size,
}
use standalone_linux_io_trac.Context.{Context}
use standalone_linux_io_trac.Trace.Events.{Event}
use standalone_linux_io_trac.Tracing.Answer.{ComesBack, Success, start_tracing-Answers}

-- A file that keeps what is written to it.
abbrev kept : File (List ℕ)
kept = record { opens = λ s. true; write = λ text s. some (s ++ text, true) }

abbrev keeping : Procfs (List ℕ)
keeping = record {
  add_device = kept;
  remove_device = kept;
  size = kept;
  version = λ s. some (1, 0, 7);
}

start_loop_returns :
    (paths : List (List ℕ)) (x : Executor) (s : List ℕ)
    → (x' : Executor) × (s' : List ℕ) × (start_loop keeping paths x s ≡ some (x', s', returns true))
unfolding start_loop write_procfs
start_loop_returns [] x s = (x, s, refl)
start_loop_returns (path ∷ paths) x s =
    start_loop_returns paths (record x { started_devices = x.started_devices ++ path ∷ [] })
      (s ++ (path ++ b'\n' ∷ []))

stop_loop_returns :
    (paths : List (List ℕ)) (s : List ℕ) → (s' : List ℕ) × (stop_loop keeping paths s ≡ some s')
unfolding stop_loop write_procfs
stop_loop_returns [] s = (s, refl)
stop_loop_returns (path ∷ paths) s = stop_loop_returns paths (s ++ (path ++ b'\n' ∷ []))

abbrev ran : Executor × List ℕ × Ended Bool → Jobs (List ℕ) Bool × Ended (Unit {0})
ran (x, s, returns b) = (record { manager = b; executor = x; files = s }, returns tt)
ran (x, s, throws e) = (record { manager = false; executor = x; files = s }, throws e)

abbrev simple : Manager (List ℕ) Bool
simple = record {
  create = false;
  start_jobs = λ r j. start_trace keeping j.executor j.files >>= λ out. some (ran out);
  wait_until_stop_trace = λ j. some j;
  stop_jobs = λ j. stop_trace keeping j.executor j.files >>= λ out. some (ran out);
  is_complete = λ m. m;
  trace_path = λ m. codes "/var/lib/octf";
}

simple-ComesBack : ComesBack keeping simple
unfolding start_trace stop_trace stop_devices
simple-ComesBack = record {
  size = λ text s. ((s ++ text, true), refl);
  start = λ r j.
      let (x, s, run) = start_loop_returns j.executor.devices j.executor j.files in
      (ran (x, s, returns true), rw run refl);
  wait = λ j. (j, refl);
  stop = λ j.
      let (s, run) = stop_loop_returns j.executor.started_devices j.files in
      (
        ran (signalled keeping (record (j.executor) { started_devices = [] }), s, returns true),
        rw run refl,
      );
}

abbrev host : Host (List ℕ)
host = record {
  probing = record {
    remove_command = 0;
    probe_command = 0;
    loaded_after_remove = λ t. false;
    loaded_after_probe = λ t. true;
  };
  reloaded = λ s. [];
  unloaded = λ s. s;
  remove_command = 0;
}

abbrev show : ℕ → List ℕ
show n = codes "100"

abbrev request : Request
request = record {
  max_duration = 60;
  max_size = 1000;
  device_paths = codes "/dev/sda" ∷ [];
  circ_buffer_size = 100;
  label = [];
}

start_tracing-Answers_example :
    (s' : List ℕ) × (reply : Reply) × (start_tracing 7 1 show keeping simple host request []
      ≡ some (s', reply))
    × (reply.done ≡ 1)
    × ((reply.failed ≡ none) ↔ Success 7 1 show keeping simple host request [])
    × (¬ (InLimits request) → (s' ≡ []) × (reply.failed ≢ none))
start_tracing-Answers_example =
    start_tracing-Answers 7 1 show keeping simple host simple-ComesBack request []

-- The whole run, with what the module was told.
start_tracing_test :
    start_tracing 7 1 show keeping simple host request []
    ≡ some (codes "100\n/dev/sda\n/dev/sda\n", record { failed = none; done = 1; complaints = 0 })
unfolding start_tracing attempt refused_parameter check_integer_parameters probe_module poll_until
    new_executor write_procfs start_trace start_loop stop_trace stop_devices stop_loop
start_tracing_test = refl

-- A client of another version, and a duration of 0.
incompatible_test :
    start_tracing 8 1 show keeping simple host request []
    ≡ some ([], record { failed = some (failed_by incompatible); done = 1; complaints = 0 })
unfolding start_tracing attempt refused_parameter check_integer_parameters probe_module poll_until
    new_executor
incompatible_test = refl

no_duration_test :
    start_tracing 7 1 show keeping simple host (record request { max_duration = 0 }) []
    ≡ some ([], record { failed = some (failed_by invalid_duration); done = 1; complaints = 0 })
unfolding start_tracing attempt refused_parameter check_integer_parameters
no_duration_test = refl

accepted-set_buffer_size_example :
    set_buffer_size 3 tracing 100 ≡ (record tracing { size = 100 * 1024 * 1024 / 3 }, ok tt)
accepted-set_buffer_size_example =
    accepted-set_buffer_size request 3 tracing ((refused_parameter-none request).1 (omega arith))
      (omega arith) (omega arith)

abbrev no_file : File (Context (List Event))
no_file = record { opens = λ s. false; write = λ text s. some (s, false) }

abbrev loaded : Procfs (Context (List Event))
loaded = record {
  add_device = no_file;
  remove_device = no_file;
  size = no_file;
  version = λ s. some (1, 0, 7);
}

abbrev plenty : ℕ → ℕ → Bool
plenty bytes cpu = true
