-- ===== src/Tracing.antt =====
-- source/userspace/InterfaceKernelTraceCreatingImpl.cpp and its proto: the call that traces from
-- its request to its reply. The manager of the jobs is the octf submodule's, `Jobs` and `Manager`;
-- `S` is the state behind the module's files, `none` a call that does not come back.
pub mod Limits
pub mod Answer
pub mod RingSize
pub mod Printed
pub mod Examples
use standalone_linux_io_trac.Base.{
  ℕ, ◌+◌, ◌-◌, ◌&&◌, Bool, true, false, List, [], ◌∷◌, map, Option, none, some, ◌==◌, leb, not,
  if◌then◌else◌,
}
use standalone_linux_io_trac.Kernel.{◌>>=◌}
use standalone_linux_io_trac.Strings.{codes}
use standalone_linux_io_trac.Executor.{
  Procfs, Exception, invalid_name, invalid_duration, invalid_size, invalid_buffer_size, Ended,
  returns, throws, Executor, Probing, new_executor, probe_module,
}

-- A field of a message, with the least and the greatest value that its options allow.
pub record FieldDescriptor : Type 0 where
  pub name : List ℕ
  pub least : ℕ
  pub greatest : ℕ

-- The fields of `StartIoTraceRequest` that hold a number.
abbrev pub request_fields : List FieldDescriptor
request_fields =
    record { name = codes "maxDuration"; least = 1; greatest = 4294967295 }
    ∷ record { name = codes "maxSize"; least = 1; greatest = 100000000 }
    ∷ record { name = codes "circBufferSize"; least = 1; greatest = 1024 }
    ∷ []

pub record Request : Type 0 where
  pub max_duration : ℕ
  pub max_size : ℕ
  pub device_paths : List (List ℕ)
  pub circ_buffer_size : ℕ
  pub label : List ℕ

-- `FindFieldByLowercaseName`.
abbrev to_lower : ℕ → ℕ
to_lower c = if leb b'A' c && leb c b'Z' then c + 32 else c

abbrev same_text : List ℕ → List ℕ → Bool
same_text [] [] = true
same_text [] (d ∷ ds) = false
same_text (c ∷ cs) [] = false
same_text (c ∷ cs) (d ∷ ds) = c == d && same_text cs ds

abbrev find_field : List ℕ → List FieldDescriptor → Option FieldDescriptor
find_field name [] = none
find_field name (f ∷ fields) =
    if same_text (map to_lower f.name) name then some f else find_field name fields

abbrev within : ℕ → Option FieldDescriptor → Ended Bool
within value none = throws invalid_name
within value (some f) = returns (leb f.least value && leb value f.greatest)

-- `checkIntegerParameters`.
unfoldable pub check_integer_parameters : ℕ → List ℕ → List FieldDescriptor → Ended Bool
check_integer_parameters value name fields = within value (find_field name fields)

-- One of the three tests of the parameters, with what it throws.
abbrev pub refused : Exception → Ended Bool → Option Exception
refused e (throws x) = some x
refused e (returns true) = none
refused e (returns false) = some e

abbrev or_else : Option Exception → Option Exception → Option Exception
or_else (some e) rest = some e
or_else none rest = rest

-- What the tests of the parameters throw, if anything.
unfoldable pub refused_parameter : Request → Option Exception
refused_parameter r =
    or_else
      (refused invalid_duration
        (check_integer_parameters r.max_duration (codes "maxduration") request_fields))
      (or_else
        (refused invalid_size
          (check_integer_parameters r.max_size (codes "maxsize") request_fields))
        (refused invalid_buffer_size
          (check_integer_parameters r.circ_buffer_size (codes "circbuffersize") request_fields)))

-- The manager `TraceManager` at work, with the executor that it is given and the files.
pub record Jobs (S M : Type 0) : Type 0 where
  pub manager : M
  pub executor : Executor
  pub files : S

-- What the octf submodule does: `startJobs`, the wait of `waitUntilStopTrace` for a signal,
-- `stopJobs`, and of the manager's last state whether it is `COMPLETE`, with the trace's path.
pub record Manager (S M : Type 0) : Type 0 where
  pub create : M
  pub start_jobs : Request → Jobs S M → Option (Jobs S M × Ended (Unit {0}))
  pub wait_until_stop_trace : Jobs S M → Option (Jobs S M)
  pub stop_jobs : Jobs S M → Option (Jobs S M × Ended (Unit {0}))
  pub is_complete : M → Bool
  pub trace_path : M → List ℕ

-- What the client meets on its host: the polls and commands of `probeModule`, with what they make
-- of the files, and the same of the command of `removeModule`, with its result.
pub record Host (S : Type 0) : Type 0 where
  pub probing : Probing
  pub reloaded : S → S
  pub unloaded : S → S
  pub remove_command : ℕ

-- `SetFailed`: the text of an exception, or that tracing did not complete, with the trace's path.
pub data Failure : Type 0 where
  failed_by : Exception → Failure
  not_completed : List ℕ → Failure

-- The controller at the end, how often the closure `done` has run, and the complaints in the log.
pub record Reply : Type 0 where
  pub failed : Option Failure
  pub done : ℕ
  pub complaints : ℕ

module _ {S M : Type 0} (g : Manager S M) where
  -- The end of the `try` block, behind `stopJobs`.
  abbrev pub stopped_jobs : Jobs S M × Ended (Unit {0}) → S × Option Failure
  stopped_jobs (j, throws e) = (j.files, some (failed_by e))
  stopped_jobs (j, returns u) = (
    j.files,
    if not (g.is_complete j.manager) then some (not_completed (g.trace_path j.manager)) else none,
  )

  -- Behind `startJobs`.
  abbrev pub started_jobs : Jobs S M × Ended (Unit {0}) → Option (S × Option Failure)
  started_jobs (j, throws e) = some (j.files, some (failed_by e))
  started_jobs (j, returns u) =
      g.wait_until_stop_trace j >>= λ j'. g.stop_jobs j' >>= λ out. some (stopped_jobs out)

  -- Behind the constructor of the executor.
  abbrev pub with_executor : Request → S × Ended Executor → Option (S × Option Failure)
  with_executor r (s, throws e) = some (s, some (failed_by e))
  with_executor r (s, returns x) =
      g.start_jobs r (record { manager = g.create; executor = x; files = s }) >>= started_jobs

module _ {S M : Type 0} (own_magic own_major : ℕ) (show : ℕ → List ℕ) (k : Procfs S)
    (g : Manager S M) (h : Host S) where
  -- Behind `probeModule`.
  abbrev pub with_module : Request → S → Ended (Unit {0}) → Option (S × Option Failure)
  with_module r s (throws e) = some (s, some (failed_by e))
  with_module r s (returns u) =
      new_executor k own_magic own_major r.device_paths (show r.circ_buffer_size) s
      >>= with_executor g r

  -- The `try` block with its handlers.
  unfoldable pub attempt : Request → S → Option (S × Option Failure)
  attempt r s = elim (refused_parameter r) [
    | some e ↦ some (s, some (failed_by e))
    | none ↦ probe_module h.probing >>= with_module r (h.reloaded s)
  ]

  -- `removeModule`, and `done->Run()`.
  abbrev pub replied : S × Option Failure → S × Reply
  replied (s, f) = (
    h.unloaded s,
    record { failed = f; done = 1; complaints = if not (h.remove_command == 0) then 1 else 0 },
  )

  -- `StartTracing`.
  unfoldable pub start_tracing : Request → S → Option (S × Reply)
  start_tracing r s = attempt r s >>= λ out. some (replied out)
