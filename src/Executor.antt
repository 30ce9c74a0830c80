-- ===== src/Executor.antt =====
-- source/userspace/KernelTraceExecutor.cpp and InterfaceKernelTraceCreatingImpl.cpp: the client
-- that loads the module, checks it, and starts and stops the tracing of devices through the files
-- below /proc/iotrace, over the state `S` behind these files. `none` is a call that does not
-- come back.
pub mod Kernel
pub mod Paths
pub mod StartTrace
pub mod Polling
pub mod Examples
use standalone_linux_io_trac.Base.{
  ℕ, zero, suc, ◌+◌, ◌-◌, Bool, true, false, List, [], ◌∷◌, ◌++◌, Option, none, some, ◌==◌, ltb,
  ◌||◌, not, if◌then◌else◌,
}
use standalone_linux_io_trac.Kernel.{◌>>=◌}

-- A file of the module, as a C++ stream meets it: whether it opens, and what a flush of the
-- bytes does, with whether the stream is good afterwards.
pub record File (S : Type 0) : Type 0 where
  pub opens : S → Bool
  pub write : List ℕ → S → Option (S × Bool)

-- The files that the executor uses; `version` is what the three numbers of the file read as, if
-- it opens.
pub record Procfs (S : Type 0) : Type 0 where
  pub add_device : File S
  pub remove_device : File S
  pub size : File S
  pub version : S → Option (ℕ × ℕ × ℕ)

-- The exceptions, by their texts.
pub data Exception : Type 0 where
  not_loaded version_not_opened incompatible no_ring_size : Exception
  cannot_start : List ℕ → Exception
  cannot_reload cannot_close cannot_load cannot_use : Exception
  invalid_name invalid_duration invalid_size invalid_buffer_size : Exception
  thrown_by_octf : List ℕ → Exception

-- A call that returns, or throws.
pub data Ended (A : Type 0) : Type 0 where
  returns : A → Ended A
  throws : Exception → Ended A

-- `KernelTraceExecutor`, with how often it has sent `SIGTERM`.
pub record Executor : Type 0 where
  pub devices : List (List ℕ)
  pub started_devices : List (List ℕ)
  pub signals : ℕ

module _ {S : Type 0} where
  -- `writeSatraceProcfs`.
  unfoldable pub write_procfs : File S → List ℕ → S → Option (S × Bool)
  write_procfs file text s =
      if not (file.opens s) then some (s, false) else file.write (text ++ b'\n' ∷ []) s

-- `checkModuleCompatibility`, of the numbers that were read, against the client's own.
abbrev pub compatible : ℕ → ℕ → ℕ × ℕ × ℕ → Bool
compatible own_magic own_major (major, minor, magic) =
    if not (magic == own_magic) || not (major == own_major) then false else true

module _ {S : Type 0} (k : Procfs S) where
  abbrev pub sized : List (List ℕ) → S × Bool → S × Ended Executor
  sized devices (s, true) =
      (s, returns (record { devices = devices; started_devices = []; signals = 0 }))
  sized devices (s, false) = (s, throws no_ring_size)

  -- The constructor, with the ring's size as text. A file that opens for
  -- `isKernelModuleLoaded` is taken to open for `checkModuleCompatibility` too.
  unfoldable pub new_executor : ℕ → ℕ → List (List ℕ) → List ℕ → S → Option (S × Ended Executor)
  new_executor own_magic own_major devices ring_size s = elim (k.version s) [
    | none ↦ some (s, throws not_loaded)
    | some v ↦
        if not (compatible own_magic own_major v)
        then some (s, throws incompatible)
        else write_procfs k.size ring_size s >>= λ r. some (sized devices r)
  ]

  -- The loop of `stopDevices`: what a write answers is only logged.
  unfoldable pub stop_loop : List (List ℕ) → S → Option S
  stop_loop [] s = some s
  stop_loop (dev ∷ devs) s = write_procfs k.remove_device dev s >>= λ r. stop_loop devs r.0

  -- `stopDevices`.
  unfoldable pub stop_devices : Executor → S → Option (Executor × S)
  stop_devices x s =
      stop_loop x.started_devices s >>= λ s'. some (record x { started_devices = [] }, s')

  abbrev pub signalled : Executor → Executor
  signalled x = record x { signals = x.signals + 1 }

  -- A round of the loop of `startTrace`, with what the write answered; `rest` is the loop behind.
  abbrev pub start_next :
      List ℕ
      → (Executor → S → Option (Executor × S × Ended Bool))
      → Executor
      → S × Bool
      → Option (Executor × S × Ended Bool)
  start_next dev rest x (s, true) =
      rest (record x { started_devices = x.started_devices ++ dev ∷ [] }) s
  start_next dev rest x (s, false) =
      stop_devices x s >>= λ r. some (signalled r.0, r.1, throws (cannot_start dev))

  -- The loop of `startTrace`, over the devices that are left.
  unfoldable pub start_loop : List (List ℕ) → Executor → S → Option (Executor × S × Ended Bool)
  start_loop [] x s = some (x, s, returns true)
  start_loop (dev ∷ devs) x s =
      write_procfs k.add_device dev s >>= start_next dev (start_loop devs) x

  -- `startTrace`.
  unfoldable pub start_trace : Executor → S → Option (Executor × S × Ended Bool)
  start_trace x s = start_loop x.devices x s

  -- `stopTrace`.
  unfoldable pub stop_trace : Executor → S → Option (Executor × S × Ended Bool)
  stop_trace x s = stop_devices x s >>= λ r. some (signalled r.0, r.1, returns true)

-- A loop of `probeModule` that waits until `ready` is seen; `polls t` is what the poll after `t`
-- sleeps of 100 ms answers, `timeout` what is left in milliseconds. It runs on fuel.
unfoldable pub poll_until : ℕ → (ℕ → Bool) → Exception → ℕ → ℕ → Option (Ended ℕ)
poll_until zero ready e t timeout = none
poll_until (suc fuel) ready e t timeout =
    let rest = poll_until fuel ready e (t + 1) (timeout - 100) in
    if ready t then some (returns t) else if ltb 0 timeout then rest else some (throws e)

-- What `probeModule` meets: the results of the two commands (0 is success), and what the polls of
-- `isKernelModuleLoaded` answer after each.
pub record Probing : Type 0 where
  pub remove_command : ℕ
  pub probe_command : ℕ
  pub loaded_after_remove : ℕ → Bool
  pub loaded_after_probe : ℕ → Bool

module _ (p : Probing) where
  abbrev probed : Ended ℕ → Option (Ended (Unit {0}))
  probed (throws e) = some (throws e)
  probed (returns t) = some (returns tt)

  abbrev removed : Ended ℕ → Option (Ended (Unit {0}))
  removed (throws e) = some (throws e)
  removed (returns t) =
      if not (p.probe_command == 0)
      then some (throws cannot_load)
      else poll_until 11 p.loaded_after_probe cannot_use 0 1000 >>= probed

  -- `probeModule`.
  unfoldable pub probe_module : Option (Ended (Unit {0}))
  probe_module =
      if not (p.remove_command == 0)
      then some (throws cannot_reload)
      else poll_until 11 (λ t. not (p.loaded_after_remove t)) cannot_close 0 1000 >>= removed
