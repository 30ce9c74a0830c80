-- ===== src/Start.antt =====
-- source/kernel/main.c, with the parts of procfs.c, trace_bdev.c and io_trace.c that it calls:
-- what the module creates when it is loaded, what it takes back if that fails, and its end. The
-- sizes that the files show (`proc_set_size`) and the wait queues are left out.
pub mod RingFiles
pub mod FilesLoop
pub mod Undo
pub mod Init
pub mod Exit
pub mod Examples
use standalone_linux_io_trac.Base.{
  ℕ, ◌+◌, Bool, true, false, List, [], ◌∷◌, ◌++◌, Option, none, some, leb, ◌||◌, not, if◌then◌else◌,
  length, drop_last, replicate,
}
use standalone_linux_io_trac.Kernel.{
  Result, ok, err, einval, enomem, enoent, enospc, is_ok, set_cpu,
}
use standalone_linux_io_trac.Strings.{codes}
use standalone_linux_io_trac.Context.{Context, CpuContext, ProcFile, IotraceBdev}
use standalone_linux_io_trac.Client.{Client}
use standalone_linux_io_trac.Bdev.Model.{max_devices}
use standalone_linux_io_trac.Ring.{Files, deinit_files}

-- The files below /proc/iotrace.
pub data Entry : Type 0 where
  devices add_device remove_device version size : Entry
  trace_ring consumer_hdr : ℕ → Entry

-- What the kernel answers while the module is loaded: the two areas of per-CPU memory, the
-- directory, its files, and the memory for the header of a CPU. `show` is `%u` of `snprintf`.
pub record Boot : Type 0 where
  pub alloc_list : Bool
  pub alloc_cpu_context : Bool
  pub proc_mkdir : Bool
  pub proc_create : Entry → Bool
  pub vmalloc_user : ℕ → Bool
  pub show : ℕ → List ℕ

-- The module's state, with which per-CPU areas are allocated and the directory with its files.
pub record Module (T : Type 0) : Type 0 where
  pub files : Files T
  pub list_area : Bool
  pub cpu_area : Bool
  pub proc_dir : Option (List Entry)

module _ {T : Type 0} where
  abbrev pub with_ctx : Module T → Context T → Module T
  with_ctx m ctx = record m {
    files = record (m.files) { client = record (m.files.client) { ctx = ctx } };
  }

  -- `iotrace_trace_init`, which always returns 0.
  abbrev pub trace_init : Module T → Module T
  trace_init m = with_ctx m (record (m.files.client.ctx) { locked = false })

  -- `iotrace_bdev_init`, with zeroed memory, and `iotrace_bdev_deinit`.
  unfoldable pub bdev_init : Boot → Module T → Module T × Result (Unit {0})
  bdev_init b m =
      let ctx = m.files.client.ctx in
      let zeroed = record ctx {
        bdev = record (ctx.bdev) { list = λ c. replicate max_devices none };
      } in
      if b.alloc_list
      then (record (with_ctx m zeroed) { list_area = true }, ok tt)
      else (m, err enomem)

  abbrev pub bdev_deinit : Module T → Module T
  bdev_deinit m = record m { list_area = false }

  abbrev pub add_entry : Module T → Entry → Module T
  add_entry m e = record m {
    proc_dir = elim m.proc_dir [ none ↦ none | some es ↦ some (es ++ e ∷ []) ];
  }

  -- `proc_remove` of the entry that was created last.
  abbrev pub remove_last : Module T → Module T
  remove_last m = record m {
    proc_dir = elim m.proc_dir [ none ↦ none | some es ↦ some (drop_last es) ];
  }

  abbrev pub set_hdr : Module T → ℕ → Bool → Module T
  set_hdr m cpu v = record m {
    files = record (m.files) { consumer_hdr = set_cpu m.files.consumer_hdr cpu v };
  }

  -- `kref_init`.
  abbrev pub kref_init : Module T → ℕ → Module T
  kref_init m cpu = record m { files = record (m.files) { refs = set_cpu m.files.refs cpu 1 } }

  abbrev pub set_inited : Module T → ℕ → Module T
  set_inited m cpu = record m {
    files = record (m.files) { inited = set_cpu m.files.inited cpu true };
  }

-- The paths of a CPU's two files.
abbrev pub ring_path : Boot → ℕ → List ℕ
ring_path b cpu = codes "iotrace/trace_ring." ++ b.show cpu

abbrev pub hdr_path : Boot → ℕ → List ℕ
hdr_path b cpu = codes "iotrace/consumer_hdr." ++ b.show cpu

module _ {T : Type 0} (b : Boot) where
  -- `iotrace_procfs_trace_file_init`.
  unfoldable pub trace_file_init : Module T → ℕ → Module T × Result (Unit {0})
  trace_file_init m0 cpu =
      if leb 128 (length (ring_path b cpu)) || leb 128 (length (hdr_path b cpu))
      then (m0, err enospc)
      else (let m = kref_init m0 cpu in
          if not (b.vmalloc_user cpu)
          then (m, err enomem)
          else if not (b.proc_create (trace_ring cpu))
          then (set_hdr (set_hdr m cpu true) cpu false, err enoent)
          else (let m' = add_entry (set_hdr m cpu true) (trace_ring cpu) in
              if not (b.proc_create (consumer_hdr cpu))
              then (remove_last (set_hdr m' cpu false), err enoent)
              else (set_inited (add_entry m' (consumer_hdr cpu)) cpu, ok tt)))

  -- The loop of `iotrace_procfs_init`; it stops at the first CPU that fails.
  unfoldable pub init_files : List ℕ → Module T → Module T × Result (Unit {0})
  init_files [] m = (m, ok tt)
  init_files (cpu ∷ cpus) m =
      let next = trace_file_init m cpu in
      let rest = init_files cpus next.0 in if is_ok next.1 then rest else next

  -- `iotrace_procfs_mngt_init`: the loop over `entries`.
  unfoldable pub mngt_init : List Entry → Module T → Module T × Result (Unit {0})
  mngt_init [] m = (m, ok tt)
  mngt_init (e ∷ entries) m =
      let rest = mngt_init entries (add_entry m e) in
      if b.proc_create e then rest else (m, err einval)

abbrev pub mngt_entries : List Entry
mngt_entries = devices ∷ add_device ∷ remove_device ∷ version ∷ size ∷ []

abbrev pub zero_cpu : CpuContext
zero_cpu = record {
  proc_files = record { cpu = 0; trace_ring = none; trace_ring_size = 0 };
  waiting_for_trace = 0;
  wake_ups = 0;
}

module _ {T : Type 0} where
  -- The zeroed memory of `alloc_percpu`.
  abbrev pub alloc_cpus : Module T → Module T
  alloc_cpus m =
      let m' = with_ctx m (record (m.files.client.ctx) { cpu_context = λ c. zero_cpu }) in
      record m' {
        files = record (m'.files) { refs = λ c. 0; consumer_hdr = λ c. false; inited = λ c. false };
        cpu_area = true;
      }

  -- The part behind the label `procfs_deinit`, and `iotrace_procfs_deinit`.
  unfoldable pub procfs_deinit : List ℕ → Module T → Module T
  procfs_deinit cpus m = record m {
    files = deinit_files cpus m.files;
    cpu_area = false;
    proc_dir = none;
  }

module _ {T : Type 0} (b : Boot) (cpus : List ℕ) where
  abbrev pub with_mngt : Module T × Result (Unit {0}) → Module T × Result (Unit {0})
  with_mngt (m, err e) = (m, err e)
  with_mngt (m, ok u) = mngt_init b mngt_entries m

  abbrev pub undone_on_error : Module T × Result (Unit {0}) → Module T × Result (Unit {0})
  undone_on_error (m, err e) = (procfs_deinit cpus m, err e)
  undone_on_error (m, ok u) = (m, ok tt)

  -- `iotrace_procfs_init`.
  unfoldable pub procfs_init : Module T → Module T × Result (Unit {0})
  procfs_init m =
      if not b.proc_mkdir
      then (m, err enoent)
      else if not b.alloc_cpu_context
      then (record m { cpu_area = false; proc_dir = none }, err enomem)
      else undone_on_error
          (with_mngt (init_files b cpus (alloc_cpus (record m { proc_dir = some [] }))))

  abbrev pub ended_on_error : Module T × Result (Unit {0}) → Module T × Result (Unit {0})
  ended_on_error (m, err e) = (bdev_deinit m, err e)
  ended_on_error (m, ok u) = (m, ok tt)

  abbrev pub with_procfs : Module T × Result (Unit {0}) → Module T × Result (Unit {0})
  with_procfs (m, err e) = (m, err e)
  with_procfs (m, ok u) = ended_on_error (procfs_init m)

  -- `iotrace_init_module`.
  unfoldable pub init_module : Module T → Module T × Result (Unit {0})
  init_module m = with_procfs (bdev_init b (trace_init m))

module _ {T : Type 0} (cpus : List ℕ) where
  -- `iotrace_exit_module`; `iotrace_trace_deinit` does nothing.
  unfoldable pub exit_module : Module T → Module T
  exit_module m = bdev_deinit (procfs_deinit cpus m)
