-- ===== src/Ring.antt =====
-- source/kernel/procfs.c: the files `trace_ring.<cpu>` and `consumer_hdr.<cpu>` of every CPU, by
-- which a client maps its ring: opening and releasing them, waiting, mapping, and the end of a
-- file's memory with its last reference.
pub mod Held
pub mod Opens
pub mod Deinit
pub mod Examples
use standalone_linux_io_trac.Base.{
  ℕ, ◌+◌, ◌-◌, ◌%◌, ◌^◌, Bool, true, false, List, [], ◌∷◌, Option, none, some, ◌==◌, ◌&&◌, ◌||◌,
  not, if◌then◌else◌,
}
use standalone_linux_io_trac.Kernel.{
  Result, ok, err, einval, eacces, eperm, enotsupp, ◌>>=◌, set_cpu,
}
use standalone_linux_io_trac.Context.{Context, CpuContext}
use standalone_linux_io_trac.Client.{Client, Platform, attach_client, detach_client}

-- The clients' state with what the ring files add: `struct iotrace_proc_file`'s reference count,
-- its consumer header (whether it is allocated) and `inited`, for every CPU, and how often the
-- module itself is referenced.
pub record Files (T : Type 0) : Type 0 where
  pub client : Client T
  pub refs : ℕ → ℕ
  pub consumer_hdr : ℕ → Bool
  pub inited : ℕ → Bool
  pub module_refs : ℕ

module _ {T : Type 0} where
  abbrev with_cpu : Files T → ℕ → CpuContext → Files T
  with_cpu s cpu c = record s {
    client = record (s.client) {
      ctx = record (s.client.ctx) { cpu_context = set_cpu s.client.ctx.cpu_context cpu c };
    };
  }

  abbrev pub cpu_of : Files T → ℕ → CpuContext
  cpu_of s cpu = s.client.ctx.cpu_context cpu

  -- `_iotrace_free`.
  unfoldable pub iotrace_free : ℕ → Files T → Files T
  iotrace_free cpu s =
      let c = cpu_of s cpu in
      with_cpu (record s { consumer_hdr = set_cpu s.consumer_hdr cpu false }) cpu
        (record c { proc_files = record (c.proc_files) { trace_ring = none } })

  -- `kref_get` and `kref_put(…, _iotrace_free)`.
  abbrev pub kref_get : ℕ → Files T → Files T
  kref_get cpu s = record s { refs = set_cpu s.refs cpu (s.refs cpu + 1) }

  unfoldable pub kref_put : ℕ → Files T → Files T
  kref_put cpu s =
      let refs = (s.refs cpu + (2 ^ 32 - 1)) % 2 ^ 32 in
      let s' = record s { refs = set_cpu s.refs cpu refs } in
      if refs == 0 then iotrace_free cpu s' else s'

  -- The end of `_iotrace_open`, behind `iotrace_attach_client`.
  abbrev pub opened_file : ℕ → Files T → Client T × Result (Unit {0}) → Files T × Result (Unit {0})
  opened_file cpu s (client, err e) =
      (record s { client = client; module_refs = s.module_refs - 1 }, err e)
  opened_file cpu s (client, ok u) = (kref_get cpu (record s { client = client }), ok tt)

module _ {T : Type 0} (k : Platform T) (try_module_get : Bool) (cpus : List ℕ) where
  -- `_iotrace_open` of a file of the CPU `cpu`, with `f_mode & FMODE_WRITE` as `for_writing`.
  unfoldable pub iotrace_open : ℕ → Bool → Bool → Files T → Option (Files T × Result (Unit {0}))
  iotrace_open cpu for_writing writeable s =
      if for_writing && not writeable
      then some (s, err eacces)
      else if not try_module_get
      then some (s, err einval)
      else attach_client k cpus s.client >>= λ r.
          some (opened_file cpu (record s { module_refs = s.module_refs + 1 }) r)

  -- `_iotrace_open_ring` and `_iotrace_open_consumer_hdr`.
  abbrev pub open_ring : ℕ → Bool → Files T → Option (Files T × Result (Unit {0}))
  open_ring cpu for_writing = iotrace_open cpu for_writing false

  abbrev pub open_consumer_hdr : ℕ → Bool → Files T → Option (Files T × Result (Unit {0}))
  open_consumer_hdr cpu for_writing = iotrace_open cpu for_writing true

module _ {T : Type 0} (cpus : List ℕ) where
  abbrev pub put_module : Files T → Files T
  put_module s = record s { module_refs = s.module_refs - 1 }

  -- `_iotrace_release` of a file of the CPU `cpu`, called on the CPU `on`; it always returns 0.
  unfoldable pub release : ℕ → ℕ → Files T → Option (Files T)
  release cpu on s = detach_client cpus on s.client >>= λ client.
      some (put_module (kref_put cpu (record s { client = client })))

-- The commands of `_iotrace_ioctl`.
pub data Command : Type 0 where
  wait_for_traces interrupt_wait_for_traces other_command : Command

module _ {T : Type 0} where
  abbrev set_waiting : ℕ → Files T → ℕ → Files T
  set_waiting cpu s w = with_cpu s cpu (record (cpu_of s cpu) { waiting_for_trace = w })

  -- What `_iotrace_ioctl` waits for, with the answer of `octf_trace_is_almost_full`.
  abbrev pub wait_ends : ℕ → ℕ → Files T → Bool
  wait_ends almost_full cpu s = almost_full == 1 || (cpu_of s cpu).waiting_for_trace == 0

  -- `_iotrace_ioctl`: `wait` is what happens to the state until `wait_event_interruptible`
  -- returns, with its result.
  unfoldable pub ioctl :
      (Files T → Files T × Result (Unit {0})) → ℕ → Command → Files T → Files T × Result (Unit {0})
  ioctl wait cpu wait_for_traces s =
      let (s', r) = wait (set_waiting cpu s 1) in (set_waiting cpu s' 0, r)
  ioctl wait cpu interrupt_wait_for_traces s =
      let c = cpu_of s cpu in
      (with_cpu s cpu (record c { waiting_for_trace = 0; wake_ups = c.wake_ups + 1 }), ok tt)
  ioctl wait cpu other_command s = (s, err einval)

-- `_iotrace_read`, `_iotrace_write` and `_iotrace_llseek`.
abbrev pub unsupported : {A : Type 0} → Result A
unsupported = err enotsupp

-- `_iotrace_mmap_trace_ring`, with `VM_WRITE` of the mapping and `FMODE_WRITE` of the file, and
-- `_iotrace_mmap_consumer_hdr`.
abbrev pub mmap_trace_ring : Bool → Bool → Result (Unit {0})
mmap_trace_ring vm_write for_writing =
    if vm_write then err eperm else if for_writing then err eperm else ok tt

abbrev pub mmap_consumer_hdr : Bool → Bool → Result (Unit {0})
mmap_consumer_hdr vm_write for_writing = ok tt

module _ {T : Type 0} where
  -- `iotrace_procfs_trace_file_deinit`.
  unfoldable pub trace_file_deinit : ℕ → Files T → Files T
  trace_file_deinit cpu s =
      if not (s.inited cpu)
      then s
      else (let s' = kref_put cpu s in record s' { inited = set_cpu s'.inited cpu false })

  -- The loop of `iotrace_procfs_deinit` over the online CPUs.
  unfoldable pub deinit_files : List ℕ → Files T → Files T
  deinit_files [] s = s
  deinit_files (cpu ∷ cpus) s = deinit_files cpus (trace_file_deinit cpu s)
