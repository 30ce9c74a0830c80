-- ===== src/Client.antt =====
-- source/kernel/io_trace.c: attaching and detaching the clients that read the trace, with the
-- tracers of every CPU and the probes on the kernel's trace points. The trace points are those of
-- config.h for kernels from 4.14 on.
pub mod Tracers
pub mod Sessions
pub mod Detach
pub mod Examples
use standalone_linux_io_trac.Base.{
  ℕ, ◌+◌, ◌-◌, ◌%◌, ◌^◌, Bool, true, false, List, [], ◌∷◌, Option, none, some, ◌==◌, ◌&&◌, elem,
  if◌then◌else◌,
}
use standalone_linux_io_trac.Kernel.{Result, ok, err, einval, enomem, is_ok, ◌>>=◌, set_cpu}
use standalone_linux_io_trac.Context.{Context, CpuContext, ProcFile}
use standalone_linux_io_trac.Bdev.{mutex_lock, mutex_unlock, remove_all_locked}
use standalone_linux_io_trac.InodeTracer.{InodeTracer, create_inode_tracer}

-- The probes of the module that stand on trace points.
pub record Probes : Type 0 where
  pub bio_queue : Bool
  pub bio_complete : Bool
  pub rq_complete : Bool
  pub split : Bool

-- What the kernel and the octf submodule answer: the registrations of the four probes, the two
-- allocations of per-CPU memory, `octf_trace_open` on a ring file, and the memory for the inode
-- tracer of a CPU.
pub record Platform (T : Type 0) : Type 0 where
  pub register_bio_queue : Result (Unit {0})
  pub register_bio_complete : Result (Unit {0})
  pub register_rq_complete : Result (Unit {0})
  pub register_split : Result (Unit {0})
  pub alloc_traces : Bool
  pub alloc_inode_traces : Bool
  pub trace_open : ProcFile → Result T
  pub vzalloc_node : ℕ → Bool

-- The context with the parts of `trace_state` that only this code handles: on which CPUs the
-- producer is open, the inode tracers, and how many per-CPU areas for producers and for inode
-- tracers are allocated.
pub record Client (T : Type 0) : Type 0 where
  pub ctx : Context T
  pub probes : Probes
  pub opened : ℕ → Bool
  pub inode_traces : ℕ → Option InodeTracer
  pub traces_areas : ℕ
  pub inode_areas : ℕ

-- `iotrace_register_trace_block_bio_complete`: two probes, the first is taken back if the second
-- fails.
unfoldable pub register_complete :
    Result (Unit {0}) → Result (Unit {0}) → Probes → Probes × Result (Unit {0})
register_complete (err e) rq p = (p, err e)
register_complete (ok u) (err e) p = (record p { bio_complete = false }, err e)
register_complete (ok u) (ok v) p = (record p { bio_complete = true; rq_complete = true }, ok tt)

abbrev pub unregister_complete : Probes → Probes
unregister_complete p = record p { bio_complete = false; rq_complete = false }

abbrev pub has_file_ring : ProcFile → Bool
has_file_ring pf = elim pf.trace_ring [ none ↦ false | some bytes ↦ true ]

module _ {T : Type 0} (k : Platform T) where
  abbrev registered_split : Result (Unit {0}) → Probes → Probes × Result (Unit {0})
  registered_split (ok u) p = (record p { split = true }, ok tt)
  registered_split (err e) p = (record (unregister_complete p) { bio_queue = false }, err e)

  abbrev registered_complete : Probes × Result (Unit {0}) → Probes × Result (Unit {0})
  registered_complete (p, ok u) = registered_split k.register_split p
  registered_complete (p, err e) = (record p { bio_queue = false }, err e)

  abbrev registered_queue : Result (Unit {0}) → Probes → Probes × Result (Unit {0})
  registered_queue (ok u) p = registered_complete (
      register_complete k.register_bio_complete k.register_rq_complete
        (record p { bio_queue = true }))
  registered_queue (err e) p = (p, err e)

  -- `_register_trace_points`.
  unfoldable pub register_trace_points : Probes → Probes × Result (Unit {0})
  register_trace_points p = registered_queue k.register_bio_queue p

  abbrev pub put_tracer : Client T → ℕ → Result T → Client T × Result (Unit {0})
  put_tracer s cpu (err e) = (s, err e)
  put_tracer s cpu (ok t) =
      let ctx' = record (s.ctx) {
        trace_state = record (s.ctx.trace_state) {
          traces = set_cpu s.ctx.trace_state.traces cpu t;
        };
      } in
      let s' = record s { ctx = ctx'; opened = set_cpu s.opened cpu true } in
      if k.vzalloc_node cpu
      then (
        record s' { inode_traces = set_cpu s.inode_traces cpu (some create_inode_tracer) },
        ok tt,
      )
      else (record s' { inode_traces = set_cpu s.inode_traces cpu none }, err enomem)

  -- One round of the loop of `init_tracers`.
  unfoldable pub open_cpu : Client T → ℕ → Client T × Result (Unit {0})
  open_cpu s cpu =
      let file = (s.ctx.cpu_context cpu).proc_files in
      if has_file_ring file then put_tracer s cpu (k.trace_open file) else (s, err einval)

  -- The loop, with the result so far.
  unfoldable pub open_cpus : List ℕ → Client T × Result (Unit {0}) → Client T × Result (Unit {0})
  open_cpus [] r = r
  open_cpus (cpu ∷ cpus) r =
      let next = open_cpu r.0 cpu in
      let rest = open_cpus cpus next in if is_ok next.1 then rest else next

module _ {T : Type 0} where
  -- `octf_trace_close` and `iotrace_destroy_inode_tracer` on every CPU, and `free_percpu`.
  abbrev pub close_traces : List ℕ → Client T → Client T
  close_traces cpus s = record s {
    opened = λ c. if elem c cpus then false else s.opened c;
    traces_areas = s.traces_areas - 1;
  }

  abbrev pub destroy_inode_tracers : List ℕ → Client T → Client T
  destroy_inode_tracers cpus s = record s {
    inode_traces = λ c. if elem c cpus then none else s.inode_traces c;
  }

  -- `deinit_tracers`, which frees the area of the producers only.
  unfoldable pub deinit_tracers : List ℕ → Client T → Client T
  deinit_tracers cpus s = destroy_inode_tracers cpus (close_traces cpus s)

module _ {T : Type 0} (k : Platform T) where
  -- The two zeroed per-CPU areas.
  abbrev pub alloc_areas : Client T → Client T
  alloc_areas s = record s {
    opened = λ c. false;
    inode_traces = λ c. none;
    traces_areas = if k.alloc_traces then s.traces_areas + 1 else s.traces_areas;
    inode_areas = if k.alloc_inode_traces then s.inode_areas + 1 else s.inode_areas;
  }

  -- The part behind the label `ERROR`.
  abbrev pub drop_tracers : List ℕ → Client T → Client T
  drop_tracers cpus s =
      let s' = if k.alloc_traces then close_traces cpus s else s in
      if k.alloc_inode_traces
      then record (destroy_inode_tracers cpus s') { inode_areas = s'.inode_areas - 1 }
      else s'

  abbrev pub dropped_on_error : List ℕ → Client T × Result (Unit {0}) → Client T × Result (Unit {0})
  dropped_on_error cpus r = if is_ok r.1 then r else (drop_tracers cpus r.0, r.1)

  -- The allocations and the loop; without an online CPU the result would stay `-EINVAL`.
  unfoldable pub open_all : List ℕ → Client T → Client T × Result (Unit {0})
  open_all cpus s =
      if k.alloc_traces && k.alloc_inode_traces
      then open_cpus k cpus (alloc_areas s, err einval)
      else (alloc_areas s, err enomem)

  -- `init_tracers`.
  unfoldable pub init_tracers : List ℕ → Client T → Client T × Result (Unit {0})
  init_tracers cpus s = dropped_on_error cpus (open_all cpus s)

  abbrev pub unlock_client : Client T → Client T
  unlock_client s = record s { ctx = mutex_unlock s.ctx }

  -- `++state->clients`, of an `unsigned`.
  abbrev pub count_client : Client T → Client T
  count_client s = record s {
    ctx = record (s.ctx) {
      trace_state = record (s.ctx.trace_state) {
        clients = (s.ctx.trace_state.clients + 1) % 2 ^ 32;
      };
    };
  }

  abbrev pub probed : List ℕ → Client T → Probes × Result (Unit {0}) → Client T × Result (Unit {0})
  probed cpus s (p, ok u) = (unlock_client (count_client (record s { probes = p })), ok tt)
  probed cpus s (p, err e) = (unlock_client (deinit_tracers cpus (record s { probes = p })), err e)

  abbrev pub traced : List ℕ → Client T × Result (Unit {0}) → Client T × Result (Unit {0})
  traced cpus (s, err e) = (unlock_client s, err e)
  traced cpus (s, ok u) = probed cpus s (register_trace_points k s.probes)

  -- `iotrace_attach_client`.
  unfoldable pub attach_client : List ℕ → Client T → Option (Client T × Result (Unit {0}))
  attach_client cpus s0 = do
    held ← mutex_lock s0.ctx
    let s = record s0 { ctx = held }
    if held.trace_state.clients == 0
        then some (traced cpus (init_tracers cpus s))
        else some (unlock_client (count_client s), ok tt)

-- `_unregister_trace_points`.
unfoldable pub unregister_trace_points : Probes → Probes
unregister_trace_points p = record (unregister_complete (record p { bio_queue = false })) {
  split = false;
}

module _ {T : Type 0} where
  -- `iotrace_detach_client` on the CPU `cpu`; `unsigned` clients wrap round below 0.
  unfoldable pub detach_client : List ℕ → ℕ → Client T → Option (Client T)
  detach_client cpus cpu s0 = do
    held ← mutex_lock s0.ctx
    let clients = (held.trace_state.clients + (2 ^ 32 - 1)) % 2 ^ 32
    let ctx = record held { trace_state = record (held.trace_state) { clients = clients } }
    if clients == 0
        then (do
          ctx' ← remove_all_locked cpus cpu ctx
          let s =
              deinit_tracers cpus
                (record s0 { ctx = ctx'; probes = unregister_trace_points s0.probes })
          some (record s { ctx = mutex_unlock s.ctx }))
        else some (record s0 { ctx = mutex_unlock ctx })
