-- ===== src/Probe.antt =====
-- source/kernel/io_trace.c: the probes that the kernel calls for a bio, `bio_queue_event`,
-- `bio_complete_event` and `bio_split_event`, with preemption disabled on the CPU `cpu`.
pub mod Reports
pub mod Queueing
pub mod Request
pub mod Examples
use standalone_linux_io_trac.Base.{ℕ, List, Bool, Option, none, some}
use standalone_linux_io_trac.Kernel.{◌>>=◌, set_cpu}
use standalone_linux_io_trac.Context.{Context, BlockDevice}
use standalone_linux_io_trac.Trace.{Octf}
use standalone_linux_io_trac.IoTrace.Desc.{notify_of_new_events}
use standalone_linux_io_trac.Bdev.Arrays.{get_bdev_from_queue}
use standalone_linux_io_trac.InodeTracer.{InodeTracer}
use standalone_linux_io_trac.InodeTracer.Walk.{Dentries, Walk}
use standalone_linux_io_trac.Bio.{Bio}
use standalone_linux_io_trac.Bio.Trace.{Flags, trace_bio, trace_bio_completion}
use standalone_linux_io_trac.Client.{Client}

-- The client's state with what the walk over names handles beside it: on which CPUs the inode
-- tracer has a file system monitor, the marked inodes, and the references to dentries.
pub record Machine (T : Type 0) : Type 0 where
  pub client : Client T
  pub fsm : ℕ → Bool
  pub marks : List ℕ
  pub dentry_refs : ℕ → ℕ

module _ {T : Type 0} where
  -- What the CPU `cpu`, whose inode tracer is `tracer`, reads and writes.
  abbrev pub walk_of : Machine T → ℕ → InodeTracer → Walk T
  walk_of m cpu tracer = record {
    sid = m.client.ctx.trace_state.sid;
    trace = m.client.ctx.trace_state.traces cpu;
    tracer = tracer;
    fsm = m.fsm cpu;
    marks = m.marks;
    dentry_refs = m.dentry_refs;
  }

  -- The context behind a write of `cpu` to its ring.
  abbrev pub put_ring : Context T → ℕ → ℕ → T → Context T
  put_ring ctx cpu sid t = record ctx {
    trace_state = record (ctx.trace_state) {
      traces = set_cpu ctx.trace_state.traces cpu t;
      sid = sid;
    };
  }

  abbrev pub with_ctx : Machine T → Context T → Machine T
  with_ctx m ctx = record m { client = record (m.client) { ctx = ctx } }

  abbrev pub put_walk : Machine T → ℕ → Walk T → Machine T
  put_walk m cpu w = record m {
    client = record (m.client) {
      ctx = put_ring m.client.ctx cpu w.sid w.trace;
      inode_traces = set_cpu m.client.inode_traces cpu (some w.tracer);
    };
    marks = w.marks;
    dentry_refs = w.dentry_refs;
  }

module _ {T H : Type 0} (o : Octf T H) (c : Flags) (dev : ℕ → BlockDevice) where
  abbrev pub notified : Machine T → ℕ → Machine T
  notified m cpu = with_ctx m (notify_of_new_events o m.client.ctx cpu)

  module _ (hash : ℕ → ℕ) (k : Dentries) (fuel : ℕ) where
    abbrev pub queued : ℕ → Bio → Machine T → Option ℕ → Option (Machine T)
    queued cpu bio m none = some m
    queued cpu bio m (some d) = do
      tracer ← m.client.inode_traces cpu
      w ← trace_bio o c hash k fuel (walk_of m cpu tracer) (dev d).devt bio
      some (notified (put_walk m cpu w) cpu)

    -- `bio_queue_event`. An inode tracer is there wherever a probe can run (Client.Sessions);
    -- without one a file's bio would be a NULL dereference, and here every bio is.
    unfoldable pub bio_queue_event : ℕ → ℕ → Bio → Machine T → Option (Machine T)
    bio_queue_event cpu q bio m = queued cpu bio m (get_bdev_from_queue dev m.client.ctx.bdev cpu q)

    -- `bio_split_event`, at the sector `sector`.
    unfoldable pub bio_split_event : ℕ → ℕ → Bio → ℕ → Machine T → Option (Machine T)
    bio_split_event cpu q bio sector m = bio_queue_event cpu q bio m

  abbrev pub completed : ℕ → Bio → ℕ → Context T → Option ℕ → Context T
  completed cpu bio error ctx none = ctx
  completed cpu bio error ctx (some d) =
      let (sid, t) =
        trace_bio_completion o c ctx.trace_state.sid (ctx.trace_state.traces cpu) (dev d).devt bio
          error in
      notify_of_new_events o (put_ring ctx cpu sid t) cpu

  -- `bio_complete_event`.
  unfoldable pub bio_complete_event : ℕ → ℕ → Bio → ℕ → Machine T → Machine T
  bio_complete_event cpu q bio error m =
      with_ctx m
        (completed cpu bio error m.client.ctx (get_bdev_from_queue dev m.client.ctx.bdev cpu q))
