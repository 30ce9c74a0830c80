-- ===== src/Probe/Queueing.antt =====
-- What the queueing probe writes for a bio that carries no file data.
use standalone_linux_io_trac.Base.{
  ℕ, zero, suc, ◌-◌, ◌<◌, ◌≡◌, ◌≢◌, refl, sym, ◌∙◌, ap, subst, true, false, Option, List, some,
  arith, elem, count, Option-cases, inl, inr,
}
use standalone_linux_io_trac.Context.{BlockDevice}
use standalone_linux_io_trac.Trace.{Octf, LogsEvents, write_event}
use standalone_linux_io_trac.Trace.Events.{Event, EventType}
use standalone_linux_io_trac.Trace.Log.{Wrote, write_event-Wrote}
use standalone_linux_io_trac.IoTrace.Desc.{next_sid, notify_of_new_events}
use standalone_linux_io_trac.Bdev.Arrays.{get_bdev_from_queue}
use standalone_linux_io_trac.Bdev.Slots.{queue_count}
use standalone_linux_io_trac.Bdev.Invariant.{Tracks}
use standalone_linux_io_trac.Bdev.Lookup.{get_bdev_from_queue-Answers, Answers}
use standalone_linux_io_trac.Bio.{Bio, bio_class, is_file_class}
use standalone_linux_io_trac.Bio.Trace.{Flags, io_of}
use standalone_linux_io_trac.Bio.Log.{trace_bio_other}
use standalone_linux_io_trac.InodeTracer.{InodeTracer}
use standalone_linux_io_trac.InodeTracer.Walk.{Dentries}
use standalone_linux_io_trac.Probe.{
  Machine, put_ring, put_walk, walk_of, notified, queued, bio_queue_event,
}
use standalone_linux_io_trac.Probe.Reports.{
  queue_count-pos, notify-trace_state, notify-bdev, set_cpu_here, set_cpu_other,
}

module _ {T H : Type 0} (o : Octf T H) (c : Flags) (dev : ℕ → BlockDevice) (cpus ds : List ℕ) where
  -- What queueing a bio on the CPU `cpu` makes of the state, when `n` traced devices are on its
  -- queue: nothing if there is none; otherwise the next number is used up for one of them, with
  -- the ring's own result for the event of the bio, which stands at the end of the CPU's log
  -- exactly if that is a success; all else is as it was.
  abbrev pub Queued : (T → List Event) → ℕ → ℕ → Bio → Machine T → Option (Machine T) → ℕ → Type 0
  Queued log cpu q bio m out zero = out ≡ some m
  Queued log cpu q bio m out (suc n) =
      (d : ℕ) × (m' : Machine T) × ((dev d).bd_queue ≡ q)
      × (0 < count d ds)
      × (out ≡ some m')
      × Wrote (io_of o c (next_sid m.client.ctx.trace_state.sid) (dev d).devt bio)
          (log (m.client.ctx.trace_state.traces cpu)) (log (m'.client.ctx.trace_state.traces cpu))
          (write_event o EventType.io
            (io_of o c (next_sid m.client.ctx.trace_state.sid) (dev d).devt bio)
            (m.client.ctx.trace_state.traces cpu)).1
      × (m'.client.ctx.trace_state.sid ≡ next_sid m.client.ctx.trace_state.sid)
      × ((x : ℕ) → x ≢ cpu → m'.client.ctx.trace_state.traces x ≡ m.client.ctx.trace_state.traces x)
      × (m'.client.ctx.bdev ≡ m.client.ctx.bdev)
      × (m'.client.inode_traces cpu ≡ m.client.inode_traces cpu)
      × (m'.marks ≡ m.marks)
      × (m'.dentry_refs ≡ m.dentry_refs)

  queued-Queued :
      (log : T → List Event)
      → LogsEvents o log
      → (hash : ℕ → ℕ) (k : Dentries) (fuel cpu q d n : ℕ) (bio : Bio) (tracer : InodeTracer)
        (m : Machine T)
      → is_file_class (bio_class bio).0 ≡ false
      → m.client.inode_traces cpu ≡ some tracer
      → (dev d).bd_queue ≡ q
      → 0 < count d ds
      → Queued log cpu q bio m (queued o c dev hash k fuel cpu bio m (some d)) (suc n)
  queued-Queued log logs hash k fuel cpu q d n bio tracer m other has on_q among =
      let ctx = m.client.ctx in
      let fill = io_of o c (next_sid ctx.trace_state.sid) (dev d).devt bio in
      let (t, r) = write_event o EventType.io fill (ctx.trace_state.traces cpu) in
      let w = record (walk_of m cpu tracer) { sid = next_sid ctx.trace_state.sid; trace = t } in
      let after = put_ring ctx cpu (next_sid ctx.trace_state.sid) t in
      let wrote = write_event-Wrote o log logs EventType.io fill (ctx.trace_state.traces cpu) in
      let same = notify-trace_state o c dev cpus ds after cpu in
      let here : (notify_of_new_events o after cpu).trace_state.traces cpu ≡ t =
        ap (λ s. s.traces cpu) same ∙ set_cpu_here ctx.trace_state.traces cpu t in
      (
        d,
        notified o c dev (put_walk m cpu w) cpu,
        on_q,
        among,
        rw has (
            rw (trace_bio_other o c hash k fuel (walk_of m cpu tracer) (dev d).devt bio other)
              refl),
        subst (λ x. Wrote fill (log (ctx.trace_state.traces cpu)) (log x) r) (sym here) wrote,
        ap (λ s. s.sid) same,
        λ x ne.
            ap (λ s. s.traces x) same
            ∙ set_cpu_other o c dev cpus ds ctx.trace_state.traces cpu x t ne,
        notify-bdev o c dev cpus ds after cpu,
        set_cpu_here m.client.inode_traces cpu (some tracer) ∙ sym has,
        refl,
        refl,
      )

  -- A bio that carries no file data, on a CPU with an inode tracer: on a queue that no traced
  -- device is on `bio_queue_event` leaves everything as it is; on any other it returns, uses up the
  -- next number, and the bio's event with that number, for a traced device of the queue, stands at
  -- the end of the CPU's ring if the ring gives a buffer for it and takes it; otherwise, with the
  -- ring's error, nothing is shown. The other CPUs' rings, the devices, the CPU's inode tracer,
  -- the marks and the references to dentries are as they were.
  pub bio_queue_event-Queued :
      (log : T → List Event)
      → LogsEvents o log
      → (hash : ℕ → ℕ) (k : Dentries) (fuel cpu q : ℕ) (bio : Bio) (tracer : InodeTracer)
        (m : Machine T)
      → Tracks dev cpus ds m.client.ctx
      → elem cpu cpus ≡ true
      → m.client.inode_traces cpu ≡ some tracer
      → is_file_class (bio_class bio).0 ≡ false
      → Queued log cpu q bio m
          (bio_queue_event o c dev hash k fuel cpu q bio m)
          (queue_count dev q ds)
  unfolding bio_queue_event
  bio_queue_event-Queued log logs hash k fuel cpu q bio tracer m t on has other =
      elim (Option-cases (get_bdev_from_queue dev m.client.ctx.bdev cpu q)) [
        | inl e ↦
            let z =
              subst (Answers dev q ds) e
                (get_bdev_from_queue-Answers dev cpus ds m.client.ctx cpu q t on) in
            rw (z, e) refl
        | inr (d, e) ↦
            let (on_q, among) =
              subst (Answers dev q ds) e
                (get_bdev_from_queue-Answers dev cpus ds m.client.ctx cpu q t on) in
            let n : queue_count dev q ds ≡ suc (queue_count dev q ds - 1) =
              omega (arith, queue_count-pos o c dev cpus ds d q ds among on_q) in
            rw (n, e)
              (queued-Queued log logs hash k fuel cpu q d (queue_count dev q ds - 1) bio tracer m
                other has on_q among)
      ]
