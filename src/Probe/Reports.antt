-- ===== src/Probe/Reports.antt =====
-- What the completion probe writes.
use standalone_linux_io_trac.Base.{
  ℕ, ◌<◌, ◌≡◌, ◌≢◌, refl, sym, ◌∙◌, ap, subst, true, List, [], ◌∷◌, none, some, arith, ◌==◌, elem,
  count, Bool-cases, Option-cases, ==→eq, ==_refl, ==_false, inl, inr,
}
use standalone_linux_io_trac.Kernel.{set_cpu}
use standalone_linux_io_trac.Context.{Context, BlockDevice}
use standalone_linux_io_trac.Trace.{Octf, LogsEvents, write_event}
use standalone_linux_io_trac.Trace.Events.{Event, EventType}
use standalone_linux_io_trac.Trace.Log.{Wrote, write_event-Wrote}
use standalone_linux_io_trac.IoTrace.Desc.{next_sid, notify_of_new_events}
use standalone_linux_io_trac.Bdev.Arrays.{get_bdev_from_queue}
use standalone_linux_io_trac.Bdev.Slots.{queue_count}
use standalone_linux_io_trac.Bdev.Invariant.{Tracks}
use standalone_linux_io_trac.Bdev.Lookup.{get_bdev_from_queue-Answers, Answers}
use standalone_linux_io_trac.Bio.{Bio}
use standalone_linux_io_trac.Bio.Trace.{Flags, cmpl_of, trace_bio_completion}
use standalone_linux_io_trac.InodeTracer.Walk.{Dentries}
use standalone_linux_io_trac.Probe.{
  Machine, put_ring, with_ctx, queued, completed, bio_queue_event, bio_complete_event,
}

pub set_cpu_here : {A : Type 0} (f : ℕ → A) (cpu : ℕ) (t : A) → set_cpu f cpu t cpu ≡ t
set_cpu_here f cpu t = rw (==_refl cpu) refl

module _ {T H : Type 0} (o : Octf T H) (c : Flags) (dev : ℕ → BlockDevice) (cpus ds : List ℕ) where
  pub queue_count-pos :
      (d q : ℕ) (xs : List ℕ) → 0 < count d xs → (dev d).bd_queue ≡ q → 0 < queue_count dev q xs
  queue_count-pos d q [] h e = absurd (omega arith)
  queue_count-pos d q (x ∷ xs) h e = elim (Bool-cases (x == d)) [
    | inl s ↦
        let on_q : ((dev x).bd_queue == q) ≡ true = rw (==→eq x d s) (rw e (==_refl q)) in
        ground (arith, on_q)
    | inr n ↦ ground (arith, n, queue_count-pos d q xs (ground (arith, n)) e)
  ]

  -- The answer for a queue that no traced device is on.
  untraced :
      (cpu q : ℕ) (ctx : Context T)
      → Tracks dev cpus ds ctx
      → elem cpu cpus ≡ true
      → queue_count dev q ds ≡ 0
      → get_bdev_from_queue dev ctx.bdev cpu q ≡ none
  untraced cpu q ctx t on z = elim (Option-cases (get_bdev_from_queue dev ctx.bdev cpu q)) [
    | inl e ↦ e
    | inr (d, e) ↦
        let a =
          subst (Answers dev q ds) e (get_bdev_from_queue-Answers dev cpus ds ctx cpu q t on) in
        absurd (omega (arith, queue_count-pos d q ds a.1 a.0))
  ]

  -- On a queue that no traced device is on, a bio leaves everything as it is, both when it is
  -- queued and when it is completed.
  pub untraced_silent :
      (hash : ℕ → ℕ) (k : Dentries) (fuel cpu q : ℕ) (bio : Bio) (error : ℕ) (m : Machine T)
      → Tracks dev cpus ds m.client.ctx
      → elem cpu cpus ≡ true
      → queue_count dev q ds ≡ 0
      → (bio_queue_event o c dev hash k fuel cpu q bio m ≡ some m)
        × (bio_complete_event o c dev cpu q bio error m ≡ m)
  unfolding bio_queue_event bio_complete_event
  untraced_silent hash k fuel cpu q bio error m t on z =
      let e = untraced cpu q m.client.ctx t on z in
      (
        ap (queued o c dev hash k fuel cpu bio m) e,
        ap (λ r. with_ctx m (completed o c dev cpu bio error m.client.ctx r)) e,
      )

  -- What the completion of a bio on the traced device `d` makes of the context: the next number is
  -- used up, and with the ring's own result for the completion event, which stands at the end of
  -- the CPU's log exactly if that is a success; the other rings and the devices are as they were.
  abbrev pub Reported : (T → List Event) → ℕ → ℕ → Bio → ℕ → Context T → Context T → Type 0
  Reported log cpu d bio error ctx ctx' =
      Wrote (cmpl_of o c (next_sid ctx.trace_state.sid) (dev d).devt bio error)
        (log (ctx.trace_state.traces cpu)) (log (ctx'.trace_state.traces cpu))
        (write_event o EventType.io_cmpl
          (cmpl_of o c (next_sid ctx.trace_state.sid) (dev d).devt bio error)
          (ctx.trace_state.traces cpu)).1
      × (ctx'.trace_state.sid ≡ next_sid ctx.trace_state.sid)
      × ((x : ℕ) → x ≢ cpu → ctx'.trace_state.traces x ≡ ctx.trace_state.traces x)
      × (ctx'.bdev ≡ ctx.bdev)

  pub notify-trace_state :
      (ctx : Context T) (cpu : ℕ) → ((notify_of_new_events o ctx cpu).trace_state ≡ ctx.trace_state)
  unfolding notify_of_new_events
  notify-trace_state ctx cpu = ground arith

  pub notify-bdev : (ctx : Context T) (cpu : ℕ) → (notify_of_new_events o ctx cpu).bdev ≡ ctx.bdev
  unfolding notify_of_new_events
  notify-bdev ctx cpu = ground arith

  pub set_cpu_other : (f : ℕ → T) (cpu x : ℕ) (t : T) → x ≢ cpu → set_cpu f cpu t x ≡ f x
  set_cpu_other f cpu x t n = rw (==_false x cpu n) refl

  completed-Reported :
      (log : T → List Event)
      → LogsEvents o log
      → (cpu d : ℕ) (bio : Bio) (error : ℕ) (ctx : Context T)
      → Reported log cpu d bio error ctx (completed o c dev cpu bio error ctx (some d))
  unfolding trace_bio_completion
  completed-Reported log logs cpu d bio error ctx =
      let fill = cmpl_of o c (next_sid ctx.trace_state.sid) (dev d).devt bio error in
      let (t, r) = write_event o EventType.io_cmpl fill (ctx.trace_state.traces cpu) in
      let after = put_ring ctx cpu (next_sid ctx.trace_state.sid) t in
      let wrote =
        write_event-Wrote o log logs EventType.io_cmpl fill (ctx.trace_state.traces cpu) in
      let same = notify-trace_state after cpu in
      let here : (notify_of_new_events o after cpu).trace_state.traces cpu ≡ t =
        ap (λ s. s.traces cpu) same ∙ set_cpu_here ctx.trace_state.traces cpu t in
      (
        subst (λ x. Wrote fill (log (ctx.trace_state.traces cpu)) (log x) r) (sym here) wrote,
        ap (λ s. s.sid) same,
        λ x n. ap (λ s. s.traces x) same ∙ set_cpu_other ctx.trace_state.traces cpu x t n,
        notify-bdev after cpu,
      )

  -- On a queue that a traced device is on, `bio_complete_event` reports the completion for such a
  -- device: it uses up the next number, and the completion event with that number stands at the end
  -- of the CPU's ring if the ring gives a buffer for it and takes it; otherwise, with the ring's
  -- error, nothing is shown. The rings of the other CPUs and the devices are as they were.
  pub bio_complete_event-Reported :
      (log : T → List Event)
      → LogsEvents o log
      → (cpu q : ℕ) (bio : Bio) (error : ℕ) (m : Machine T) → Tracks dev cpus ds m.client.ctx
      → elem cpu cpus ≡ true
      → 0 < queue_count dev q ds
      → (d : ℕ) × ((dev d).bd_queue ≡ q)
        × (0 < count d ds)
        × Reported log cpu d bio error m.client.ctx
            (bio_complete_event o c dev cpu q bio error m).client.ctx
  unfolding bio_complete_event
  bio_complete_event-Reported log logs cpu q bio error m t on p =
      elim (Option-cases (get_bdev_from_queue dev m.client.ctx.bdev cpu q)) [
        | inl e ↦
            let z =
              subst (Answers dev q ds) e
                (get_bdev_from_queue-Answers dev cpus ds m.client.ctx cpu q t on) in
            absurd (omega (arith, z, p))
        | inr (d, e) ↦
            let (on_q, among) =
              subst (Answers dev q ds) e
                (get_bdev_from_queue-Answers dev cpus ds m.client.ctx cpu q t on) in
            (d, on_q, among, rw e (completed-Reported log logs cpu d bio error m.client.ctx))
      ]
