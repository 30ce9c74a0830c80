-- ===== src/Client/Sessions.antt =====
-- The states between two calls of the clients' operations, and `iotrace_attach_client` on them.
use standalone_linux_io_trac.Base.{
  ℕ, ◌+◌, ◌%◌, ◌^◌, ◌<◌, ◌≡◌, refl, sym, ◌∙◌, ap, Bool, true, false, List, [], some, arith, ◌==◌,
  if◌then◌else◌, elem, Bool-cases, inl, inr, ==→eq,
}
use mathlib.Core.Bool.{false≢true, not}
use standalone_linux_io_trac.Kernel.{Result, ok, err, is_ok}
use standalone_linux_io_trac.Context.{Context, BlockDevice}
use standalone_linux_io_trac.Bdev.Invariant.{Tracks}
use standalone_linux_io_trac.Client.{
  Probes, Platform, Client, register_trace_points, init_tracers, deinit_tracers, attach_client,
  count_client, unlock_client, probed, traced,
}
use standalone_linux_io_trac.Client.Tracers.{
  all_probes, has_tracer, Inited, init_tracers-Inited, register_trace_points_all,
}

-- Tracing runs.
abbrev pub is_live : {T : Type 0} → Client T → Bool
is_live s = not (s.ctx.trace_state.clients == 0)

-- Between two operations the mutex is free and the state tracks the devices `ds`; while there is
-- a client, all four probes stand, every CPU has its producer and its inode tracer, and one area
-- of producers is allocated; without one, there is none of these and no device is traced.
pub record Session {T : Type 0} (dev : ℕ → BlockDevice) (cpus ds : List ℕ) (s : Client T)
    : Type 0 where
  pub free : s.ctx.locked ≡ false
  pub tracks : Tracks dev cpus ds s.ctx
  pub bounded : s.ctx.trace_state.clients < 2 ^ 32
  pub probes : s.probes ≡ all_probes (is_live s)
  pub opened : (c : ℕ) → elem c cpus ≡ true → s.opened c ≡ is_live s
  pub tracers : (c : ℕ) → elem c cpus ≡ true → has_tracer (s.inode_traces c) ≡ is_live s
  pub traces_areas : s.traces_areas ≡ (if is_live s then 1 else 0)
  pub idle : s.ctx.trace_state.clients ≡ 0 → ds ≡ []

pub Tracks-same :
    {T : Type 0} (dev : ℕ → BlockDevice) (cpus ds : List ℕ) (a b : Context T)
    → Tracks dev cpus ds a
    → b.bdev ≡ a.bdev
    → b.blkdev_refs ≡ a.blkdev_refs
    → Tracks dev cpus ds b
Tracks-same dev cpus ds a b t e r = record {
  num = ap (λ d. d.num) e ∙ t.num;
  bounded = t.bounded;
  same = λ c m. ap (λ d. d.list c) e ∙ t.same c m;
  queues = t.queues;
  refs = λ x. ap (λ f. f x) r ∙ t.refs x;
}

module _ {T : Type 0} (dev : ℕ → BlockDevice) (cpus ds : List ℕ) where
  -- A session from what it says with the liveness written out.
  pub Session-of :
      (s : Client T) (b : Bool)
      → is_live s ≡ b
      → s.ctx.locked ≡ false
      → Tracks dev cpus ds s.ctx
      → s.ctx.trace_state.clients < 2 ^ 32
      → s.probes ≡ all_probes b
      → ((c : ℕ) → elem c cpus ≡ true → s.opened c ≡ b)
      → ((c : ℕ) → elem c cpus ≡ true → has_tracer (s.inode_traces c) ≡ b)
      → s.traces_areas ≡ (if b then 1 else 0)
      → (b ≡ false → ds ≡ [])
      → Session dev cpus ds s
  Session-of s b e free tracks bounded probes opened tracers areas idle = record {
    free = free;
    tracks = tracks;
    bounded = bounded;
    probes = probes ∙ ap all_probes (sym e);
    opened = λ c m. opened c m ∙ sym e;
    tracers = λ c m. tracers c m ∙ sym e;
    traces_areas = areas ∙ ap (λ b. if b then 1 else 0) (sym e);
    idle = λ z. idle (sym e ∙ ap (λ n. not (n == 0)) z);
  }

module _ {T : Type 0} (dev : ℕ → BlockDevice) (cpus ds : List ℕ) (k : Platform T) where
  abbrev hold : Client T → Client T
  hold s = record s { ctx = record (s.ctx) { locked = true } }

  -- The state behind an attachment with the result `r`, from `s`.
  abbrev pub Attached : Client T → Client T × Result (Unit {0}) → Type 0
  Attached s out =
      Session dev cpus ds out.0
      × (out.0.ctx.trace_state.clients ≡ s.ctx.trace_state.clients + (if is_ok out.1 then 1 else 0))

  more-Attached :
      (s : Client T)
      → Session dev cpus ds s
      → (s.ctx.trace_state.clients == 0) ≡ false
      → s.ctx.trace_state.clients + 1 < 2 ^ 32
      → Attached s (unlock_client k (count_client k (hold s)), ok tt)
  more-Attached s v n b =
      let more : (s.ctx.trace_state.clients + 1) % 2 ^ 32 ≡ s.ctx.trace_state.clients + 1 =
        omega arith in
      let live : is_live s ≡ true = ground (arith, n) in
      (
        Session-of dev cpus ds (unlock_client k (count_client k (hold s))) true (ground arith) refl
            (Tracks-same dev cpus ds s.ctx _ v.tracks refl refl) (omega arith)
            (v.probes ∙ ap all_probes live) (λ c m. v.opened c m ∙ live)
            (λ c m. v.tracers c m ∙ live) (v.traces_areas ∙ ap (λ b. if b then 1 else 0) live)
            (λ f. absurd (false≢true (sym f))),
        more,
      )

  dead : (s : Client T) → s.ctx.trace_state.clients ≡ 0 → is_live s ≡ false
  dead s z = ap (λ n. not (n == 0)) z

  idle_areas :
      (s : Client T) → Session dev cpus ds s → s.ctx.trace_state.clients ≡ 0 → s.traces_areas ≡ 0
  idle_areas s v z = v.traces_areas ∙ ap (λ b. if b then 1 else 0) (dead s z)

  registered :
      (p : Probes)
      → p ≡ all_probes false
      → (register_trace_points k p).0 ≡ all_probes (is_ok (register_trace_points k p).1)
  registered p e = rw e (register_trace_points_all k)

  -- Behind tracers that are all there, `s1`, with the outcome `p` of the registration.
  probed-Attached :
      (s s1 : Client T) (p : Probes × Result (Unit {0}))
      → Session dev cpus ds s
      → s.ctx.trace_state.clients ≡ 0
      → Inited k cpus (hold s) (s1, ok tt)
      → p.0 ≡ all_probes (is_ok p.1)
      → Attached s (probed k cpus s1 p)
  unfolding deinit_tracers
  probed-Attached s s1 (p, ok u) v z i e =
      let live : s1.ctx.trace_state.clients ≡ 0 = i.same.clients ∙ z in
      (
        Session-of dev cpus ds _ true (ground (arith, live)) refl
            (Tracks-same dev cpus ds s.ctx _ v.tracks i.same.bdev i.same.blkdev_refs) (omega arith)
            e i.opened i.tracers (i.traces_areas ∙ ap (λ n. n + 1) (idle_areas s v z))
            (λ f. absurd (false≢true (sym f))),
        ground (arith, live),
      )
  probed-Attached s s1 (p, err code) v z i e =
      let live : s1.ctx.trace_state.clients ≡ 0 = i.same.clients ∙ z in
      (
        Session-of dev cpus ds _ false (ground (arith, live)) refl
            (Tracks-same dev cpus ds s.ctx _ v.tracks i.same.bdev i.same.blkdev_refs) (omega arith)
            e (λ c m. ground (arith, m)) (λ c m. ground (arith, m))
            (ground (arith, i.traces_areas, idle_areas s v z)) (λ f. v.idle z),
        ground (arith, live),
      )

  traced-Attached :
      (s : Client T) (out : Client T × Result (Unit {0}))
      → Session dev cpus ds s
      → s.ctx.trace_state.clients ≡ 0
      → Inited k cpus (hold s) out
      → Attached s (traced k cpus out)
  traced-Attached s (s1, ok tt) v z i =
      probed-Attached s s1 (register_trace_points k s1.probes) v z i
        (registered s1.probes (i.same.probes ∙ v.probes ∙ ap all_probes (dead s z)))
  traced-Attached s (s1, err e) v z i =
      let live : s1.ctx.trace_state.clients ≡ 0 = i.same.clients ∙ z in
      (
        Session-of dev cpus ds (unlock_client k s1) false (ground (arith, live)) refl
            (Tracks-same dev cpus ds s.ctx _ v.tracks i.same.bdev i.same.blkdev_refs) (omega arith)
            (i.same.probes ∙ v.probes ∙ ap all_probes (dead s z)) i.opened i.tracers
            (ground (arith, i.traces_areas, idle_areas s v z)) (λ f. v.idle z),
        ground (arith, live),
      )

  -- With less than 2 ^ 32 - 1 clients, `iotrace_attach_client` comes back with the session kept:
  -- on success there is one client more; on an error, wherever it happened, the clients are as
  -- many as before, and if there are none, no probe, producer or inode tracer is left.
  pub attach_client-Attached :
      (s : Client T)
      → Session dev cpus ds s
      → s.ctx.trace_state.clients + 1 < 2 ^ 32
      → (out : Client T × Result (Unit {0})) × (attach_client k cpus s ≡ some out) × Attached s out
  unfolding attach_client
  attach_client-Attached s v b = elim (Bool-cases (s.ctx.trace_state.clients == 0)) [
    | inl z ↦ (
      traced k cpus (init_tracers k cpus (hold s)),
      rw (v.free, z) refl,
      traced-Attached s _ v (==→eq _ _ z) (init_tracers-Inited k cpus (hold s)),
    )
    | inr n ↦ (
      (unlock_client k (count_client k (hold s)), ok tt),
      rw (v.free, n) refl,
      more-Attached s v n b,
    )
  ]
