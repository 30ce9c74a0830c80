-- ===== src/Client/Detach.antt =====
-- `iotrace_detach_client` on the states between two calls.
use standalone_linux_io_trac.Base.{
  ℕ, ◌+◌, ◌-◌, ◌%◌, ◌^◌, ◌<◌, ◌≡◌, refl, sym, ◌∙◌, ap, true, false, List, [], some, arith, ◌==◌,
  if◌then◌else◌, elem, Bool-cases, inl, inr, Distinct, ==→eq,
}
use mathlib.Core.Bool.{false≢true, not}
use standalone_linux_io_trac.Context.{Context, BlockDevice}
use standalone_linux_io_trac.Bdev.{remove_all_locked, mutex_unlock}
use standalone_linux_io_trac.Bdev.Invariant.{Tracks}
use standalone_linux_io_trac.Bdev.Remove.{remove_all_locked_empties}
use standalone_linux_io_trac.Client.{Client, unregister_trace_points, deinit_tracers, detach_client}
use standalone_linux_io_trac.Client.Tracers.{all_probes}
use standalone_linux_io_trac.Client.Sessions.{Session, Session-of, Tracks-same, is_live}

module _ {T : Type 0} (dev : ℕ → BlockDevice) (cpus : List ℕ) (d : Distinct cpus) where
  -- What detaching from `s` ends in, on the traced devices `ds`.
  abbrev pub Detached : List ℕ → Client T → Client T → Type 0
  Detached ds s s' =
      Session dev cpus (if s.ctx.trace_state.clients == 1 then [] else ds) s'
      × (s'.ctx.trace_state.clients + 1 ≡ s.ctx.trace_state.clients)
      × (s'.inode_areas ≡ s.inode_areas)

  -- The context with the mutex and one client less.
  abbrev less : Client T → Context T
  less s = record (s.ctx) {
    locked = true;
    trace_state = record (s.ctx.trace_state) {
      clients = (s.ctx.trace_state.clients + (2 ^ 32 - 1)) % 2 ^ 32;
    };
  }

  unfoldable ended : Client T → Context T → Client T
  ended s ctx' =
      let s' =
        deinit_tracers cpus (record s { ctx = ctx'; probes = unregister_trace_points s.probes }) in
      record s' { ctx = mutex_unlock s'.ctx }

  detach_last :
      (cpu : ℕ) (s : Client T) (ctx' : Context T)
      → s.ctx.locked ≡ false
      → s.ctx.trace_state.clients ≡ 1
      → remove_all_locked cpus cpu (less s) ≡ some ctx'
      → detach_client cpus cpu s ≡ some (ended s ctx')
  unfolding detach_client ended
  detach_last cpu s ctx' free one run =
      let w : ((s.ctx.trace_state.clients + (2 ^ 32 - 1)) % 2 ^ 32 == 0) ≡ true = ground arith in
      rw free (rw w (rw run refl))

  ended-Session :
      (s : Client T) (ds : List ℕ) (ctx' : Context T)
      → Session dev cpus ds s
      → s.ctx.trace_state.clients ≡ 1
      → Tracks dev cpus [] ctx'
      → ctx'.trace_state.clients ≡ 0
      → Session dev cpus [] (ended s ctx')
  unfolding ended deinit_tracers unregister_trace_points
  ended-Session s ds ctx' v one t z =
      Session-of dev cpus [] _ false (ground (arith, z)) refl
        (Tracks-same dev cpus [] ctx' _ t refl refl) (omega arith) refl (λ c m. ground (arith, m))
        (λ c m. ground (arith, m)) (ground (arith, v.traces_areas, one)) (λ f. refl)

  ended_clients :
      (s : Client T) (ctx' : Context T)
      → (ended s ctx').ctx.trace_state.clients ≡ ctx'.trace_state.clients
  unfolding ended deinit_tracers
  ended_clients s ctx' = refl

  ended_areas : (s : Client T) (ctx' : Context T) → (ended s ctx').inode_areas ≡ s.inode_areas
  unfolding ended deinit_tracers
  ended_areas s ctx' = refl

  detach_other :
      (cpu : ℕ) (ds : List ℕ) (s : Client T)
      → Session dev cpus ds s
      → 1 < s.ctx.trace_state.clients
      → (detach_client cpus cpu s ≡ some (record s { ctx = mutex_unlock (less s) }))
        × Session dev cpus ds (record s { ctx = mutex_unlock (less s) })
  unfolding detach_client
  detach_other cpu ds s v p =
      let w : ((s.ctx.trace_state.clients + (2 ^ 32 - 1)) % 2 ^ 32 == 0) ≡ false =
        ground (arith, v.bounded) in
      let live : is_live s ≡ true = ground arith in
      (
        rw v.free (rw w refl),
        Session-of dev cpus ds _ true (ap not w) refl
            (Tracks-same dev cpus ds s.ctx _ v.tracks refl refl) (omega arith)
            (v.probes ∙ ap all_probes live) (λ c m. v.opened c m ∙ live)
            (λ c m. v.tracers c m ∙ live) (v.traces_areas ∙ ap (λ b. if b then 1 else 0) live)
            (λ f. absurd (false≢true (sym f))),
      )

  -- While there is a client, `iotrace_detach_client` comes back with the session kept and one
  -- client less; with the last one no device is traced any more, every reference to a device is
  -- given back, and no probe, producer or inode tracer is left. The per-CPU area of the inode
  -- tracers is not freed.
  pub detach_client-Detached :
      (cpu : ℕ) (ds : List ℕ) (s : Client T)
      → Session dev cpus ds s
      → elem cpu cpus ≡ true
      → 0 < s.ctx.trace_state.clients
      → (s' : Client T) × (detach_client cpus cpu s ≡ some s') × Detached ds s s'
  unfolding detach_client
  detach_client-Detached cpu ds s v on p = elim (Bool-cases (s.ctx.trace_state.clients == 1)) [
    | inl last ↦
        let one = ==→eq _ _ last in
        let (ctx', run, t, (locked, refs, clients)) =
          remove_all_locked_empties dev cpus d cpu ds (less s)
            (Tracks-same dev cpus ds s.ctx (less s) v.tracks refl refl) on in
        let z : ctx'.trace_state.clients ≡ 0 = omega (arith, clients, one) in
        (
          ended s ctx',
          detach_last cpu s ctx' v.free one run,
          (
            rw last (ended-Session s ds ctx' v one t z),
            omega (arith, ended_clients s ctx', z, one),
            ended_areas s ctx',
          ),
        )
    | inr more ↦
        let (run, v') = detach_other cpu ds s v (ground arith) in
        (
          record s { ctx = mutex_unlock (less s) },
          run,
          (rw more v', omega (arith, v.bounded), refl),
        )
  ]
