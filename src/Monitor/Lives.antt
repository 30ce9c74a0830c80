-- ===== src/Monitor/Lives.antt =====
-- Creating and destroying inode tracers in any order.
use standalone_linux_io_trac.Base.{
  ℕ, zero, suc, ◌-◌, ◌≡◌, refl, ap, ◌∙◌, true, false, List, [], ◌∷◌, Option, none, some, arith,
  ◌==◌, elem, Distinct, Bool-cases, ◌⊎◌, inl, inr,
}
use standalone_linux_io_trac.Kernel.{Result, ok, err, enomem, set_cpu, ◌>>=◌, set_here}
use standalone_linux_io_trac.Monitor.{
  Monitors, Backend, put_heap, fs_monitor_put, create_tracer, destroy_tracer,
}
use standalone_linux_io_trac.Monitor.Sharing.{users, users_pos}
use standalone_linux_io_trac.Monitor.Init.{of_users, OneMonitor, fsm_init-Got}
use standalone_linux_io_trac.Monitor.Tracers.{
  cleared-OneMonitor, placed-OneMonitor, left_none-OneMonitor, left_user-OneMonitor,
}

Slot-cases :
    (t : Option (Option ℕ)) → (t ≡ none) ⊎ ((t ≡ some none) ⊎ ((q : ℕ) × (t ≡ some (some q))))
Slot-cases none = inl refl
Slot-cases (some none) = inr (inl refl)
Slot-cases (some (some q)) = inr (inr (q, refl))

put_user :
    (w : Monitors) (n q : ℕ)
    → w.heap q ≡ of_users (suc n)
    → fs_monitor_put (some q) w ≡ some (put_heap w q (of_users n))
unfolding fs_monitor_put
put_user w zero q h = rw h refl
put_user w (suc n) q h =
    let more : suc (suc n) - 1 ≡ suc n = omega arith in
    let kept : (suc n == 0) ≡ false = ground arith in rw h (rw more (rw kept refl))

-- One call on a CPU: its tracer is created if there is none, with what the kernel answers then, or
-- destroyed.
pub data Call : Type 0 where
  creates : Backend → ℕ → Call
  destroys : ℕ → Call

module _ (cpus : List ℕ) where
  abbrev created : Monitors × Result (Unit {0}) → Option Monitors
  created (w, r) = some w

  abbrev pub call : Call → Monitors → Option Monitors
  call (creates b cpu) w = elim (w.tracers cpu) [
    | none ↦ create_tracer b cpus cpu w >>= created
    | some fsm ↦ some w
  ]
  call (destroys cpu) w = destroy_tracer cpu w

  abbrev pub run : List Call → Monitors → Option Monitors
  run [] w = some w
  run (x ∷ calls) w = call x w >>= run calls

  -- The calls are on online CPUs, and no small allocation fails.
  abbrev pub Fits : Call → Type 0
  Fits (creates b cpu) = (elem cpu cpus ≡ true) × (b.kzalloc_fsm ≡ true) × (b.kzalloc_priv ≡ true)
  Fits (destroys cpu) = elem cpu cpus ≡ true

  abbrev pub AllFit : List Call → Type 0
  AllFit [] = Unit {0}
  AllFit (x ∷ calls) = Fits x × AllFit calls

module _ (cpus : List ℕ) (d : Distinct cpus) where
  create_tracer-OneMonitor :
      (b : Backend) (cpu : ℕ) (w : Monitors)
      → OneMonitor cpus w
      → w.tracers cpu ≡ none
      → Fits cpus (creates b cpu)
      → (out : Monitors × Result (Unit {0})) × (create_tracer b cpus cpu w ≡ some out)
        × OneMonitor cpus out.0
  unfolding create_tracer
  create_tracer-OneMonitor b cpu w v e (m, f, p) =
      let w0 = record w { tracers = set_cpu w.tracers cpu none } in
      let v0 = cleared-OneMonitor cpus cpu w v e in
      elim (Bool-cases (b.vzalloc_tracer cpu)) [
        | inr n ↦ ((w0, err enomem), rw n refl, v0)
        | inl y ↦
            let ((w1, fsm), run, got) = fsm_init-Got b cpus w0 v0 f p in
            (
              (record w1 { tracers = set_cpu w1.tracers cpu (some fsm) }, ok tt),
              rw y (rw run refl),
              placed-OneMonitor cpus cpu w0 w1 fsm d m v0
                  (set_here w.tracers none cpu cpu (ground arith)) got,
            )
      ]

  destroy_tracer-OneMonitor :
      (cpu : ℕ) (w : Monitors)
      → OneMonitor cpus w
      → elem cpu cpus ≡ true
      → (w' : Monitors) × (destroy_tracer cpu w ≡ some w') × OneMonitor cpus w'
  unfolding destroy_tracer fs_monitor_put
  destroy_tracer-OneMonitor cpu w v m = elim (Slot-cases (w.tracers cpu)) [
    | inl e ↦ (w, rw (e, destroy_tracer) refl, v)
    | inr (inl e) ↦ (
      record w { tracers = set_cpu w.tracers cpu none },
      rw (e, destroy_tracer) refl,
      left_none-OneMonitor cpus cpu w v e,
    )
    | inr (inr (q, e)) ↦
        let used = users_pos cpus w cpu q m e in
        let n = users cpus w - 1 in
        let count : users cpus w ≡ suc n = omega (arith, used) in
        let place : (q == v.place) ≡ true = ground (arith, v.same cpu q m e) in
        let here : w.heap q ≡ of_users (suc n) = v.heap q ∙ rw place (ap of_users count) in
        (
          record (put_heap w q (of_users n)) { tracers = set_cpu w.tracers cpu none },
          rw (e, destroy_tracer) (rw (put_user w n q here) refl),
          left_user-OneMonitor cpus cpu q n w d m v e count,
        )
  ]

  call-OneMonitor :
      (x : Call) (w : Monitors)
      → OneMonitor cpus w
      → Fits cpus x
      → (w' : Monitors) × (call cpus x w ≡ some w') × OneMonitor cpus w'
  call-OneMonitor (destroys cpu) w v m = destroy_tracer-OneMonitor cpu w v m
  call-OneMonitor (creates b cpu) w v m = elim (Slot-cases (w.tracers cpu)) [
    | inl e ↦
        let (out, done, v') = create_tracer-OneMonitor b cpu w v e m in
        (out.0, rw (e, call) (rw done refl), v')
    | inr (inl e) ↦ (w, rw (e, call) refl, v)
    | inr (inr (q, e)) ↦ (w, rw (e, call) refl, v)
  ]

  -- In whatever order the inode tracers of the online CPUs are created and destroyed, whatever
  -- the kernel answers to each creation, while no `kzalloc` fails: every call comes back, and
  -- afterwards one monitor is allocated if an inode tracer has it and none otherwise, its
  -- references and those to its group are the tracers that have it, and no tracer has another.
  pub run-OneMonitor :
      (calls : List Call) (w : Monitors)
      → OneMonitor cpus w
      → AllFit cpus calls
      → (w' : Monitors) × (run cpus calls w ≡ some w') × OneMonitor cpus w'
  run-OneMonitor [] w v f = (w, refl, v)
  run-OneMonitor (x ∷ calls) w v (f, fs) =
      let (w1, one, v1) = call-OneMonitor x w v f in
      let (w2, rest, v2) = run-OneMonitor calls w1 v1 fs in (w2, rw one rest, v2)
