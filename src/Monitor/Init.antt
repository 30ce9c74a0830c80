-- ===== src/Monitor/Init.antt =====
-- The monitor that a new inode tracer gets: the one that there is, or a new one.
use standalone_linux_io_trac.Base.{
  ℕ, zero, suc, ◌+◌, ◌-◌, ◌≡◌, refl, sym, ap, ◌∙◌, true, List, Option, none, some, arith, ◌==◌,
  if◌then◌else◌, elem, Bool-cases, inl, inr, Option-cases,
}
use standalone_linux_io_trac.Kernel.{◌>>=◌}
use standalone_linux_io_trac.Monitor.{
  FsMonitor, Monitors, Backend, put_heap, fs_monitor_get, find_fsm, fsm_try_get, fsm_create,
  fsm_init, shared_or_created,
}
use standalone_linux_io_trac.Monitor.Sharing.{users, users_pos, find_fsm-some, find_fsm-none}

-- What the heap has for a monitor with `n` users.
abbrev pub of_users : ℕ → Option FsMonitor
of_users zero = none
of_users (suc n) = some (record { refcnt = suc n; group_refs = suc n })

-- Only one monitor is allocated, at `place`, exactly while a tracer has it; both its counts are the
-- number of the tracers that have it; and no tracer has another one.
pub record OneMonitor (cpus : List ℕ) (w : Monitors) : Type 0 where
  pub place : ℕ
  pub heap : (i : ℕ) → w.heap i ≡ (if i == place then of_users (users cpus w) else none)
  pub same : (c q : ℕ) → elem c cpus ≡ true → w.tracers c ≡ some (some q) → q ≡ place

-- What `_fsm_init` gives a new tracer.
abbrev pub Got : List ℕ → Monitors → Monitors × Option ℕ → Type 0
Got cpus w (w1, none) = (w1.tracers ≡ w.tracers) × (w1.heap ≡ w.heap)
Got cpus w (w1, some p) =
    (w1.tracers ≡ w.tracers)
    × ((i : ℕ) → w1.heap i ≡ (if i == p then of_users (suc (users cpus w)) else none))
    × ((c q : ℕ) → elem c cpus ≡ true → w.tracers c ≡ some (some q) → q ≡ p)

module _ (b : Backend) (cpus : List ℕ) where
  joined :
      (w : Monitors) (n p : ℕ)
      → w.heap p ≡ of_users (suc n)
      → fs_monitor_get p w ≡ some (put_heap w p (of_users (suc (suc n))))
  unfolding fs_monitor_get
  joined w n p e =
      let more : suc n + 1 ≡ suc (suc n) = omega arith in
      rw e (ap (λ m. some (put_heap w p (some (record { refcnt = m; group_refs = m })))) more)

  -- Without a user nothing is allocated.
  unused_heap : (w : Monitors) → OneMonitor cpus w → users cpus w ≡ 0 → (i : ℕ) → w.heap i ≡ none
  unused_heap w v z i = elim (Bool-cases (i == v.place)) [
    | inl e ↦ v.heap i ∙ rw (e, z) refl
    | inr e ↦ v.heap i ∙ rw e refl
  ]

  created-Got :
      (w : Monitors)
      → OneMonitor cpus w
      → users cpus w ≡ 0
      → b.kzalloc_fsm ≡ true
      → b.kzalloc_priv ≡ true
      → (r : Monitors × Option ℕ) × (fsm_create b cpus w ≡ some r) × Got cpus w r
  unfolding fsm_create
  created-Got w v z f p = elim (Bool-cases b.alloc_group) [
    | inr n ↦ rw (f, n) ((_, none), refl, (refl, refl))
    | inl g ↦
        let q = w.free in
        let w1 = record (put_heap w q (of_users 1)) { free = q + 1 } in
        let run : fsm_create b cpus w ≡ some (w1, some q) = rw (f, g) (rw p refl) in
        (
          (w1, some q),
          run,
          (
            refl,
            λ i. elim (Bool-cases (i == q)) [
              | inl e ↦ rw (e, z) refl
              | inr e ↦ rw e (unused_heap w v z i)
            ],
            λ c x m e. absurd (omega (arith, users_pos cpus w c x m e, z)),
          ),
        )
  ]

  fsm_init_ready :
      (w : Monitors)
      → b.compatible ≡ true
      → b.symbols ≡ true
      → fsm_init b cpus w ≡ (fsm_try_get cpus w >>= shared_or_created b cpus)
  unfolding fsm_init
  fsm_init_ready w y k = rw (y, k) refl

  not_got : (w : Monitors) → find_fsm cpus w ≡ none → fsm_try_get cpus w ≡ some (w, none)
  unfolding fsm_try_get
  not_got w e = rw (e, fsm_try_get) refl

  got_one :
      (w : Monitors) (n q : ℕ)
      → find_fsm cpus w ≡ some q
      → w.heap q ≡ of_users (suc n)
      → fsm_try_get cpus w ≡ some (put_heap w q (of_users (suc (suc n))), some q)
  unfolding fsm_try_get
  got_one w n q e h = rw (e, fsm_try_get) (rw (joined w n q h) refl)

  -- `_fsm_init` on a CPU without a tracer.
  pub fsm_init-Got :
      (w : Monitors)
      → OneMonitor cpus w
      → b.kzalloc_fsm ≡ true
      → b.kzalloc_priv ≡ true
      → (r : Monitors × Option ℕ) × (fsm_init b cpus w ≡ some r) × Got cpus w r
  unfolding fsm_init
  fsm_init-Got w v f p = elim (Bool-cases b.compatible) [
    | inr n ↦ rw n ((w, none), refl, (refl, refl))
    | inl y ↦ elim (Bool-cases b.symbols) [
      | inr n ↦ rw (y, n) ((w, none), refl, (refl, refl))
      | inl k ↦ elim (Option-cases (find_fsm cpus w)) [
        | inl none_found ↦
            let (r, run, got) = created-Got w v (find_fsm-none cpus w none_found) f p in
            (
              r,
              fsm_init_ready w y k
                  ∙ ap (λ x. x >>= shared_or_created b cpus) (not_got w none_found)
                  ∙ run,
              got,
            )
        | inr (q, found) ↦
            let (c, m, h, z) = find_fsm-some cpus w q found in
            let at = v.same c q m h in
            let same_place : (v.place == v.place) ≡ true = ground arith in
            let n = users cpus w - 1 in
            let count : users cpus w ≡ suc n = omega (arith, z) in
            let here : w.heap q ≡ of_users (suc n) =
              v.heap q ∙ rw at (rw same_place (ap of_users count)) in
            (
              (put_heap w q (of_users (suc (suc n))), some q),
              fsm_init_ready w y k
                  ∙ ap (λ x. x >>= shared_or_created b cpus) (got_one w n q found here),
              (
                refl,
                λ i. elim (Bool-cases (i == q)) [
                  | inl e ↦ rw e (ap (λ m. of_users (suc m)) (sym count))
                  | inr e ↦ rw e (v.heap i ∙ rw (sym at) (rw e refl))
                ],
                λ c' x m' e. v.same c' x m' e ∙ sym at,
              ),
            )
      ]
    ]
  ]
