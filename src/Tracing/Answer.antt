-- ===== src/Tracing/Answer.antt =====
-- `StartTracing` answers once, and reports success only for a trace that ran to its end.
use standalone_linux_io_trac.Base.{
  ℕ, ◌≡◌, ◌≢◌, ◌↔◌, none_is_not, refl, sym, ap, ◌∙◌, Bool, true, false, List, Option, none, some,
  some_eq, Option-cases, Bool-cases, ◌++◌, ◌∷◌, [], inl, inr,
}
use standalone_linux_io_trac.Executor.{
  Procfs, Exception, Ended, returns, throws, Executor, new_executor, write_procfs, compatible,
  sized, not_loaded, incompatible,
}
use standalone_linux_io_trac.Executor.Polling.{failure, ended, probe_module_ends}
use standalone_linux_io_trac.Tracing.{
  Request, Jobs, Manager, Host, Failure, Reply, refused_parameter, failed_by, stopped_jobs,
  started_jobs, with_executor, with_module, attempt, replied, start_tracing,
}
use standalone_linux_io_trac.Tracing.Limits.{InLimits, refused_parameter-none}

-- Every call of the manager, and every write to the file `size`, comes back.
pub record ComesBack {S M : Type 0} (k : Procfs S) (g : Manager S M) : Type 0 where
  pub size : (text : List ℕ) (s : S) → (out : S × Bool) × (k.size.write text s ≡ some out)
  pub start :
      (r : Request) (j : Jobs S M)
      → (out : Jobs S M × Ended (Unit {0})) × (g.start_jobs r j ≡ some out)
  pub wait : (j : Jobs S M) → (j' : Jobs S M) × (g.wait_until_stop_trace j ≡ some j')
  pub stop : (j : Jobs S M) → (out : Jobs S M × Ended (Unit {0})) × (g.stop_jobs j ≡ some out)

module _ {S M : Type 0} (g : Manager S M) where
  -- The jobs ended with the manager in the state `COMPLETE`.
  abbrev pub Completed : Jobs S M × Ended (Unit {0}) → Type 0
  Completed (j, throws e) = ⊥
  Completed (j, returns u) = g.is_complete j.manager ≡ true

  -- The jobs started, and after the wait they were stopped and completed.
  abbrev pub RanToEnd : Jobs S M × Ended (Unit {0}) → Type 0
  RanToEnd (j, throws e) = ⊥
  RanToEnd (j, returns u) =
      (j' : Jobs S M) × (out : Jobs S M × Ended (Unit {0})) × (g.wait_until_stop_trace j ≡ some j')
      × (g.stop_jobs j' ≡ some out)
      × Completed out

  -- The executor was made, and its jobs ran to their end.
  abbrev pub Traced : Request → S × Ended Executor → Type 0
  Traced r (s, throws e) = ⊥
  Traced r (s, returns x) =
      (out : Jobs S M × Ended (Unit {0})) × (g.start_jobs r
          (record { manager = g.create; executor = x; files = s })
        ≡ some out)
      × RanToEnd out

  stopped_lem :
      (out : Jobs S M × Ended (Unit {0})) → ((stopped_jobs g out).1 ≡ none) ↔ Completed out
  stopped_lem (j, throws e) = ((λ p. cc), (λ p. absurd p))
  stopped_lem (j, returns u) = elim (Bool-cases (g.is_complete j.manager)) [
    | inl y ↦ rw y ((λ p. refl), (λ p. refl))
    | inr n ↦ rw n ((λ p. cc), (λ p. cc))
  ]

  -- The outcome of a part of the attempt: it comes back, and reports no failure exactly if `P`.
  abbrev Reports : Option (S × Option Failure) → Type 0 → Type 0
  Reports run P = (end : S × Option Failure) × (run ≡ some end) × ((end.1 ≡ none) ↔ P)

  -- Two ends of one run are the same.
  same_end :
      {run : Option (S × Option Failure)} (e e' : S × Option Failure)
      → run ≡ some e
      → run ≡ some e'
      → e'.1 ≡ none
      → e.1 ≡ none
  same_end e e' p q f = ap (λ x. x.1) (some_eq (sym p ∙ q)) ∙ f

  module _ (k : Procfs S) (b : ComesBack k g) where
    started_lem : (out : Jobs S M × Ended (Unit {0})) → Reports (started_jobs g out) (RanToEnd out)
    started_lem (j, throws e) = ((j.files, some (failed_by e)), refl, ((λ p. cc), (λ p. absurd p)))
    started_lem (j, returns u) =
        let (j', w) = b.wait j in
        let (out, p) = b.stop j' in
        let run : started_jobs g (j, returns u) ≡ some (stopped_jobs g out) = rw w (rw p refl) in
        (
          stopped_jobs g out,
          run,
          (
            (λ q. (j', out, w, p, (stopped_lem out).0 q)),
            λ (i, o, w', p', c).
                same_end (stopped_jobs g out) (stopped_jobs g o) run (rw w' (rw p' refl))
                  ((stopped_lem o).1 c),
          ),
        )

    executor_lem :
        (r : Request) (made : S × Ended Executor) → Reports (with_executor g r made) (Traced r made)
    executor_lem r (s, throws e) = ((s, some (failed_by e)), refl, ((λ p. cc), (λ p. absurd p)))
    executor_lem r (s, returns x) =
        let (out, p) = b.start r (record { manager = g.create; executor = x; files = s }) in
        let (end, q, f) = started_lem out in
        let run : with_executor g r (s, returns x) ≡ some end = rw p q in
        (
          end,
          run,
          (
            (λ n. (out, p, f.0 n)),
            λ (o, p', c).
                let (end', q', f') = started_lem o in same_end end end' run (rw p' q') (f'.1 c),
          ),
        )

module _ {S M : Type 0} (own_magic own_major : ℕ) (show : ℕ → List ℕ) (k : Procfs S)
    (g : Manager S M) (h : Host S) where
  -- What a trace needs to run to its end.
  abbrev pub Success : Request → S → Type 0
  Success r s =
      InLimits r
      × (failure h.probing ≡ none)
      × ((made : S × Ended Executor) × (new_executor k own_magic own_major r.device_paths
              (show r.circ_buffer_size) (h.reloaded s)
            ≡ some made)
          × Traced g r made)

  module _ (b : ComesBack k g) where
    write_lem : (text : List ℕ) (s : S) → (out : S × Bool) × (write_procfs k.size text s ≡ some out)
    unfolding write_procfs
    write_lem text s = elim (Bool-cases (k.size.opens s)) [
      | inl o ↦ let (out, w) = b.size (text ++ b'\n' ∷ []) s in (out, rw o w)
      | inr o ↦ ((s, false), rw o refl)
    ]

    made_lem :
        (devices : List (List ℕ)) (text : List ℕ) (s : S)
        → (made : S × Ended Executor) × (new_executor k own_magic own_major devices text s
            ≡ some made)
    unfolding new_executor
    made_lem devices text s = elim (Option-cases (k.version s)) [
      | inl n ↦ ((s, throws not_loaded), rw (n, new_executor) refl)
      | inr (v, e) ↦ elim (Bool-cases (compatible own_magic own_major v)) [
        | inl c ↦
            let (out, w) = write_lem text s in
            (sized k devices out, rw (e, new_executor) (rw c (rw w refl)))
        | inr c ↦ ((s, throws incompatible), rw (e, new_executor) (rw c refl))
      ]
    ]

    module_lem :
        (r : Request) (s : S) (f : Option Exception)
        → Reports g (with_module own_magic own_major show k g h r (h.reloaded s) (ended f)) (
            (f ≡ none)
            × ((made : S × Ended Executor) × (new_executor k own_magic own_major r.device_paths
                    (show r.circ_buffer_size)
                    (h.reloaded s)
                  ≡ some made)
                × Traced g r made))
    module_lem r s (some e) =
        ((h.reloaded s, some (failed_by e)), refl, ((λ p. cc), (λ (p, q). cc)))
    module_lem r s none =
        let (made, m) = made_lem r.device_paths (show r.circ_buffer_size) (h.reloaded s) in
        let (end, q, f) = executor_lem g k b r made in
        let run : with_module own_magic own_major show k g h r (h.reloaded s) (returns tt)
            ≡ some end =
          rw m q in
        (
          end,
          run,
          (
            (λ n. (refl, (made, m, f.0 n))),
            λ (z, (made', m', t)).
                let (end', q', f') = executor_lem g k b r made' in
                same_end g end end' run (rw m' q') (f'.1 t),
          ),
        )

    attempt_lem :
        (r : Request) (s : S) → Reports g (attempt own_magic own_major show k g h r s) (Success r s)
    unfolding attempt
    attempt_lem r s = elim (Option-cases (refused_parameter r)) [
      | inr (e, bad) ↦ (
        (s, some (failed_by e)),
        rw (bad, attempt) refl,
        ((λ p. cc), λ (l, p, q). absurd (none_is_not (sym ((refused_parameter-none r).1 l) ∙ bad))),
      )
      | inl good ↦
          let (end, run, f) = module_lem r s (failure h.probing) in
          (
            end,
            rw (good, attempt) (rw (probe_module_ends h.probing) run),
            (
              (λ n. let (p, q) = f.0 n in ((refused_parameter-none r).0 good, p, q)),
              λ (l, p, q). f.1 (p, q),
            ),
          )
    ]

    refused_untouched :
        (r : Request) (s : S)
        → ¬ (InLimits r)
        → (f : Failure) × (attempt own_magic own_major show k g h r s ≡ some (s, some f))
    unfolding attempt
    refused_untouched r s out = elim (Option-cases (refused_parameter r)) [
      | inr (e, bad) ↦ (failed_by e, rw (bad, attempt) refl)
      | inl good ↦ absurd (out ((refused_parameter-none r).0 good))
    ]

    -- If every call of the manager and every write to the file `size` comes back, `StartTracing`
    -- does: it runs `done` once, behind the command that removes the module. It reports no failure
    -- exactly if the parameters lie between their limits, the module was reloaded, the executor was
    -- made of it, and the jobs started, were stopped and completed. If a parameter is out of its
    -- limits it reports a failure, and nothing but that last command touches the module.
    pub start_tracing-Answers :
        (r : Request) (s : S)
        → (s' : S) × (reply : Reply) × (start_tracing own_magic own_major show k g h r s
            ≡ some (h.unloaded s', reply))
          × (reply.done ≡ 1)
          × ((reply.failed ≡ none) ↔ Success r s)
          × (¬ (InLimits r) → (s' ≡ s) × (reply.failed ≢ none))
    unfolding start_tracing
    start_tracing-Answers r s =
        let ((s', failed), run, f) = attempt_lem r s in
        (
          s',
          (replied own_magic own_major show k g h (s', failed)).1,
          rw run refl,
          refl,
          f,
          λ out.
              let (x, stays) = refused_untouched r s out in
              let same = some_eq (sym run ∙ stays) in
              (ap (λ e. e.0) same, λ n. none_is_not (sym n ∙ ap (λ e. e.1) same)),
        )
