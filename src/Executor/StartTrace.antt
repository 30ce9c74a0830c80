-- ===== src/Executor/StartTrace.antt =====
-- `startTrace` on the kernel module: all devices, or none.
use standalone_linux_io_trac.Base.{
  ℕ, ◌+◌, ◌≡◌, refl, sym, ap, ◌∙◌, subst, Bool, true, false, List, ◌∷◌, [], ◌++◌, Option, some,
  arith, ◌==◌, count, elem, Distinct, inl, inr, tally-append,
}
use mathlib.Core.List.{append_assoc, append-nil}
use standalone_linux_io_trac.Kernel.{ok, is_ok, Result-cases}
use standalone_linux_io_trac.Context.{Context}
use standalone_linux_io_trac.Trace.{Octf}
use standalone_linux_io_trac.Bdev.{Devices}
use standalone_linux_io_trac.Bdev.Invariant.{Tracks}
use standalone_linux_io_trac.Bdev.AddPath.{add_decision, with_added}
use standalone_linux_io_trac.Bdev.Remove.{RemovedFrom}
use standalone_linux_io_trac.Bdev.RemovePath.{remove_result, NowTraced}
use standalone_linux_io_trac.Executor.{
  File, Executor, Ended, returns, throws, cannot_start, stop_loop, stop_devices, signalled,
  start_loop, start_trace,
}
use standalone_linux_io_trac.Executor.Kernel.{kernel_procfs, added, removed}
use standalone_linux_io_trac.Executor.Paths.{AllPaths, PathsOf, decided, PathsOf-snoc}

module _ {T H : Type 0} (o : Octf T H) (k : Devices) (cpus : List ℕ) (cpu : ℕ)
    (size : File (Context T)) (version : Context T → Option (ℕ × ℕ × ℕ)) (d : Distinct cpus) where
  -- The devices `cur` are traced: those of `ds`, and those of `more`.
  abbrev Plus : List ℕ → List ℕ → List ℕ → Type 0
  Plus ds more cur = (a : ℕ) → count a cur ≡ count a ds + count a more

  abbrev pub SameDevices : List ℕ → List ℕ → Type 0
  SameDevices ds ds' = (a : ℕ) → count a ds' ≡ count a ds

  -- Removing the devices that were added.
  stop_loop_lem :
      (paths : List (List ℕ)) (more ds cur : List ℕ) (s : Context T)
      → PathsOf k paths more
      → Plus ds more cur
      → Tracks k.dev cpus cur s
      → elem cpu cpus ≡ true
      → s.locked ≡ false
      → (s' : Context T) × (cur' : List ℕ) × (stop_loop
            (kernel_procfs o k cpus cpu size version)
            paths
            s
          ≡ some s')
        × Tracks k.dev cpus cur' s'
        × SameDevices ds cur'
        × (s'.locked ≡ false)
  unfolding stop_loop
  stop_loop_lem [] [] ds cur s p plus t on free = (s, cur, refl, t, λ a. plus a ∙ omega arith, free)
  stop_loop_lem [] (x ∷ more) ds cur s p plus t on free = absurd p
  stop_loop_lem (path ∷ paths) [] ds cur s p plus t on free = absurd p
  stop_loop_lem (path ∷ paths) (x ∷ more) ds cur s (look, short, ok_path, p) plus t on free =
      let (s1, cur1, run, t1, now, free1) =
        removed o k cpus cpu size version d path cur s t on free ok_path in
      let left : (count x cur == 0) ≡ false = ground (arith, plus x) in
      let gone : remove_result k path cur ≡ ok tt = rw short (rw look (rw left refl)) in
      let less : RemovedFrom x cur cur1 =
        subst (λ r. NowTraced (ok x) r cur cur1) gone
          (subst (λ f. NowTraced f (remove_result k path cur) cur cur1) look now) in
      let (s2, cur2, run2, t2, same, free2) =
        stop_loop_lem paths more ds cur1 s1 p (λ a. ground (arith, less a, plus a)) t1 on free1 in
      (s2, cur2, rw run run2, t2, same, free2)

  -- What `startTrace` leaves, with `signals` sent before: all the devices traced behind `ds`, in order, and remembered; or an
  -- exception, `SIGTERM` sent, none remembered and the traced devices those of `ds` again.
  abbrev pub AllOrNone : List ℕ → List (List ℕ) → ℕ → Executor → Context T → Ended Bool → Type 0
  AllOrNone ds paths signals x' s' (returns b) =
      (b ≡ true)
      × (x'.started_devices ≡ paths)
      × ((more : List ℕ) × PathsOf k paths more × Tracks k.dev cpus (ds ++ more) s')
  AllOrNone ds paths signals x' s' (throws e) =
      (x'.started_devices ≡ [])
      × (x'.signals ≡ signals + 1)
      × ((ds' : List ℕ) × SameDevices ds ds' × Tracks k.dev cpus ds' s')

  start_loop_lem :
      (todo : List (List ℕ)) (x : Executor) (more ds : List ℕ) (s : Context T)
      → PathsOf k x.started_devices more
      → AllPaths k todo
      → Tracks k.dev cpus (ds ++ more) s
      → elem cpu cpus ≡ true
      → s.locked ≡ false
      → (x' : Executor) × (s' : Context T) × (r : Ended Bool) × (start_loop
            (kernel_procfs o k cpus cpu size version)
            todo
            x
            s
          ≡ some (x', s', r))
        × AllOrNone ds (x.started_devices ++ todo) x.signals x' s' r
        × (s'.locked ≡ false)
  unfolding start_loop stop_devices
  start_loop_lem [] x more ds s p a t on free = (
    x,
    s,
    returns true,
    refl,
    (
      refl,
      sym (append-nil x.started_devices),
      (more, subst (λ l. PathsOf k l more) (sym (append-nil x.started_devices)) p, t),
    ),
    free,
  )
  start_loop_lem (path ∷ todo) x more ds s p (is_path, res, a) t on free =
      let (s1, run, t1, free1) =
        added o k cpus cpu size version d path (ds ++ more) s t on free is_path in
      elim (Result-cases (add_decision k path (ds ++ more) s.trace_state.clients)) [
        | inl (dev, e) ↦
            let (look, short) = decided k path (ds ++ more) s.trace_state.clients dev res e in
            let wrote = run ∙ ap (λ r. some (s1, is_ok r)) e in
            let t2 : Tracks k.dev cpus (ds ++ (more ++ dev ∷ [])) s1 =
              subst (λ l. Tracks k.dev cpus l s1) (append_assoc ds more (dev ∷ []))
                (subst (λ r. Tracks k.dev cpus (with_added (ds ++ more) r) s1) e t1) in
            let x1 = record x { started_devices = x.started_devices ++ path ∷ [] } in
            let (x', s', r, run', out, free') =
              start_loop_lem todo x1 (more ++ dev ∷ []) ds s1
                (PathsOf-snoc k x.started_devices more path dev p look short is_path) a t2 on
                free1 in
            (
              x',
              s',
              r,
              rw wrote run',
              subst (λ l. AllOrNone ds l x.signals x' s' r)
                  (append_assoc x.started_devices (path ∷ []) todo) out,
              free',
            )
        | inr (code, e) ↦
            let wrote = run ∙ ap (λ r. some (s1, is_ok r)) e in
            let t2 = subst (λ r. Tracks k.dev cpus (with_added (ds ++ more) r) s1) e t1 in
            let (s2, cur, run', t3, same, free2) =
              stop_loop_lem x.started_devices more ds (ds ++ more) s1 p
                (λ b. tally-append (λ y. y == b) ds more) t2 on free1 in
            (
              signalled (kernel_procfs o k cpus cpu size version)
                  (record x { started_devices = [] }),
              s2,
              throws (cannot_start path),
              rw wrote (rw run' refl),
              (refl, refl, (cur, same, t3)),
              free2,
            )
      ]

  -- On the loaded module with the devices `ds` tracked, the mutex free and memory at hand, for
  -- an executor that has started nothing and paths of less than 4095 bytes without NUL, each
  -- looked up as the device that it opens: `startTrace` comes back, and either returns true with
  -- every device traced, behind `ds` and in their order, or throws, has sent `SIGTERM` and has
  -- removed again every device that it had added, so that each device is traced as before.
  pub start_trace-AllOrNone :
      (x : Executor) (ds : List ℕ) (s : Context T)
      → x.started_devices ≡ []
      → AllPaths k x.devices
      → Tracks k.dev cpus ds s
      → elem cpu cpus ≡ true
      → s.locked ≡ false
      → (x' : Executor) × (s' : Context T) × (r : Ended Bool) × (start_trace
            (kernel_procfs o k cpus cpu size version)
            x
            s
          ≡ some (x', s', r))
        × AllOrNone ds x.devices x.signals x' s' r
        × (s'.locked ≡ false)
  unfolding start_trace
  start_trace-AllOrNone x ds s fresh a t on free =
      let (x', s', r, run, out, free') =
        start_loop_lem x.devices x [] ds s (subst (λ l. PathsOf k l []) (sym fresh) tt) a
          (subst (λ l. Tracks k.dev cpus l s) (sym (append-nil ds)) t) on free in
      (
        x',
        s',
        r,
        run,
        subst (λ l. AllOrNone ds (l ++ x.devices) x.signals x' s' r) fresh out,
        free',
      )
