-- ===== src/Monitor/Tracers.antt =====
-- What a tracer that comes or goes does to the sharing of the monitor.
use standalone_linux_io_trac.Base.{
  ℕ, suc, ◌+◌, ◌≡◌, refl, sym, ap, ◌∙◌, true, List, Option, none, some, some_eq, arith, ◌==◌,
  if◌then◌else◌, elem, Distinct, Bool-cases, inl, inr, ==→eq, none_is_not,
}
use standalone_linux_io_trac.Kernel.{set_cpu, set_here, set_there}
use standalone_linux_io_trac.Monitor.{Monitors, put_heap}
use standalone_linux_io_trac.Monitor.Sharing.{uses, users, tally_same, tally_raise}
use standalone_linux_io_trac.Monitor.Init.{of_users, OneMonitor, Got}

no_fsm : {q : ℕ} → ¬ (some none ≡ some (some q))
no_fsm p = cc

module _ (cpus : List ℕ) where
  -- A CPU without a tracer is as one whose tracer is set to `NULL`.
  pub cleared-OneMonitor :
      (cpu : ℕ) (w : Monitors)
      → OneMonitor cpus w
      → w.tracers cpu ≡ none
      → OneMonitor cpus (record w { tracers = set_cpu w.tracers cpu none })
  cleared-OneMonitor cpu w v e =
      let as_was : (c : ℕ) → set_cpu w.tracers cpu none c ≡ w.tracers c = λ c.
        elim (Bool-cases (c == cpu)) [
          | inl s ↦ rw s (sym (ap w.tracers (==→eq c cpu s) ∙ e))
          | inr n ↦ rw n refl
        ] in
      let n =
        tally_same (λ c. uses (set_cpu w.tracers cpu none c)) (λ c. uses (w.tracers c)) cpus
          (λ c m. ap uses (as_was c)) in
      record {
        place = v.place;
        heap = λ i. rw n (v.heap i);
        same = λ c q m h. v.same c q m (sym (as_was c) ∙ h);
      }

  -- A tracer that got its monitor is put on its CPU.
  pub placed-OneMonitor :
      (cpu : ℕ) (w w1 : Monitors) (fsm : Option ℕ)
      → Distinct cpus
      → elem cpu cpus ≡ true
      → OneMonitor cpus w
      → w.tracers cpu ≡ none
      → Got cpus w (w1, fsm)
      → OneMonitor cpus (record w1 { tracers = set_cpu w1.tracers cpu (some fsm) })
  placed-OneMonitor cpu w w1 none d m v e (t, h) =
      let off : (c : ℕ) → uses (set_cpu w1.tracers cpu (some none) c) ≡ uses (w.tracers c) = λ c.
        elim (Bool-cases (c == cpu)) [
          | inl i ↦ rw i (sym (ap (λ x. uses (w.tracers x)) (==→eq c cpu i) ∙ ap uses e))
          | inr n ↦ rw n (ap (λ f. uses (f c)) t)
        ] in
      let n =
        tally_same (λ c. uses (set_cpu w1.tracers cpu (some none) c)) (λ c. uses (w.tracers c)) cpus
          (λ c i. off c) in
      record {
        place = v.place;
        heap = λ i. rw n (ap (λ f. f i) h ∙ v.heap i);
        same = λ c q i g. elim (Bool-cases (c == cpu)) [
          | inl z ↦ absurd (no_fsm (sym (set_here w1.tracers (some none) c cpu z) ∙ g))
          | inr z ↦
              v.same c q i (sym (set_there w1.tracers (some none) c cpu z ∙ ap (λ f. f c) t) ∙ g)
        ];
      }
  placed-OneMonitor cpu w w1 (some p) d m v e (t, h, s) =
      let n =
        tally_raise (λ c. uses (w.tracers c)) (λ c. uses (set_cpu w1.tracers cpu (some (some p)) c))
          cpu cpus d m (ap uses e)
          (ap uses (set_here w1.tracers (some (some p)) cpu cpu (ground arith)))
          (λ c z. ap uses (sym (set_there w1.tracers (some (some p)) c cpu z ∙ ap (λ f. f c) t))) in
      let more : suc (users cpus w) ≡ users cpus w + 1 = omega arith in
      record {
        place = p;
        heap = λ i. rw n (h i ∙ ap (λ k. if i == p then of_users k else none) more);
        same = λ c q i g. elim (Bool-cases (c == cpu)) [
          | inl z ↦ sym (some_eq (some_eq (sym (set_here w1.tracers (some (some p)) c cpu z) ∙ g)))
          | inr z ↦
              s c q i (sym (set_there w1.tracers (some (some p)) c cpu z ∙ ap (λ f. f c) t) ∙ g)
        ];
      }

  -- Behind a tracer that had no monitor, and behind one that had it.
  pub left_none-OneMonitor :
      (cpu : ℕ) (w : Monitors)
      → OneMonitor cpus w
      → w.tracers cpu ≡ some none
      → OneMonitor cpus (record w { tracers = set_cpu w.tracers cpu none })
  left_none-OneMonitor cpu w v e =
      let off : (c : ℕ) → uses (set_cpu w.tracers cpu none c) ≡ uses (w.tracers c) = λ c.
        elim (Bool-cases (c == cpu)) [
          | inl i ↦ rw i (sym (ap (λ x. uses (w.tracers x)) (==→eq c cpu i) ∙ ap uses e))
          | inr n ↦ rw n refl
        ] in
      let n =
        tally_same (λ c. uses (set_cpu w.tracers cpu none c)) (λ c. uses (w.tracers c)) cpus
          (λ c i. off c) in
      record {
        place = v.place;
        heap = λ i. rw n (v.heap i);
        same = λ c q i g. elim (Bool-cases (c == cpu)) [
          | inl z ↦ absurd (none_is_not (sym (set_here w.tracers none c cpu z) ∙ g))
          | inr z ↦ v.same c q i (sym (set_there w.tracers none c cpu z) ∙ g)
        ];
      }

  pub left_user-OneMonitor :
      (cpu q n : ℕ) (w : Monitors)
      → Distinct cpus
      → elem cpu cpus ≡ true
      → OneMonitor cpus w
      → w.tracers cpu ≡ some (some q)
      → users cpus w ≡ suc n
      → OneMonitor cpus
          (record (put_heap w q (of_users n)) { tracers = set_cpu w.tracers cpu none })
  left_user-OneMonitor cpu q n w d m v e count =
      let at = v.same cpu q m e in
      let one =
        tally_raise (λ c. uses (set_cpu w.tracers cpu none c)) (λ c. uses (w.tracers c)) cpu cpus d
          m (ap uses (set_here w.tracers none cpu cpu (ground arith))) (ap uses e)
          (λ c z. ap uses (set_there w.tracers none c cpu z)) in
      let left : users cpus (record w { tracers = set_cpu w.tracers cpu none }) ≡ n =
        omega (arith, one, count) in
      record {
        place = q;
        heap = λ i. elim (Bool-cases (i == q)) [
          | inl z ↦ rw (z, left) refl
          | inr z ↦ rw z (v.heap i ∙ rw (sym at) (rw z refl))
        ];
        same = λ c x i g. elim (Bool-cases (c == cpu)) [
          | inl z ↦ absurd (none_is_not (sym (set_here w.tracers none c cpu z) ∙ g))
          | inr z ↦ v.same c x i (sym (set_there w.tracers none c cpu z) ∙ g) ∙ sym at
        ];
      }
