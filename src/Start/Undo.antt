-- ===== src/Start/Undo.antt =====
-- What `iotrace_procfs_trace_file_deinit` leaves when not every CPU's file is ready.
use standalone_linux_io_trac.Base.{
  ℕ, ◌≡◌, sym, ◌∙◌, subst, true, false, List, [], ◌∷◌, arith, ◌==◌, elem, elem_ne, Distinct,
  Bool-cases, ◌⊎◌, inl, inr, ==→eq,
}
use mathlib.Core.Bool.{false≢true}
use standalone_linux_io_trac.Ring.{Files, deinit_files, trace_file_deinit}
use standalone_linux_io_trac.Ring.Deinit.{trace_file_deinit-Freed, trace_file_deinit_other}
use standalone_linux_io_trac.Start.RingFiles.{Ready, Blank}

module _ {T : Type 0} where
  -- The end of one CPU's file when the module could not be loaded.
  undo_one :
      (cpu : ℕ) (s : Files T) → Ready s cpu ⊎ Blank s cpu → Blank (trace_file_deinit cpu s) cpu
  unfolding trace_file_deinit
  undo_one cpu s (inl (one, up, h, t)) =
      let (r, i, h', t') = trace_file_deinit-Freed cpu s (one, up) in (i, h', t')
  undo_one cpu s (inr (i, h, t)) = rw i (i, h, t)

  undo_other :
      (cpu c : ℕ) (s : Files T)
      → Ready s cpu ⊎ Blank s cpu
      → (c == cpu) ≡ false
      → Ready s c ⊎ Blank s c
      → Ready (trace_file_deinit cpu s) c ⊎ Blank (trace_file_deinit cpu s) c
  unfolding trace_file_deinit
  undo_other cpu c s (inr (i, h, t)) n q = rw i q
  undo_other cpu c s (inl (one, up, h, t)) n q =
      let (r, i, h', t') = trace_file_deinit_other cpu c s (one, up) n in
      elim q [
        | inl (a, e, f, g) ↦ inl (r ∙ a, i ∙ e, h' ∙ f, t' ∙ g)
        | inr (e, f, g) ↦ inr (i ∙ e, h' ∙ f, t' ∙ g)
      ]

  Blank-other :
      (cpu c : ℕ) (s : Files T)
      → Ready s cpu ⊎ Blank s cpu
      → (c == cpu) ≡ false
      → Blank s c
      → Blank (trace_file_deinit cpu s) c
  unfolding trace_file_deinit
  Blank-other cpu c s (inr (i, h, t)) n q = rw i q
  Blank-other cpu c s (inl (one, up, h, t)) n (e, f, g) =
      let (r, i, h', t') = trace_file_deinit_other cpu c s (one, up) n in (i ∙ e, h' ∙ f, t' ∙ g)

  pub deinit_files-Blank :
      (cpus : List ℕ) (s : Files T)
      → Distinct cpus
      → ((c : ℕ) → elem c cpus ≡ true → Ready s c ⊎ Blank s c)
      → (c : ℕ) → (elem c cpus ≡ true) ⊎ Blank s c
      → Blank (deinit_files cpus s) c
  unfolding deinit_files
  deinit_files-Blank [] s d u c (inl e) = absurd (false≢true e)
  deinit_files-Blank [] s d u c (inr f) = f
  deinit_files-Blank (cpu ∷ cpus) s (out, d) u c w =
      let here = u cpu (ground arith) in
      deinit_files-Blank cpus (trace_file_deinit cpu s) d
        (λ c' i. undo_other cpu c' s here (elem_ne c' cpu cpus out i) (u c' (ground (arith, i)))) c
        (elim (Bool-cases (c == cpu)) [
          | inl e ↦
              inr
                (subst (Blank (trace_file_deinit cpu s)) (sym (==→eq _ _ e)) (undo_one cpu s here))
          | inr n ↦ elim w [
            | inl m ↦ inl (ground (arith, m, n))
            | inr q ↦ inr (Blank-other cpu c s here n q)
          ]
        ])
