-- ===== src/Ring/Deinit.antt =====
-- The end of the ring files: what `iotrace_procfs_deinit` frees.
use standalone_linux_io_trac.Base.{
  ℕ, ◌+◌, ◌-◌, ◌%◌, ◌^◌, ◌≡◌, refl, sym, ap, ◌∙◌, subst, count, true, false, List, [], ◌∷◌, none,
  arith, ◌==◌, elem, elem_ne, Distinct, Bool-cases, ◌⊎◌, inl, inr, ==→eq,
}
use mathlib.Core.Bool.{false≢true}
use standalone_linux_io_trac.Context.{BlockDevice}
use standalone_linux_io_trac.Ring.{
  Files, cpu_of, iotrace_free, kref_put, trace_file_deinit, deinit_files,
}
use standalone_linux_io_trac.Ring.Held.{System, Consistent}
use standalone_linux_io_trac.Ring.Opens.{Reach, Reach-Consistent}

module _ {T : Type 0} where
  -- The file of a CPU has only the module's own reference.
  abbrev pub Unused : Files T → ℕ → Type 0
  Unused s c = (s.refs c ≡ 1) × (s.inited c ≡ true)

  -- Nothing of it is left.
  abbrev pub Freed : Files T → ℕ → Type 0
  Freed s c =
      (s.refs c ≡ 0)
      × (s.inited c ≡ false)
      × (s.consumer_hdr c ≡ false)
      × ((cpu_of s c).proc_files.trace_ring ≡ none)

  pub trace_file_deinit-Freed :
      (cpu : ℕ) (s : Files T) → Unused s cpu → Freed (trace_file_deinit cpu s) cpu
  unfolding trace_file_deinit kref_put iotrace_free
  trace_file_deinit-Freed cpu s (one, up) =
      let last : (s.refs cpu + (2 ^ 32 - 1)) % 2 ^ 32 ≡ 0 = omega (arith, one) in
      let same : (cpu == cpu) ≡ true = ground arith in
      rw up (rw last (rw same (refl, refl, refl, refl)))

  -- Another CPU's file is as before.
  pub trace_file_deinit_other :
      (cpu c : ℕ) (s : Files T)
      → Unused s cpu
      → (c == cpu) ≡ false
      → ((trace_file_deinit cpu s).refs c ≡ s.refs c)
        × ((trace_file_deinit cpu s).inited c ≡ s.inited c)
        × ((trace_file_deinit cpu s).consumer_hdr c ≡ s.consumer_hdr c)
        × ((cpu_of (trace_file_deinit cpu s) c).proc_files.trace_ring
            ≡ (cpu_of s c).proc_files.trace_ring)
  unfolding trace_file_deinit kref_put iotrace_free
  trace_file_deinit_other cpu c s (one, up) ne =
      let last : (s.refs cpu + (2 ^ 32 - 1)) % 2 ^ 32 ≡ 0 = omega (arith, one) in
      rw up (rw last (rw ne (refl, refl, refl, refl)))

  deinit_files-Freed :
      (cpus : List ℕ) (s : Files T)
      → Distinct cpus
      → ((c : ℕ) → elem c cpus ≡ true → Unused s c)
      → (c : ℕ) → (elem c cpus ≡ true) ⊎ Freed s c
      → Freed (deinit_files cpus s) c
  unfolding deinit_files
  deinit_files-Freed [] s d u c (inl e) = absurd (false≢true e)
  deinit_files-Freed [] s d u c (inr f) = f
  deinit_files-Freed (cpu ∷ cpus) s d u c w =
      let next = trace_file_deinit cpu s in
      let here = u cpu (ground arith) in
      let apart : (c' : ℕ) → elem c' cpus ≡ true → (c' == cpu) ≡ false =
        λ c' m. elem_ne c' cpu cpus d.0 m in
      deinit_files-Freed cpus next d.1
        (λ c' m.
          let (r, i, h, t) = trace_file_deinit_other cpu c' s here (apart c' m) in
          let (one, up) = u c' (ground (arith, m)) in (r ∙ one, i ∙ up))
        c
        (elim (Bool-cases (c == cpu)) [
          | inl e ↦
              inr (subst (Freed next) (sym (==→eq _ _ e)) (trace_file_deinit-Freed cpu s here))
          | inr n ↦ elim w [
            | inl m ↦ inl (ground (arith, m, n))
            | inr (a, b, h, t) ↦
                let (r, i, h', t') = trace_file_deinit_other cpu c s here n in
                inr (r ∙ a, i ∙ b, h' ∙ h, t' ∙ t)
          ]
        ])

module _ {T : Type 0} (dev : ℕ → BlockDevice) (cpus : List ℕ) (d : Distinct cpus) where
  -- However the ring files were opened and released, from a consistent state: once none is open,
  -- `iotrace_procfs_deinit` drops the last reference to the file of every online CPU, and both
  -- its buffers are freed.
  pub Reach-Freed :
      (x y : System T) (c : ℕ)
      → Reach dev cpus d x y
      → Consistent dev cpus x
      → y.open_files ≡ []
      → elem c cpus ≡ true
      → Freed (deinit_files cpus y.files) c
  Reach-Freed x y c r v none_open m =
      let v' = Reach-Consistent dev cpus d r v in
      deinit_files-Freed cpus y.files d
        (λ c' m'. (v'.refs c' m' ∙ ap (λ l. 1 + count c' l) none_open, v'.inited c' m')) c (inl m)
