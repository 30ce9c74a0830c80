-- ===== src/Start/FilesLoop.antt =====
-- The loop over the CPUs' files while the module is loaded.
use standalone_linux_io_trac.Base.{
  ℕ, ◌≡◌, refl, sym, ap, ◌∙◌, subst, true, false, List, [], ◌∷◌, ◌++◌, Option, some, arith, ◌==◌,
  elem, elem_ne, Distinct, Bool-cases, ◌⊎◌, inl, inr, ==→eq,
}
use mathlib.Core.Bool.{false≢true}
use mathlib.Core.List.{append_assoc, append-nil}
use standalone_linux_io_trac.Kernel.{Result, ok, err, is_ok}
use standalone_linux_io_trac.Ring.{Files, cpu_of}
use standalone_linux_io_trac.Start.{
  Entry, trace_ring, consumer_hdr, Boot, Module, trace_file_init, init_files,
}
use standalone_linux_io_trac.Start.RingFiles.{
  Ready, Blank, Done, Inited, trace_file_init-Inited, file_entries,
}

module _ {T : Type 0} (b : Boot) where
  -- The loop: on success every file is ready, else each is ready or blank.
  pub record FilesInited (cpus : List ℕ) (m : Module T) (r : Module T × Result (Unit {0}))
      : Type 0 where
    pub here : (c : ℕ) → elem c cpus ≡ true → Ready r.0.files c ⊎ Blank r.0.files c
    pub ready : is_ok r.1 ≡ true → (c : ℕ) → elem c cpus ≡ true → Ready r.0.files c
    pub other : (c : ℕ) → elem c cpus ≡ false → Ready m.files c → Ready r.0.files c
    pub client : r.0.files.client ≡ m.files.client
    pub module_refs : r.0.files.module_refs ≡ m.files.module_refs
    pub list_area : r.0.list_area ≡ m.list_area
    pub cpu_area : r.0.cpu_area ≡ m.cpu_area
    pub entries :
        (es : List Entry)
        → m.proc_dir ≡ some es
        → is_ok r.1 ≡ true
        → r.0.proc_dir ≡ some (es ++ file_entries cpus)

  Done-Ready :
      (s : Files T) (c : ℕ) (r : Result (Unit {0})) → is_ok r ≡ true → Done s c r → Ready s c
  Done-Ready s c (ok u) e d = d
  Done-Ready s c (err x) e d = absurd (false≢true e)

  Done-Blank :
      (s : Files T) (c : ℕ) (r : Result (Unit {0})) → is_ok r ≡ false → Done s c r → Blank s c
  Done-Blank s c (ok u) e d = absurd (false≢true (sym e))
  Done-Blank s c (err x) e d = d

  ring_of : Files T → ℕ → Option ℕ
  ring_of s c = (cpu_of s c).proc_files.trace_ring

  -- Another CPU's file is as before.
  kept-Ready :
      (m : Module T) (cpu c : ℕ) (r : Module T × Result (Unit {0}))
      → Inited m cpu r
      → (c == cpu) ≡ false
      → Ready m.files c
      → Ready r.0.files c
  kept-Ready m cpu c r v n (one, up, h, t) = (
    v.refs c n ∙ one,
    v.inited c n ∙ up,
    v.hdr c n ∙ h,
    ap (λ k. (k.ctx.cpu_context c).proc_files.trace_ring) v.client ∙ t,
  )

  kept-Blank :
      (m : Module T) (cpu c : ℕ) (r : Module T × Result (Unit {0}))
      → Inited m cpu r
      → (c == cpu) ≡ false
      → Blank m.files c
      → Blank r.0.files c
  kept-Blank m cpu c r v n (i, h, t) = (
    v.inited c n ∙ i,
    v.hdr c n ∙ h,
    ap (λ k. (k.ctx.cpu_context c).proc_files.trace_ring) v.client ∙ t,
  )

  files_failed :
      (cpus : List ℕ) (cpu : ℕ) (m : Module T) (r : Module T × Result (Unit {0}))
      → ((c : ℕ) → elem c (cpu ∷ cpus) ≡ true → Blank m.files c)
      → Inited m cpu r
      → is_ok r.1 ≡ false
      → FilesInited (cpu ∷ cpus) m r
  files_failed cpus cpu m r blank v e = record {
    here = λ c i. elim (Bool-cases (c == cpu)) [
      | inl s ↦
          inr (subst (Blank r.0.files) (sym (==→eq _ _ s)) (Done-Blank r.0.files cpu r.1 e v.here))
      | inr n ↦ inr (kept-Blank m cpu c r v n (blank c i))
    ];
    ready = λ o. absurd (false≢true (sym e ∙ o));
    other = λ c i q. kept-Ready m cpu c r v (ground (arith, i)) q;
    client = v.client;
    module_refs = v.module_refs;
    list_area = v.list_area;
    cpu_area = v.cpu_area;
    entries = λ es d o. absurd (false≢true (sym e ∙ o));
  }

  files_next :
      (cpus : List ℕ) (cpu : ℕ) (m : Module T) (r out : Module T × Result (Unit {0}))
      → elem cpu cpus ≡ false
      → Inited m cpu r
      → is_ok r.1 ≡ true
      → FilesInited cpus r.0 out
      → FilesInited (cpu ∷ cpus) m out
  files_next cpus cpu m r out d v e w =
      let mine : Ready out.0.files cpu = w.other cpu d (Done-Ready r.0.files cpu r.1 e v.here) in
      record {
        here = λ c i. elim (Bool-cases (c == cpu)) [
          | inl s ↦ inl (subst (Ready out.0.files) (sym (==→eq _ _ s)) mine)
          | inr n ↦ w.here c (ground (arith, i, n))
        ];
        ready = λ o c i. elim (Bool-cases (c == cpu)) [
          | inl s ↦ subst (Ready out.0.files) (sym (==→eq _ _ s)) mine
          | inr n ↦ w.ready o c (ground (arith, i, n))
        ];
        other =
            λ c i q. w.other c (ground (arith, i)) (kept-Ready m cpu c r v (ground (arith, i)) q);
        client = w.client ∙ v.client;
        module_refs = w.module_refs ∙ v.module_refs;
        list_area = w.list_area ∙ v.list_area;
        cpu_area = w.cpu_area ∙ v.cpu_area;
        entries = λ es x o.
            w.entries ((es ++ trace_ring cpu ∷ []) ++ consumer_hdr cpu ∷ []) (v.entries es x e) o
            ∙ ap some (
                append_assoc (es ++ trace_ring cpu ∷ []) (consumer_hdr cpu ∷ []) (file_entries cpus)
                ∙ append_assoc es (trace_ring cpu ∷ []) (consumer_hdr cpu ∷ file_entries cpus));
      }

  pub init_files-FilesInited :
      (cpus : List ℕ) (m : Module T)
      → Distinct cpus
      → ((c : ℕ) → elem c cpus ≡ true → Blank m.files c)
      → FilesInited cpus m (init_files b cpus m)
  unfolding init_files
  init_files-FilesInited [] m d blank = record {
    here = λ c i. absurd (false≢true i);
    ready = λ o c i. absurd (false≢true i);
    other = λ c i q. q;
    client = refl;
    module_refs = refl;
    list_area = refl;
    cpu_area = refl;
    entries = λ es x o. x ∙ ap some (sym (append-nil es));
  }
  init_files-FilesInited (cpu ∷ cpus) m (out, d) blank =
      let r = trace_file_init b m cpu in
      let v = trace_file_init-Inited b m cpu (blank cpu (ground arith)) in
      elim (Bool-cases (is_ok r.1)) [
        | inl e ↦ rw e (
            files_next cpus cpu m r (init_files b cpus r.0) out v e (
              init_files-FilesInited cpus r.0 d (λ c i.
                kept-Blank m cpu c r v (elem_ne c cpu cpus out i) (blank c (ground (arith, i))))))
        | inr e ↦ rw e (files_failed cpus cpu m r blank v e)
      ]
