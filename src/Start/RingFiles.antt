-- ===== src/Start/RingFiles.antt =====
-- The ring files of the CPUs while the module is loaded: each is ready, or nothing of it is there.
use standalone_linux_io_trac.Base.{
  ℕ, ◌≡◌, refl, true, false, List, [], ◌∷◌, ◌++◌, none, some, arith, ◌==◌, leb, ◌||◌, length,
  Bool-cases, inl, inr,
}
use mathlib.Core.Bool.{false≢true}
use standalone_linux_io_trac.Kernel.{Result, ok, err, is_ok}
use standalone_linux_io_trac.Ring.{Files, cpu_of}
use standalone_linux_io_trac.Start.{
  Entry, trace_ring, consumer_hdr, Boot, Module, ring_path, hdr_path, trace_file_init,
}

module _ {T : Type 0} where
  -- A file that can be opened, and one of which nothing is allocated.
  abbrev pub Ready : Files T → ℕ → Type 0
  Ready s c =
      (s.refs c ≡ 1)
      × (s.inited c ≡ true)
      × (s.consumer_hdr c ≡ true)
      × ((cpu_of s c).proc_files.trace_ring ≡ none)

  abbrev pub Blank : Files T → ℕ → Type 0
  Blank s c =
      (s.inited c ≡ false)
      × (s.consumer_hdr c ≡ false)
      × ((cpu_of s c).proc_files.trace_ring ≡ none)

  abbrev pub Done : Files T → ℕ → Result (Unit {0}) → Type 0
  Done s c (ok u) = Ready s c
  Done s c (err e) = Blank s c

  -- What the creation of one CPU's file may change.
  pub record Inited (m : Module T) (cpu : ℕ) (r : Module T × Result (Unit {0})) : Type 0 where
    pub here : Done r.0.files cpu r.1
    pub refs : (c : ℕ) → (c == cpu) ≡ false → r.0.files.refs c ≡ m.files.refs c
    pub inited : (c : ℕ) → (c == cpu) ≡ false → r.0.files.inited c ≡ m.files.inited c
    pub hdr : (c : ℕ) → (c == cpu) ≡ false → r.0.files.consumer_hdr c ≡ m.files.consumer_hdr c
    pub client : r.0.files.client ≡ m.files.client
    pub module_refs : r.0.files.module_refs ≡ m.files.module_refs
    pub list_area : r.0.list_area ≡ m.list_area
    pub cpu_area : r.0.cpu_area ≡ m.cpu_area
    pub entries :
        (es : List Entry)
        → m.proc_dir ≡ some es
        → is_ok r.1 ≡ true
        → r.0.proc_dir ≡ some ((es ++ trace_ring cpu ∷ []) ++ consumer_hdr cpu ∷ [])

-- The entries of the CPUs' files.
abbrev pub file_entries : List ℕ → List Entry
file_entries [] = []
file_entries (cpu ∷ cpus) = trace_ring cpu ∷ consumer_hdr cpu ∷ file_entries cpus

module _ {T : Type 0} (b : Boot) where
  pub trace_file_init-Inited :
      (m : Module T) (cpu : ℕ) → Blank m.files cpu → Inited m cpu (trace_file_init b m cpu)
  unfolding trace_file_init
  trace_file_init-Inited m cpu (i, h, t) =
      let same : (cpu == cpu) ≡ true = ground arith in
      elim (Bool-cases (leb 128 (length (ring_path b cpu)) || leb 128 (length (hdr_path b cpu)))) [
        | inl e ↦ rw e (record {
          here = (i, h, t);
          refs = λ c n. ground (arith, n);
          inited = λ c n. ground (arith, n);
          hdr = λ c n. ground (arith, n);
          client = refl;
          module_refs = refl;
          list_area = refl;
          cpu_area = refl;
          entries = λ es d o. absurd (false≢true o);
        })
        | inr e ↦ elim (Bool-cases (b.vmalloc_user cpu)) [
          | inr v ↦
              rw (e, v)
                (record {
                  here = (i, ground (arith, h, same), t);
                  refs = λ c n. ground (arith, n);
                  inited = λ c n. ground (arith, n);
                  hdr = λ c n. ground (arith, n);
                  client = refl;
                  module_refs = refl;
                  list_area = refl;
                  cpu_area = refl;
                  entries = λ es d o. absurd (false≢true o);
                })
          | inl v ↦ elim (Bool-cases (b.proc_create (trace_ring cpu))) [
            | inr p ↦
                rw (e, v)
                  (rw p (record {
                    here = (i, ground (arith, h, same), t);
                    refs = λ c n. ground (arith, n);
                    inited = λ c n. ground (arith, n);
                    hdr = λ c n. ground (arith, n);
                    client = refl;
                    module_refs = refl;
                    list_area = refl;
                    cpu_area = refl;
                    entries = λ es d o. absurd (false≢true o);
                  }))
            | inl p ↦ elim (Bool-cases (b.proc_create (consumer_hdr cpu))) [
              | inr q ↦
                  rw (e, v)
                    (rw (p, q)
                      (record {
                        here = (i, ground (arith, h, same), t);
                        refs = λ c n. ground (arith, n);
                        inited = λ c n. ground (arith, n);
                        hdr = λ c n. ground (arith, n);
                        client = refl;
                        module_refs = refl;
                        list_area = refl;
                        cpu_area = refl;
                        entries = λ es d o. absurd (false≢true o);
                      }))
              | inl q ↦
                  rw (e, v)
                    (rw (p, q)
                      (record {
                        here =
                            (ground (arith, same), ground (arith, same), ground (arith, same), t);
                        refs = λ c n. ground (arith, n);
                        inited = λ c n. ground (arith, n);
                        hdr = λ c n. ground (arith, n);
                        client = refl;
                        module_refs = refl;
                        list_area = refl;
                        cpu_area = refl;
                        entries = λ es d o. rw d refl;
                      }))
            ]
          ]
        ]
      ]
