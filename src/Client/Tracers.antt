-- ===== src/Client/Tracers.antt =====
-- `init_tracers` and the registration of the probes: all of it, or nothing.
use standalone_linux_io_trac.Base.{
  ℕ, ◌+◌, ◌≡◌, refl, sym, ◌∙◌, Bool, true, false, List, [], ◌∷◌, Option, none, some, arith, ◌==◌,
  ◌&&◌, if◌then◌else◌, elem, Bool-cases, ◌⊎◌, inl, inr,
}
use mathlib.Core.Bool.{false≢true}
use standalone_linux_io_trac.Kernel.{Result, ok, err, einval, is_ok}
use standalone_linux_io_trac.InodeTracer.{InodeTracer}
use standalone_linux_io_trac.Client.{
  Probes, Platform, Client, register_complete, register_trace_points, open_cpu, open_cpus,
  alloc_areas, dropped_on_error, open_all, init_tracers,
}

abbrev pub all_probes : Bool → Probes
all_probes b = record { bio_queue = b; bio_complete = b; rq_complete = b; split = b }

abbrev pub has_tracer : Option InodeTracer → Bool
has_tracer none = false
has_tracer (some t) = true

-- What the tracers leave as it was.
pub record SameClient {T : Type 0} (a b : Client T) : Type 0 where
  pub bdev : b.ctx.bdev ≡ a.ctx.bdev
  pub blkdev_refs : b.ctx.blkdev_refs ≡ a.ctx.blkdev_refs
  pub inode_refs : b.ctx.inode_refs ≡ a.ctx.inode_refs
  pub clients : b.ctx.trace_state.clients ≡ a.ctx.trace_state.clients
  pub probes : b.probes ≡ a.probes

module _ {T : Type 0} (k : Platform T) where
  -- The registration puts up all four probes, or fails and leaves none.
  pub register_trace_points_all :
      let out = register_trace_points k (all_probes false) in out.0 ≡ all_probes (is_ok out.1)
  unfolding register_trace_points register_complete
  register_trace_points_all = ground arith

  -- A CPU has its producer and its inode tracer.
  abbrev pub IsOpen : Client T → ℕ → Type 0
  IsOpen s c = (s.opened c ≡ true) × (has_tracer (s.inode_traces c) ≡ true)

  open_cpu-SameClient : (s : Client T) (cpu : ℕ) → SameClient s (open_cpu k s cpu).0
  unfolding open_cpu
  open_cpu-SameClient s cpu = ground arith

  open_cpu-areas :
      (s : Client T) (cpu : ℕ)
      → ((open_cpu k s cpu).0.traces_areas ≡ s.traces_areas)
        × ((open_cpu k s cpu).0.inode_areas ≡ s.inode_areas)
  unfolding open_cpu
  open_cpu-areas s cpu = ground arith

  open_cpu-IsOpen :
      (s : Client T) (cpu c : ℕ)
      → is_ok (open_cpu k s cpu).1 ≡ true
      → ((c == cpu) ≡ true) ⊎ IsOpen s c
      → IsOpen (open_cpu k s cpu).0 c
  unfolding open_cpu
  open_cpu-IsOpen s cpu c h w = ground arith

  SameClient-trans : (a b c : Client T) → SameClient a b → SameClient b c → SameClient a c
  SameClient-trans a b c h g = record {
    bdev = g.bdev ∙ h.bdev;
    blkdev_refs = g.blkdev_refs ∙ h.blkdev_refs;
    inode_refs = g.inode_refs ∙ h.inode_refs;
    clients = g.clients ∙ h.clients;
    probes = g.probes ∙ h.probes;
  }

  -- What the loop over the CPUs does to `s`: it leaves the rest and counts no area; on success
  -- every CPU of the list is open, as are those that were.
  Opens : List ℕ → Client T → Client T × Result (Unit {0}) → Type 0
  Opens cpus s out =
      SameClient s out.0
      × (out.0.traces_areas ≡ s.traces_areas)
      × (out.0.inode_areas ≡ s.inode_areas)
      × (is_ok out.1 ≡ true → (c : ℕ) → (elem c cpus ≡ true) ⊎ IsOpen s c → IsOpen out.0 c)

  open_cpus-Opens :
      (cpus : List ℕ) (r : Client T × Result (Unit {0})) → Opens cpus r.0 (open_cpus k cpus r)
  unfolding open_cpus Opens
  open_cpus-Opens [] r = (
    record { bdev = refl; blkdev_refs = refl; inode_refs = refl; clients = refl; probes = refl },
    refl,
    refl,
    λ e c w. elim w [ inl n ↦ absurd (false≢true n) | inr o ↦ o ],
  )
  open_cpus-Opens (cpu ∷ cpus) r =
      let next = open_cpu k r.0 cpu in
      let same = open_cpu-SameClient r.0 cpu in
      let (t, i) = open_cpu-areas r.0 cpu in
      let (same', t', i', all) = open_cpus-Opens cpus next in
      elim (Bool-cases (is_ok next.1)) [
        | inl e ↦ rw e (
          SameClient-trans r.0 next.0 _ same same',
          t' ∙ t,
          i' ∙ i,
          λ h c w. all h c (further r.0 cpu c cpus e w),
        )
        | inr e ↦ rw e (same, t, i, λ h. absurd (false≢true (rw e at h)))
      ]
    where
      further :
          (s : Client T) (cpu c : ℕ) (cpus : List ℕ)
          → is_ok (open_cpu k s cpu).1 ≡ true
          → (elem c (cpu ∷ cpus) ≡ true) ⊎ IsOpen s c
          → (elem c cpus ≡ true) ⊎ IsOpen (open_cpu k s cpu).0 c
      further s cpu c cpus e w = elim (Bool-cases (c == cpu)) [
        | inl m ↦ inr (open_cpu-IsOpen s cpu c e (inl m))
        | inr n ↦ elim w [
          | inl m ↦ inl (ground (arith, m, n))
          | inr o ↦ inr (open_cpu-IsOpen s cpu c e (inr o))
        ]
      ]

  -- The tracers of the CPUs are all there, with one more area of each kind, or none is, with no
  -- area more.
  pub record Inited (cpus : List ℕ) (s : Client T) (out : Client T × Result (Unit {0}))
      : Type 0 where
    pub same : SameClient s out.0
    pub opened : (c : ℕ) → elem c cpus ≡ true → out.0.opened c ≡ is_ok out.1
    pub tracers : (c : ℕ) → elem c cpus ≡ true → has_tracer (out.0.inode_traces c) ≡ is_ok out.1
    pub traces_areas : out.0.traces_areas ≡ s.traces_areas + (if is_ok out.1 then 1 else 0)
    pub inode_areas : out.0.inode_areas ≡ s.inode_areas + (if is_ok out.1 then 1 else 0)

  -- What the allocations and the loop leave for the label `ERROR`.
  record Allotted (cpus : List ℕ) (s : Client T) (out : Client T × Result (Unit {0})) : Type 0 where
    same : SameClient s out.0
    traces_areas : out.0.traces_areas ≡ s.traces_areas + (if k.alloc_traces then 1 else 0)
    inode_areas : out.0.inode_areas ≡ s.inode_areas + (if k.alloc_inode_traces then 1 else 0)
    no_traces : (c : ℕ) → k.alloc_traces ≡ false → out.0.opened c ≡ false
    no_tracers : (c : ℕ) → k.alloc_inode_traces ≡ false → out.0.inode_traces c ≡ none
    both : is_ok out.1 ≡ true → (k.alloc_traces ≡ true) × (k.alloc_inode_traces ≡ true)
    opens : is_ok out.1 ≡ true → (c : ℕ) → elem c cpus ≡ true → IsOpen out.0 c

  both_areas : (a b : Bool) → (a && b) ≡ true → (a ≡ true) × (b ≡ true)
  both_areas a b h = ground arith

  alloc_areas-SameClient : (s : Client T) → SameClient s (alloc_areas k s)
  alloc_areas-SameClient s = record {
    bdev = refl;
    blkdev_refs = refl;
    inode_refs = refl;
    clients = refl;
    probes = refl;
  }

  open_all-Allotted : (cpus : List ℕ) (s : Client T) → Allotted cpus s (open_all k cpus s)
  unfolding open_all Opens
  open_all-Allotted cpus s = elim (Bool-cases (k.alloc_traces && k.alloc_inode_traces)) [
    | inl both ↦
        let (ta, ia) = both_areas k.alloc_traces k.alloc_inode_traces both in
        let (same, t, i, all) = open_cpus-Opens cpus (alloc_areas k s, err einval) in
        rw both (record {
          same = SameClient-trans s (alloc_areas k s) _ (alloc_areas-SameClient s) same;
          traces_areas = ground (arith, t);
          inode_areas = ground (arith, i);
          no_traces = λ c n. absurd (false≢true (sym n ∙ ta));
          no_tracers = λ c n. absurd (false≢true (sym n ∙ ia));
          both = λ e. (ta, ia);
          opens = λ e c m. all e c (inl m);
        })
    | inr lack ↦ rw lack (record {
      same = alloc_areas-SameClient s;
      traces_areas = ground arith;
      inode_areas = ground arith;
      no_traces = λ c n. refl;
      no_tracers = λ c n. refl;
      both = λ e. absurd (false≢true e);
      opens = λ e. absurd (false≢true e);
    })
  ]

  dropped-Inited :
      (cpus : List ℕ) (s : Client T) (r : Client T × Result (Unit {0}))
      → Allotted cpus s r
      → Inited cpus s (dropped_on_error k cpus r)
  dropped-Inited cpus s (s', ok u) a = record {
    same = a.same;
    opened = λ c m. (a.opens refl c m).0;
    tracers = λ c m. (a.opens refl c m).1;
    traces_areas = ground (arith, a.traces_areas, (a.both refl).0);
    inode_areas = ground (arith, a.inode_areas, (a.both refl).1);
  }
  dropped-Inited cpus s (s', err e) a = record {
    same = record {
      bdev = ground (arith, a.same.bdev);
      blkdev_refs = ground (arith, a.same.blkdev_refs);
      inode_refs = ground (arith, a.same.inode_refs);
      clients = ground (arith, a.same.clients);
      probes = ground (arith, a.same.probes);
    };
    opened = λ c m. ground (arith, a.no_traces c, m);
    tracers = λ c m. ground (arith, a.no_tracers c, m);
    traces_areas = ground (arith, a.traces_areas);
    inode_areas = ground (arith, a.inode_areas);
  }

  pub init_tracers-Inited : (cpus : List ℕ) (s : Client T) → Inited cpus s (init_tracers k cpus s)
  unfolding init_tracers
  init_tracers-Inited cpus s = dropped-Inited cpus s (open_all k cpus s) (open_all-Allotted cpus s)
