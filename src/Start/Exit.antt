-- ===== src/Start/Exit.antt =====
-- A life of the module: it is loaded, its ring files are used, and it is unloaded.
use standalone_linux_io_trac.Base.{
  ℕ, ◌≡◌, refl, sym, ap, ◌∙◌, subst, false, List, [], ◌∷◌, arith, ◌==◌, ◌+◌, ◌-◌, ◌%◌, ◌^◌,
  Bool-cases, inl, inr, not, Distinct, length,
}
use standalone_linux_io_trac.Kernel.{ok}
use standalone_linux_io_trac.Context.{BlockDevice, CpuContext}
use standalone_linux_io_trac.Bdev.Invariant.{Tracks}
use standalone_linux_io_trac.Bdev.Slots.{slots}
use standalone_linux_io_trac.Client.{Client}
use standalone_linux_io_trac.Client.Tracers.{all_probes, has_tracer}
use standalone_linux_io_trac.Client.Sessions.{Session, Session-of, Tracks-same}
use standalone_linux_io_trac.Ring.{Files, kref_put, iotrace_free, trace_file_deinit, deinit_files}
use standalone_linux_io_trac.Ring.Held.{System, Consistent}
use standalone_linux_io_trac.Ring.Opens.{Reach, Reach-Consistent}
use standalone_linux_io_trac.Ring.Deinit.{Reach-Freed}
use standalone_linux_io_trac.Start.{Boot, Module, init_module, procfs_deinit, exit_module}
use standalone_linux_io_trac.Start.Init.{Unloaded, Outcome, fresh, init_module-Outcome}

-- The zeroed static context, before the module is loaded: no device, client, probe, producer,
-- inode tracer or reference.
pub record Static {T : Type 0} (s : Client T) : Type 0 where
  pub num : s.ctx.bdev.num ≡ 0
  pub clients : s.ctx.trace_state.clients ≡ 0
  pub blkdev_refs : (a : ℕ) → s.ctx.blkdev_refs a ≡ 0
  pub probes : s.probes ≡ all_probes false
  pub opened : (c : ℕ) → s.opened c ≡ false
  pub tracers : (c : ℕ) → has_tracer (s.inode_traces c) ≡ false
  pub traces_areas : s.traces_areas ≡ 0

module _ {T : Type 0} (dev : ℕ → BlockDevice) (cpus : List ℕ) where
  fresh-Tracks : (b : Boot) (s : Client T) → Static s → Tracks dev cpus [] (fresh b s).ctx
  unfolding slots
  fresh-Tracks b s z = record {
    num = z.num;
    bounded = omega arith;
    same = λ c i. refl;
    queues = λ q. omega arith;
    refs = z.blkdev_refs;
  }

  pub fresh-Session : (b : Boot) (s : Client T) → Static s → Session dev cpus [] (fresh b s)
  fresh-Session b s z =
      Session-of dev cpus [] (fresh b s) false (ap (λ n. not (n == 0)) z.clients) refl
        (fresh-Tracks b s z) (omega (arith, z.clients)) z.probes (λ c i. z.opened c)
        (λ c i. z.tracers c) z.traces_areas (λ e. refl)

  -- A loaded module is consistent, with no file open.
  loaded-Consistent :
      (b : Boot) (m m' : Module T)
      → Static m.files.client
      → m.files.module_refs ≡ 0
      → Outcome b cpus m (m', ok tt)
      → Consistent dev cpus (record { files = m'.files; open_files = [] })
  loaded-Consistent b m m' z r (l, client, refs) = record {
    session = ([], subst (Session dev cpus []) (sym client) (fresh-Session b m.files.client z));
    bounded = omega arith;
    clients = ap (λ k. k.ctx.trace_state.clients) client ∙ z.clients;
    module_refs = refs ∙ r;
    refs = λ c i. (l.files c i).0;
    inited = λ c i. (l.files c i).1;
    consumer_hdr = λ c i. (l.files c i).2;
    online = λ c i. absurd (omega arith);
  }

-- The client's state with other per-CPU contexts.
abbrev pub with_contexts : {T : Type 0} → Client T → (ℕ → CpuContext) → Client T
with_contexts s f = record s { ctx = record (s.ctx) { cpu_context = f } }

-- The end of the files touches nothing of the client's state but the per-CPU contexts.
kref_put_client :
    {T : Type 0} (cpu : ℕ) (s : Files T)
    → (f : ℕ → CpuContext) × ((kref_put cpu s).client ≡ with_contexts s.client f)
unfolding kref_put iotrace_free
kref_put_client cpu s = elim (Bool-cases ((s.refs cpu + (2 ^ 32 - 1)) % 2 ^ 32 == 0)) [
  | inl e ↦ ((iotrace_free cpu s).client.ctx.cpu_context, rw e refl)
  | inr e ↦ (s.client.ctx.cpu_context, rw e refl)
]

trace_file_deinit_client :
    {T : Type 0} (cpu : ℕ) (s : Files T)
    → (f : ℕ → CpuContext) × ((trace_file_deinit cpu s).client ≡ with_contexts s.client f)
unfolding trace_file_deinit
trace_file_deinit_client cpu s = elim (Bool-cases (s.inited cpu)) [
  | inl e ↦ let (f, same) = kref_put_client cpu s in (f, rw e same)
  | inr e ↦ (s.client.ctx.cpu_context, rw e refl)
]

deinit_files_client :
    {T : Type 0} (cpus : List ℕ) (s : Files T)
    → (f : ℕ → CpuContext) × ((deinit_files cpus s).client ≡ with_contexts s.client f)
unfolding deinit_files
deinit_files_client [] s = (s.client.ctx.cpu_context, refl)
deinit_files_client (cpu ∷ cpus) s =
    let (f, first) = trace_file_deinit_client cpu s in
    let (g, rest) = deinit_files_client cpus (trace_file_deinit cpu s) in
    (g, rest ∙ ap (λ c. with_contexts c g) first)

none_open : (files : List ℕ) → length files ≡ 0 → files ≡ []
none_open [] e = refl
none_open (c ∷ files) e = absurd (omega (arith, e))

module _ {T : Type 0} (dev : ℕ → BlockDevice) (cpus : List ℕ) (d : Distinct cpus) where
  -- A session without clients, with other per-CPU contexts.
  pub ended-Session :
      (s : Client T) (ds : List ℕ) (f : ℕ → CpuContext)
      → Session dev cpus ds s
      → s.ctx.trace_state.clients ≡ 0
      → Session dev cpus [] (with_contexts s f)
  ended-Session s ds f v z =
      let t = subst (λ l. Tracks dev cpus l s.ctx) (v.idle z) v.tracks in
      record {
        free = v.free;
        tracks = Tracks-same dev cpus [] s.ctx (with_contexts s f).ctx t refl refl;
        bounded = v.bounded;
        probes = v.probes;
        opened = v.opened;
        tracers = v.tracers;
        traces_areas = v.traces_areas;
        idle = λ e. refl;
      }

  -- From the zeroed static context, with the module loaded with success, and whatever clients
  -- then opened and released ring files, with other calls that keep the session between them:
  -- as soon as nothing references the module any more, `iotrace_exit_module` leaves no device
  -- list, no per-CPU context, no file and no buffer of one; there is no client, probe, producer
  -- or inode tracer, no area of producers, no traced device, and no reference to a device is held.
  -- The areas of inode tracers that detaching has left allocated it does not free.
  pub exit_module-Unloaded :
      (b : Boot) (m m' : Module T) (y : System T)
      → Unloaded cpus m
      → Static m.files.client
      → m.files.module_refs ≡ 0
      → init_module b cpus m ≡ (m', ok tt)
      → Reach dev cpus d (record { files = m'.files; open_files = [] }) y
      → y.files.module_refs ≡ 0
      → let end = exit_module cpus (record m' { files = y.files }) in
        Unloaded cpus end
        × Session dev cpus [] end.files.client
        × (end.files.client.ctx.trace_state.clients ≡ 0)
        × (end.files.client.inode_areas ≡ y.files.client.inode_areas)
  unfolding exit_module procfs_deinit
  exit_module-Unloaded b m m' y u z r run reach e =
      let start =
        loaded-Consistent dev cpus b m m' z r
          (subst (Outcome b cpus m) run (init_module-Outcome b cpus m d u)) in
      let v = Reach-Consistent dev cpus d reach start in
      let closed = none_open y.open_files (sym v.module_refs ∙ e) in
      let (f, same) = deinit_files_client cpus y.files in
      let none_left = v.clients ∙ ap length closed in
      let (ds, session) = v.session in
      (
        record {
          list_area = refl;
          files = (
            refl,
            refl,
            λ c i.
                let (refs, inited, hdr, ring) = Reach-Freed dev cpus d _ y c reach start closed i in
                (inited, hdr, ring),
          );
        },
        subst (Session dev cpus []) (sym same)
            (ended-Session y.files.client ds f session none_left),
        ap (λ s. s.ctx.trace_state.clients) same ∙ none_left,
        ap (λ s. s.inode_areas) same,
      )
