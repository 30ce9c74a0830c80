-- ===== src/Start/Init.antt =====
-- Loading the module: all of it, or nothing.
use standalone_linux_io_trac.Base.{
  ℕ, ◌≡◌, refl, sym, ap, ◌∙◌, subst, true, false, List, [], ◌∷◌, ◌++◌, none, some, elem, Distinct,
  Bool-cases, ◌⊎◌, inl, inr, replicate,
}
use mathlib.Core.Bool.{false≢true}
use mathlib.Core.List.{append_assoc, append-nil}
use standalone_linux_io_trac.Kernel.{Result, ok, err, is_ok}
use standalone_linux_io_trac.Client.{Client}
use standalone_linux_io_trac.Bdev.Model.{max_devices}
use standalone_linux_io_trac.Start.{
  with_ctx, Entry, Boot, Module, init_files, mngt_init, mngt_entries, procfs_init, procfs_deinit,
  init_module, add_entry, zero_cpu, ended_on_error, alloc_cpus, with_mngt, undone_on_error,
  bdev_init,
}
use standalone_linux_io_trac.Start.RingFiles.{Ready, Blank, file_entries}
use standalone_linux_io_trac.Start.Undo.{deinit_files-Blank}
use standalone_linux_io_trac.Start.FilesLoop.{FilesInited, init_files-FilesInited}

module _ {T : Type 0} where
  -- There are no per-CPU contexts, no directory and no memory of a file.
  abbrev pub NoFiles : List ℕ → Module T → Type 0
  NoFiles cpus m =
      (m.cpu_area ≡ false) × (m.proc_dir ≡ none) × ((c : ℕ) → elem c cpus ≡ true → Blank m.files c)

  -- Neither device lists nor per-CPU contexts are allocated, and there is no file and no memory of
  -- one. What the clients allocate is `Session`'s.
  pub record Unloaded (cpus : List ℕ) (m : Module T) : Type 0 where
    pub list_area : m.list_area ≡ false
    pub files : NoFiles cpus m

  -- All is there: the areas, every file below the directory, and each CPU's file without a ring.
  pub record Loaded (cpus : List ℕ) (m : Module T) : Type 0 where
    pub list_area : m.list_area ≡ true
    pub cpu_area : m.cpu_area ≡ true
    pub proc_dir : m.proc_dir ≡ some (file_entries cpus ++ mngt_entries)
    pub files : (c : ℕ) → elem c cpus ≡ true → Ready m.files c

module _ {T : Type 0} (b : Boot) where
  -- The management files change nothing but the directory.
  mngt_init-entries :
      (entries es : List Entry) (m : Module T)
      → m.proc_dir ≡ some es
      → let r = mngt_init b entries m in
        (r.0.files ≡ m.files)
        × (r.0.list_area ≡ m.list_area)
        × (r.0.cpu_area ≡ m.cpu_area)
        × (is_ok r.1 ≡ true → r.0.proc_dir ≡ some (es ++ entries))
  unfolding mngt_init
  mngt_init-entries [] es m d = (refl, refl, refl, λ o. d ∙ ap some (sym (append-nil es)))
  mngt_init-entries (e ∷ entries) es m d = elim (Bool-cases (b.proc_create e)) [
    | inr n ↦ rw n (refl, refl, refl, λ o. absurd (false≢true o))
    | inl y ↦
        let (f, l, c, p) = mngt_init-entries entries (es ++ e ∷ []) (add_entry m e) (rw d refl) in
        rw y (f, l, c, λ o. p o ∙ ap some (append_assoc es (e ∷ []) entries))
  ]

  -- What stands when the loops of `iotrace_procfs_init` have ended, before any of it is undone.
  record Half (cpus : List ℕ) (m : Module T) (r : Module T × Result (Unit {0})) : Type 0 where
    held : (c : ℕ) → elem c cpus ≡ true → Ready r.0.files c ⊎ Blank r.0.files c
    ready : is_ok r.1 ≡ true → (c : ℕ) → elem c cpus ≡ true → Ready r.0.files c
    entries : is_ok r.1 ≡ true → r.0.proc_dir ≡ some (file_entries cpus ++ mngt_entries)
    client : r.0.files.client ≡ m.files.client
    module_refs : r.0.files.module_refs ≡ m.files.module_refs
    list_area : r.0.list_area ≡ m.list_area
    cpu_area : r.0.cpu_area ≡ m.cpu_area

  with_mngt-Half :
      (cpus : List ℕ) (m : Module T) (r : Module T × Result (Unit {0}))
      → FilesInited b cpus m r
      → m.proc_dir ≡ some []
      → Half cpus m (with_mngt b cpus r)
  with_mngt-Half cpus m (m1, err e) v d = record {
    held = v.here;
    ready = v.ready;
    entries = λ o. absurd (false≢true o);
    client = v.client;
    module_refs = v.module_refs;
    list_area = v.list_area;
    cpu_area = v.cpu_area;
  }
  with_mngt-Half cpus m (m1, ok u) v d =
      let (f, l, c, p) =
        mngt_init-entries mngt_entries (file_entries cpus) m1 (v.entries [] d refl) in
      record {
        held = λ x i. rw f (v.here x i);
        ready = λ o x i. rw f (v.ready refl x i);
        entries = p;
        client = ap (λ s. s.client) f ∙ v.client;
        module_refs = ap (λ s. s.module_refs) f ∙ v.module_refs;
        list_area = l ∙ v.list_area;
        cpu_area = c ∙ v.cpu_area;
      }

  -- The client's state with zeroed per-CPU contexts.
  abbrev pub fresh_cpus : Client T → Client T
  fresh_cpus s = record s { ctx = record (s.ctx) { cpu_context = λ c. zero_cpu } }

  -- The outcome of `iotrace_procfs_init` from `m`.
  abbrev pub ProcfsOutcome : List ℕ → Module T → Module T × Result (Unit {0}) → Type 0
  ProcfsOutcome cpus m (m', ok u) =
      (m'.cpu_area ≡ true)
      × (m'.proc_dir ≡ some (file_entries cpus ++ mngt_entries))
      × ((c : ℕ) → elem c cpus ≡ true → Ready m'.files c)
      × (m'.list_area ≡ m.list_area)
      × (m'.files.client ≡ fresh_cpus m.files.client)
      × (m'.files.module_refs ≡ m.files.module_refs)
  ProcfsOutcome cpus m (m', err e) = NoFiles cpus m' × (m'.list_area ≡ m.list_area)

  undone-ProcfsOutcome :
      (cpus : List ℕ) (m : Module T) (r : Module T × Result (Unit {0}))
      → Distinct cpus
      → Half cpus (alloc_cpus (record m { proc_dir = some [] })) r
      → ProcfsOutcome cpus m (undone_on_error b cpus r)
  unfolding procfs_deinit
  undone-ProcfsOutcome cpus m (m', ok u) d h =
      (h.cpu_area, h.entries refl, h.ready refl, h.list_area, h.client, h.module_refs)
  undone-ProcfsOutcome cpus m (m', err e) d h =
      ((refl, refl, λ c i. deinit_files-Blank cpus m'.files d h.held c (inl i)), h.list_area)

  pub procfs_init-ProcfsOutcome :
      (cpus : List ℕ) (m : Module T)
      → Distinct cpus
      → NoFiles cpus m
      → ProcfsOutcome cpus m (procfs_init b cpus m)
  unfolding procfs_init
  procfs_init-ProcfsOutcome cpus m d (area, dir, blank) = elim (Bool-cases b.proc_mkdir) [
    | inr n ↦ rw n ((area, dir, blank), refl)
    | inl y ↦ elim (Bool-cases b.alloc_cpu_context) [
      | inr n ↦ rw (y, n) ((refl, refl, blank), refl)
      | inl z ↦
          let m1 = alloc_cpus (record m { proc_dir = some [] }) in
          let out = undone_on_error b cpus (with_mngt b cpus (init_files b cpus m1)) in
          let run : procfs_init b cpus m ≡ out = rw (y, z) refl in
          subst (ProcfsOutcome cpus m) (sym run) (
            undone-ProcfsOutcome cpus m (with_mngt b cpus (init_files b cpus m1)) d (
              with_mngt-Half cpus m1 (init_files b cpus m1)
                (init_files-FilesInited b cpus m1 d (λ c i. (refl, refl, refl))) refl))
    ]
  ]

  -- The client's state with the mutex made and the list of devices zeroed, and fresh contexts.
  abbrev pub fresh : Client T → Client T
  fresh s = fresh_cpus (record s {
    ctx = record (s.ctx) {
      locked = false;
      bdev = record (s.ctx.bdev) { list = λ c. replicate max_devices none };
    };
  })

  abbrev pub Outcome : List ℕ → Module T → Module T × Result (Unit {0}) → Type 0
  Outcome cpus m (m', ok u) =
      Loaded cpus m'
      × (m'.files.client ≡ fresh m.files.client)
      × (m'.files.module_refs ≡ m.files.module_refs)
  Outcome cpus m (m', err e) = Unloaded cpus m'

  -- The module with the mutex and the list of devices.
  abbrev with_list : Module T → Module T
  with_list m =
      let ctx = record (m.files.client.ctx) {
        locked = false;
        bdev = record (m.files.client.ctx.bdev) { list = λ c. replicate max_devices none };
      } in
      record (with_ctx m ctx) { list_area = true }

  ended-Outcome :
      (cpus : List ℕ) (m : Module T) (r : Module T × Result (Unit {0}))
      → ProcfsOutcome cpus (with_list m) r
      → Outcome cpus m (ended_on_error b cpus r)
  ended-Outcome cpus m (m', ok u) (area, dir, files, list, client, refs) =
      (record { list_area = list; cpu_area = area; proc_dir = dir; files = files }, client, refs)
  ended-Outcome cpus m (m', err e) (files, list) = record { list_area = refl; files = files }

  -- From a state without device lists, per-CPU contexts, files and buffers of files, whatever
  -- allocations and files fail: `iotrace_init_module` succeeds with both per-CPU areas, the
  -- directory with the two files of every online CPU and the five management files, and every
  -- CPU's file with one reference, its header and no ring; or it returns an error, and there is
  -- again no device list, no per-CPU context, no file and no buffer of one.
  pub init_module-Outcome :
      (cpus : List ℕ) (m : Module T)
      → Distinct cpus
      → Unloaded cpus m
      → Outcome cpus m (init_module b cpus m)
  unfolding init_module bdev_init
  init_module-Outcome cpus m d v = elim (Bool-cases b.alloc_list) [
    | inr n ↦ rw n (record { list_area = v.list_area; files = v.files })
    | inl y ↦
        let m1 = with_list m in
        let run : init_module b cpus m ≡ ended_on_error b cpus (procfs_init b cpus m1) =
          rw y refl in
        subst (Outcome cpus m) (sym run) (
          ended-Outcome cpus m (procfs_init b cpus m1)
            (procfs_init-ProcfsOutcome cpus m1 d v.files))
  ]
