-- ===== src/Bdev/EachCpu.antt =====
-- `iotrace_bdev_add_oncpu` and `iotrace_bdev_remove_oncpu`, run on every online CPU.
use standalone_linux_io_trac.Base.{
  ℕ, suc, ◌-◌, ◌≤◌, ◌<◌, ◌≡◌, refl, ◌∙◌, ap, true, none, List, [], ◌∷◌, ◌++◌, some, arith, length,
  get_elem?, set, elem, Distinct, length-set, lt→leb, ==_false,
}
use standalone_linux_io_trac.Kernel.{set_cpu, on_each_cpu, on_each_cpu_inv}
use standalone_linux_io_trac.Strings.{c_string}
use standalone_linux_io_trac.Context.{Context}
use standalone_linux_io_trac.Trace.{Octf}
use standalone_linux_io_trac.IoTrace.Desc.{trace_desc}
use standalone_linux_io_trac.IoTrace.DescFrame.{trace_desc-SameDevices}
use standalone_linux_io_trac.Bdev.{Devices, add_oncpu, remove_oncpu, set_list, bdev_size}
use standalone_linux_io_trac.Bdev.Model.{max_devices}
use standalone_linux_io_trac.Bdev.Slots.{
  slots, set-slots_end, set-slots, set-slots_last, get-slots, swap_remove,
}
use standalone_linux_io_trac.Bdev.Invariant.{Halfway, Halfway-step, Halfway-list}

-- The state before the first CPU runs.
Halfway-start :
    {T : Type 0} (cpus old new : List ℕ) (ctx : Context T)
    → Distinct cpus
    → ((c : ℕ) → elem c cpus ≡ true → ctx.bdev.list c ≡ slots 32 old)
    → Halfway cpus old new cpus ctx ctx
Halfway-start cpus old new ctx d same = record {
  lists = λ c p. rw p (same c p);
  within = λ c p. p;
  distinct = d;
  num = refl;
  blkdev_refs = refl;
  inode_refs = refl;
  locked = refl;
  clients = refl;
}

module _ {T H : Type 0} (o : Octf T H) (k : Devices) (cpus ds : List ℕ) (bdev : ℕ) (model : List ℕ)
    (ctx : Context T) (num : ctx.bdev.num ≡ length ds) (room : length ds < 32) where
  add_step :
      (cpu : ℕ) (rest : List ℕ) (s : Context T)
      → Halfway cpus ds (ds ++ bdev ∷ []) (cpu ∷ rest) ctx s
      → (s' : Context T) × (add_oncpu o k bdev model cpu s ≡ some s')
        × Halfway cpus ds (ds ++ bdev ∷ []) rest ctx s'
  unfolding add_oncpu
  add_step cpu rest s h =
      let n : s.bdev.num ≡ length ds = h.num ∙ num in
      let w : set (s.bdev.list cpu) s.bdev.num (some bdev) ≡ slots 32 (ds ++ bdev ∷ []) =
        rw (n, Halfway-list cpus ds _ ctx cpu rest s h) (set-slots_end 32 bdev ds room) in
      let t = set_list s (set_cpu s.bdev.list cpu (set (s.bdev.list cpu) s.bdev.num (some bdev))) in
      let f =
        trace_desc-SameDevices o t cpu (k.dev bdev).devt (k.dev bdev).disk_name (c_string model)
          (bdev_size o k bdev) in
      (
        (trace_desc o t cpu (k.dev bdev).devt (k.dev bdev).disk_name (c_string model)
            (bdev_size o k bdev)).0,
        rw (lt→leb max_devices s.bdev.num (omega arith)) refl,
        Halfway-step cpus ds _ ctx cpu rest s _ h
            (ap (λ b. b.list) f.bdev ∙ ap (set_cpu s.bdev.list cpu) w) (ap (λ b. b.num) f.bdev)
            f.blkdev_refs f.inode_refs f.locked f.clients,
      )

  -- On every CPU the device is put behind the others, with no `BUG_ON`.
  pub add_each :
      Distinct cpus
      → ((c : ℕ) → elem c cpus ≡ true → ctx.bdev.list c ≡ slots 32 ds)
      → (s' : Context T) × (on_each_cpu cpus (add_oncpu o k bdev model) ctx ≡ some s')
        × Halfway cpus ds (ds ++ bdev ∷ []) [] ctx s'
  add_each d same =
      on_each_cpu_inv (λ rest s. Halfway cpus ds (ds ++ bdev ∷ []) rest ctx s)
        (add_oncpu o k bdev model) add_step cpus ctx (Halfway-start cpus ds _ ctx d same)

module _ {T : Type 0} (cpus ds : List ℕ) (idx top last : ℕ) (ctx : Context T)
    (num : ctx.bdev.num ≡ suc top) (len : length ds ≡ suc top) (fits : length ds ≤ 32)
    (inside : idx < length ds) (at : get_elem? ds top ≡ some last) where
  remove_step :
      (cpu : ℕ) (rest : List ℕ) (s : Context T)
      → Halfway cpus ds (swap_remove ds idx last) (cpu ∷ rest) ctx s
      → (s' : Context T) × (remove_oncpu idx cpu s ≡ some s')
        × Halfway cpus ds (swap_remove ds idx last) rest ctx s'
  unfolding remove_oncpu
  remove_step cpu rest s h =
      let n : s.bdev.num ≡ suc top = h.num ∙ num in
      let l : s.bdev.list cpu ≡ slots 32 ds = Halfway-list cpus ds _ ctx cpu rest s h in
      let (d, e, e') = get-slots 32 top ds (omega arith) fits in
      let same : d ≡ last = ground arith in
      let w : set (set (slots 32 ds) idx (some last)) top none
          ≡ slots 32 (swap_remove ds idx last) =
        rw (set-slots 32 idx last ds inside)
          (set-slots_last 32 top (set ds idx last) (length-set ds idx last ∙ len)) in
      let t : s.bdev.num - 1 ≡ top = omega arith in
      (
        set_list s (set_cpu s.bdev.list cpu (slots 32 (swap_remove ds idx last))),
        rw (l, t, ==_false s.bdev.num 0 (omega arith), e, same, w) refl,
        Halfway-step cpus ds _ ctx cpu rest s _ h refl refl refl refl refl refl,
      )

  -- On every CPU the last device takes the place of the one at `idx`, with no `BUG_ON`.
  pub remove_each :
      Distinct cpus
      → ((c : ℕ) → elem c cpus ≡ true → ctx.bdev.list c ≡ slots 32 ds)
      → (s' : Context T) × (on_each_cpu cpus (remove_oncpu idx) ctx ≡ some s')
        × Halfway cpus ds (swap_remove ds idx last) [] ctx s'
  remove_each d same =
      on_each_cpu_inv (λ rest s. Halfway cpus ds (swap_remove ds idx last) rest ctx s)
        (remove_oncpu idx) remove_step cpus ctx (Halfway-start cpus ds _ ctx d same)
