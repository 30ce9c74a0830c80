-- ===== src/Bdev/Remove.antt =====
-- Removing a device, and removing all of them.
use standalone_linux_io_trac.Base.{
  ℕ, zero, suc, ◌+◌, ◌-◌, ◌≡◌, refl, ◌∙◌, ap, Bool, true, false, List, [], ◌∷◌, Option, none, some,
  arith, ◌==◌, if◌then◌else◌, length, get_elem?, get_elem?-some, count, elem, Distinct, ◌⊎◌, inl,
  inr, Option-cases, count_pos, sym, ==_false, length-drop_last, length-set, set,
}
use standalone_linux_io_trac.Kernel.{Result, ok, err, enoent, on_each_cpu}
use standalone_linux_io_trac.Context.{Context, BlockDevice}
use standalone_linux_io_trac.Bdev.{
  remove_locked, remove_oncpu, remove_all_locked, remove_all_loop, blkdev_put, set_num,
}
use standalone_linux_io_trac.Bdev.Arrays.{find_index}
use standalone_linux_io_trac.Bdev.Slots.{
  find_index-slots, index_from, index_from-some, index_from-none, swap_remove, tally-swap_remove,
  get-slots,
}
use standalone_linux_io_trac.Bdev.Invariant.{Tracks}
use standalone_linux_io_trac.Bdev.EachCpu.{remove_each}

-- The traced devices after a removal of `bdev`: one occurrence less of it, and of no other.
abbrev pub RemovedFrom : ℕ → List ℕ → List ℕ → Type 0
RemovedFrom bdev ds ds' = (b : ℕ) → count b ds' + (if bdev == b then 1 else 0) ≡ count b ds

-- What else an operation on the devices leaves as it was.
abbrev pub KeepsRest : {T : Type 0} → Context T → Context T → Type 0
KeepsRest ctx ctx' =
    (ctx'.locked ≡ ctx.locked)
    × (ctx'.inode_refs ≡ ctx.inode_refs)
    × (ctx'.trace_state.clients ≡ ctx.trace_state.clients)

module _ {T : Type 0} where
  remove_locked_absent :
      (cpus : List ℕ) (cpu bdev : ℕ) (ctx : Context T)
      → find_index (ctx.bdev.list cpu) ctx.bdev.num 0 bdev ≡ some none
      → remove_locked cpus cpu bdev ctx ≡ some (ctx, err enoent)
  unfolding remove_locked
  remove_locked_absent cpus cpu bdev ctx e = rw e refl

  remove_locked_found :
      (cpus : List ℕ) (cpu bdev idx : ℕ) (ctx s : Context T)
      → find_index (ctx.bdev.list cpu) ctx.bdev.num 0 bdev ≡ some (some idx)
      → on_each_cpu cpus (remove_oncpu idx) ctx ≡ some s
      → remove_locked cpus cpu bdev ctx ≡ some (blkdev_put (set_num s (s.bdev.num - 1)) bdev, ok tt)
  unfolding remove_locked
  remove_locked_found cpus cpu bdev idx ctx s e run = rw e (rw run refl)

  remove_all_loop_step :
      (fuel : ℕ) (cpus : List ℕ) (cpu last : ℕ) (ctx s : Context T) (r : Result (Unit {0}))
      → (ctx.bdev.num == 0) ≡ false
      → get_elem? (ctx.bdev.list cpu) (ctx.bdev.num - 1) ≡ some (some last)
      → remove_locked cpus cpu last ctx ≡ some (s, r)
      → remove_all_loop (suc fuel) cpus cpu ctx ≡ remove_all_loop fuel cpus cpu s
  unfolding remove_all_loop
  remove_all_loop_step fuel cpus cpu last ctx s r z e run =
      rw (z, remove_all_loop) (rw e (rw run refl))

module _ {T : Type 0} (dev : ℕ → BlockDevice) (cpus : List ℕ) (d : Distinct cpus) where
  find_index-Tracks :
      (cpu bdev : ℕ) (ds : List ℕ) (ctx : Context T)
      → Tracks dev cpus ds ctx
      → elem cpu cpus ≡ true
      → find_index (ctx.bdev.list cpu) ctx.bdev.num 0 bdev ≡ some (index_from 0 bdev ds)
  find_index-Tracks cpu bdev ds ctx t on =
      rw (t.same cpu on) (rw (t.num) (find_index-slots 32 0 bdev ds t.bounded))

  removed_at :
      (cpu bdev idx : ℕ) (ds : List ℕ) (ctx : Context T)
      → Tracks dev cpus ds ctx
      → elem cpu cpus ≡ true
      → index_from 0 bdev ds ≡ some idx
      → (ctx' : Context T) × (ds' : List ℕ) × (remove_locked cpus cpu bdev ctx ≡ some (ctx', ok tt))
        × Tracks dev cpus ds' ctx'
        × RemovedFrom bdev ds ds'
        × KeepsRest ctx ctx'
        × (length ds ≡ suc (length ds'))
  unfolding remove_locked
  removed_at cpu bdev idx ds ctx t on e =
      let (i, p, at, inside) = index_from-some 0 bdev idx ds e in
      let here : get_elem? ds idx ≡ some bdev = ground arith in
      let n : length ds ≡ suc (length ds - 1) = omega arith in
      let (last, top) = get_elem?-some ds (length ds - 1) (omega arith) in
      let (s, run, h) =
        remove_each cpus ds idx (length ds - 1) last ctx (t.num ∙ n) n t.bounded (omega arith) top d
          t.same in
      let ds' = swap_remove ds idx last in
      let tally' = λ (q : ℕ → Bool).
        tally-swap_remove q idx (length ds - 1) bdev last ds n (omega arith) here top in
      let len : length ds' ≡ length ds - 1 =
        length-drop_last (set ds idx last) ∙ ap (λ m. m - 1) (length-set ds idx last) in
      (
        blkdev_put (set_num s (s.bdev.num - 1)) bdev,
        ds',
        remove_locked_found cpus cpu bdev idx ctx s
            (find_index-Tracks cpu bdev ds ctx t on ∙ ap some e) run,
        record {
          num = omega (arith, h.num, t.num, len);
          bounded = omega arith;
          same = λ c m. h.lists c m;
          queues = λ q. omega (arith, tally' (λ x. (dev x).bd_queue == q), t.queues q);
          refs = λ a.
              ground (arith, tally' (λ x. x == a), t.refs a, ap (λ (f : ℕ → ℕ). f a) h.blkdev_refs);
        },
        λ b. tally' (λ x. x == b),
        (h.locked, h.inode_refs, h.clients),
        omega arith,
      )

  -- An outcome of removing `bdev`.
  abbrev pub Removed : ℕ → List ℕ → Context T → Option (Context T × Result (Unit {0})) → Type 0
  Removed bdev ds ctx r =
      ((count bdev ds ≡ 0) × (r ≡ some (ctx, err enoent)))
      ⊎ ((ctx' : Context T) × (ds' : List ℕ) × (r ≡ some (ctx', ok tt))
          × Tracks dev cpus ds' ctx'
          × RemovedFrom bdev ds ds'
          × KeepsRest ctx ctx'
          × (length ds ≡ suc (length ds')))

  -- With the devices `ds` tracked and called on an online CPU, `iotrace_bdev_remove_locked`
  -- comes back: with `-ENOENT` and nothing changed if the device is not among them, else with 0,
  -- and then one occurrence of it is out of the traced devices on every online CPU, its
  -- reference is given back, and no other device is touched.
  pub remove_locked-Removed :
      (cpu bdev : ℕ) (ds : List ℕ) (ctx : Context T)
      → Tracks dev cpus ds ctx
      → elem cpu cpus ≡ true
      → Removed bdev ds ctx (remove_locked cpus cpu bdev ctx)
  unfolding remove_locked
  remove_locked-Removed cpu bdev ds ctx t on = elim (Option-cases (index_from 0 bdev ds)) [
    | inl e ↦ inl (
      index_from-none 0 bdev ds e,
      remove_locked_absent cpus cpu bdev ctx (find_index-Tracks cpu bdev ds ctx t on ∙ ap some e),
    )
    | inr (idx, e) ↦ inr (removed_at cpu bdev idx ds ctx t on e)
  ]

  remove_all_loop_lem :
      (fuel cpu : ℕ) (ds : List ℕ) (ctx : Context T)
      → length ds ≡ fuel
      → Tracks dev cpus ds ctx
      → elem cpu cpus ≡ true
      → (ctx' : Context T) × (remove_all_loop fuel cpus cpu ctx ≡ some ctx')
        × Tracks dev cpus [] ctx'
        × KeepsRest ctx ctx'
  unfolding remove_all_loop
  remove_all_loop_lem zero cpu [] ctx n t on = (ctx, rw (t.num) refl, t, (refl, refl, refl))
  remove_all_loop_lem zero cpu (x ∷ ds) ctx n t on = absurd (omega arith)
  remove_all_loop_lem (suc fuel) cpu ds ctx n t on =
      let (last, p, q) = get-slots 32 fuel ds (omega arith) t.bounded in
      let m : ctx.bdev.num - 1 ≡ fuel = omega (arith, t.num) in
      let here : get_elem? (ctx.bdev.list cpu) (ctx.bdev.num - 1) ≡ some (some last) =
        rw (t.same cpu on) (rw m p) in
      elim (remove_locked-Removed cpu last ds ctx t on) [
        | inl (absent, _) ↦ absurd (omega (arith, count_pos last fuel ds q))
        | inr (s, ds', run, t', _, keep, len) ↦
            let (s', run', t'', keep') = remove_all_loop_lem fuel cpu ds' s (omega arith) t' on in
            (
              s',
              remove_all_loop_step fuel cpus cpu last ctx s (ok tt)
                    (==_false ctx.bdev.num 0 (omega (arith, t.num))) here run
                  ∙ run',
              t'',
              (keep'.0 ∙ keep.0, keep'.1 ∙ keep.1, keep'.2 ∙ keep.2),
            )
      ]

  -- With the devices `ds` tracked and called on an online CPU, the loop of
  -- `iotrace_bdev_remove_all_locked` ends, within as many rounds as there are devices: no device
  -- is tracked any more, every reference is given back, and the mutex and the clients are as
  -- they were.
  pub remove_all_locked_empties :
      (cpu : ℕ) (ds : List ℕ) (ctx : Context T)
      → Tracks dev cpus ds ctx
      → elem cpu cpus ≡ true
      → (ctx' : Context T) × (remove_all_locked cpus cpu ctx ≡ some ctx')
        × Tracks dev cpus [] ctx'
        × KeepsRest ctx ctx'
  unfolding remove_all_locked
  remove_all_locked_empties cpu ds ctx t on =
      remove_all_loop_lem ctx.bdev.num cpu ds ctx (sym t.num) t on
