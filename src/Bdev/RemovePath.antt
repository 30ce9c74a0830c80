-- ===== src/Bdev/RemovePath.antt =====
-- `iotrace_bdev_remove`, behind the `remove_device` file.
use standalone_linux_io_trac.Base.{
  ℕ, ◌≡◌, refl, ap, true, false, List, some, arith, ◌==◌, if◌then◌else◌, count, elem, Distinct, inl,
  inr, leb, Bool-cases,
}
use standalone_linux_io_trac.Kernel.{Errno, Result, ok, err, einval, enoent}
use standalone_linux_io_trac.Context.{Context}
use standalone_linux_io_trac.Strings.{strnlen}
use standalone_linux_io_trac.Bdev.{
  Devices, remove_locked, remove_found, bdev_remove, get_ref, put_ref,
}
use standalone_linux_io_trac.Bdev.Model.{path_max}
use standalone_linux_io_trac.Bdev.Invariant.{Tracks}
use standalone_linux_io_trac.Bdev.Remove.{RemovedFrom, remove_locked-Removed}

-- The result, from the devices that are traced.
abbrev pub removed_device : ℕ → List ℕ → Result (Unit {0})
removed_device bdev ds = if count bdev ds == 0 then err enoent else ok tt

abbrev pub looked_up : Result ℕ → List ℕ → Result (Unit {0})
looked_up (err e) ds = err e
looked_up (ok bdev) ds = removed_device bdev ds

abbrev pub remove_result : Devices → List ℕ → List ℕ → Result (Unit {0})
remove_result k path ds =
    if leb path_max (strnlen path path_max) then err einval else looked_up (k.lookup_bdev path) ds

-- The devices that are traced afterwards.
abbrev pub NowTraced : Result ℕ → Result (Unit {0}) → List ℕ → List ℕ → Type 0
NowTraced (ok bdev) (ok u) ds ds' = RemovedFrom bdev ds ds'
NowTraced (ok bdev) (err e) ds ds' = ds' ≡ ds
NowTraced (err c) r ds ds' = ds' ≡ ds

NowTraced-err : (found : Result ℕ) (e : Errno) (ds : List ℕ) → NowTraced found (err e) ds ds
NowTraced-err (ok bdev) e ds = refl
NowTraced-err (err c) e ds = refl

module _ {T : Type 0} (k : Devices) (cpus : List ℕ) (d : Distinct cpus) where
  looked_up_lem :
      (cpu bdev : ℕ) (ds : List ℕ) (ctx : Context T)
      → Tracks k.dev cpus ds ctx
      → elem cpu cpus ≡ true
      → ctx.locked ≡ true
      → (ctx' : Context T) × (ds' : List ℕ) × (remove_locked cpus cpu bdev ctx
          ≡ some (ctx', removed_device bdev ds))
        × Tracks k.dev cpus ds' ctx'
        × NowTraced (ok bdev) (removed_device bdev ds) ds ds'
        × (ctx'.inode_refs ≡ ctx.inode_refs)
  looked_up_lem cpu bdev ds ctx t on l =
      elim (remove_locked-Removed k.dev cpus d cpu bdev ds ctx t on) [
        | inl (none, run) ↦ rw none (ctx, ds, run, t, refl, refl)
        | inr (s, ds', run, t', gone, keep, len) ↦
            let z : (count bdev ds == 0) ≡ false = ground (arith, gone bdev) in
            rw z (s, ds', run, t', gone, keep.1)
      ]

  remove_found_lem :
      (cpu : ℕ) (found : Result ℕ) (ds : List ℕ) (ctx : Context T)
      → Tracks k.dev cpus ds ctx
      → elem cpu cpus ≡ true
      → ctx.locked ≡ false
      → (ctx' : Context T) × (ds' : List ℕ) × (remove_found cpus cpu found ctx
          ≡ some (ctx', looked_up found ds))
        × Tracks k.dev cpus ds' ctx'
        × NowTraced found (looked_up found ds) ds ds'
        × (ctx'.locked ≡ false)
        × ((a : ℕ) → ctx'.inode_refs a ≡ ctx.inode_refs a)
  unfolding remove_found
  remove_found_lem cpu (err e) ds ctx t on free = (ctx, ds, refl, t, refl, free, λ a. refl)
  remove_found_lem cpu (ok bdev) ds ctx t on free =
      let held = record ctx { inode_refs = get_ref ctx.inode_refs bdev; locked = true } in
      let t' : Tracks k.dev cpus ds held = record {
        num = t.num;
        bounded = t.bounded;
        same = t.same;
        queues = t.queues;
        refs = t.refs;
      } in
      let (s, ds', run, after, now, kept) = looked_up_lem cpu bdev ds held t' on refl in
      (
        record s { locked = false; inode_refs = put_ref s.inode_refs bdev },
        ds',
        rw free (rw run refl),
        record {
          num = after.num;
          bounded = after.bounded;
          same = after.same;
          queues = after.queues;
          refs = after.refs;
        },
        now,
        refl,
        λ a. ground (arith, ap (λ (f : ℕ → ℕ). f a) kept),
      )

  -- With the devices `ds` tracked, called on an online CPU with the mutex free,
  -- `iotrace_bdev_remove` comes back with the mutex free. It returns `-EINVAL` for a path that
  -- is too long, what the lookup of the path returns if that fails, `-ENOENT` if the device is
  -- not traced, and else 0. In the last case exactly one occurrence of the device is gone, on
  -- every online CPU; in the others the traced devices are the same. The references to devices
  -- are those of the traced ones, and no inode reference is kept.
  pub bdev_remove_lem :
      (cpu : ℕ) (path ds : List ℕ) (ctx : Context T)
      → Tracks k.dev cpus ds ctx
      → elem cpu cpus ≡ true
      → ctx.locked ≡ false
      → (ctx' : Context T) × (ds' : List ℕ) × (bdev_remove k cpus cpu path ctx
          ≡ some (ctx', remove_result k path ds))
        × Tracks k.dev cpus ds' ctx'
        × NowTraced (k.lookup_bdev path) (remove_result k path ds) ds ds'
        × (ctx'.locked ≡ false)
        × ((a : ℕ) → ctx'.inode_refs a ≡ ctx.inode_refs a)
  unfolding bdev_remove
  bdev_remove_lem cpu path ds ctx t on free =
      elim (Bool-cases (leb path_max (strnlen path path_max))) [
        | inl long ↦
            rw long
              (ctx, ds, refl, t, NowTraced-err (k.lookup_bdev path) einval ds, free, λ a. refl)
        | inr short ↦ rw short (remove_found_lem cpu (k.lookup_bdev path) ds ctx t on free)
      ]
