-- ===== src/Bdev.antt =====
-- source/kernel/trace_bdev.c and trace_bdev.h: the traced devices, one array of pointers for each
-- CPU. `cpus` are the online CPUs, `cpu` the CPU on which a management operation runs
-- (`smp_processor_id()`). The loops over one array stand in Bdev/Arrays, the device's model name
-- in Bdev/Model.
pub mod Model
pub mod Arrays
pub mod Slots
pub mod Invariant
pub mod EachCpu
pub mod Remove
pub mod RemovePath
pub mod AddSteps
pub mod AddPath
pub mod Lookup
pub mod Trim
pub mod Examples
use standalone_linux_io_trac.Base.{
  ℕ, zero, suc, ◌+◌, ◌-◌, Bool, true, false, List, [], ◌∷◌, Option, none, some, ◌==◌, leb,
  if◌then◌else◌, get_elem?, set,
}
use standalone_linux_io_trac.Kernel.{
  Result, ok, err, einval, enospc, eperm, enoent, ◌>>=◌, bug_on, set_cpu, on_each_cpu,
}
use standalone_linux_io_trac.Strings.{strnlen, c_string}
use standalone_linux_io_trac.Context.{Context, BlockDevice}
use standalone_linux_io_trac.Trace.{Octf}
use standalone_linux_io_trac.IoTrace.Desc.{trace_desc}
use Model.{bdev_get_model, max_devices, path_max}
use Arrays.{queue_traced, list_names, find_index}

-- What the kernel does for this file: what stands at a device pointer, the files of sysfs, and
-- the devices at paths.
pub record Devices : Type 0 where
  pub dev : ℕ → BlockDevice
  pub read_file : List ℕ → Option (List ℕ)
  pub get_by_path : List ℕ → Result ℕ
  pub lookup_bdev : List ℕ → Result ℕ

-- Taking and dropping one reference.
abbrev pub get_ref : (ℕ → ℕ) → ℕ → ℕ → ℕ
get_ref refs d a = if a == d then refs a + 1 else refs a

abbrev pub put_ref : (ℕ → ℕ) → ℕ → ℕ → ℕ
put_ref refs d a = if a == d then refs a - 1 else refs a

module _ {T : Type 0} where
  abbrev pub set_list : Context T → (ℕ → List (Option ℕ)) → Context T
  set_list ctx list = record ctx { bdev = record (ctx.bdev) { list = list } }

  abbrev pub set_num : Context T → ℕ → Context T
  set_num ctx num = record ctx { bdev = record (ctx.bdev) { num = num } }

  -- `mutex_lock` and `mutex_unlock` of `iotrace->mutex`; one that is taken twice never returns.
  abbrev pub mutex_lock : Context T → Option (Context T)
  mutex_lock ctx = if ctx.locked then none else some (record ctx { locked = true })

  abbrev pub mutex_unlock : Context T → Context T
  mutex_unlock ctx = record ctx { locked = false }

  abbrev pub blkdev_get : Context T → ℕ → Context T
  blkdev_get ctx d = record ctx { blkdev_refs = get_ref ctx.blkdev_refs d }

  abbrev pub blkdev_put : Context T → ℕ → Context T
  blkdev_put ctx d = record ctx { blkdev_refs = put_ref ctx.blkdev_refs d }

  -- `iotrace_bdev_remove_oncpu`, at the index `idx`; a place outside the array faults.
  unfoldable pub remove_oncpu : ℕ → ℕ → Context T → Option (Context T)
  remove_oncpu idx cpu ctx =
      let arr = ctx.bdev.list cpu in
      bug_on (ctx.bdev.num == 0) (
        get_elem? arr (ctx.bdev.num - 1) >>= λ last.
        some (
          set_list ctx
            (set_cpu ctx.bdev.list cpu (set (set arr idx last) (ctx.bdev.num - 1) none))))

  -- `iotrace_bdev_remove_locked`.
  unfoldable pub remove_locked : List ℕ → ℕ → ℕ → Context T → Option (Context T × Result (Unit {0}))
  remove_locked cpus cpu bdev ctx = do
    found ← find_index (ctx.bdev.list cpu) ctx.bdev.num 0 bdev
    elim found [
      | none ↦ some (ctx, err enoent)
      | some idx ↦ do
        ctx' ← on_each_cpu cpus (remove_oncpu idx) ctx
        some (blkdev_put (set_num ctx' (ctx'.bdev.num - 1)) bdev, ok tt)
    ]

  -- The loop of `iotrace_bdev_remove_all_locked`, on fuel; `none` too if the fuel runs out, or
  -- if the last place in use holds no pointer to remove.
  unfoldable pub remove_all_loop : ℕ → List ℕ → ℕ → Context T → Option (Context T)
  remove_all_loop zero cpus cpu ctx = if ctx.bdev.num == 0 then some ctx else none
  remove_all_loop (suc fuel) cpus cpu ctx = elim (ctx.bdev.num == 0) [
    | true ↦ some ctx
    | false ↦ do
      place ← get_elem? (ctx.bdev.list cpu) (ctx.bdev.num - 1)
      bdev ← place
      (ctx', r) ← remove_locked cpus cpu bdev ctx
      remove_all_loop fuel cpus cpu ctx'
  ]

  unfoldable pub remove_all_locked : List ℕ → ℕ → Context T → Option (Context T)
  remove_all_locked cpus cpu ctx = remove_all_loop ctx.bdev.num cpus cpu ctx

  -- `iotrace_bdev_list`: the names of the traced devices.
  unfoldable pub bdev_list :
      Devices → ℕ → ℕ → Context T → Option (Context T × Result (List (List ℕ)))
  bdev_list k entry_len cpu ctx0 = do
    ctx ← mutex_lock ctx0
    names ← list_names k.dev (ctx.bdev.list cpu) ctx.bdev.num entry_len
    some (mutex_unlock ctx, names)

  -- `iotrace_bdev_remove` behind the lookup; the reference that `lookup_bdev` takes is dropped by
  -- `bdput`.
  unfoldable pub remove_found :
      List ℕ → ℕ → Result ℕ → Context T → Option (Context T × Result (Unit {0}))
  remove_found cpus cpu (err e) ctx0 = some (ctx0, err e)
  remove_found cpus cpu (ok bdev) ctx0 = do
    ctx ← mutex_lock (record ctx0 { inode_refs = get_ref ctx0.inode_refs bdev })
    (ctx', r) ← remove_locked cpus cpu bdev ctx
    let ctx'' = mutex_unlock ctx'
    some (record ctx'' { inode_refs = put_ref ctx''.inode_refs bdev }, r)

  unfoldable pub bdev_remove :
      Devices → List ℕ → ℕ → List ℕ → Context T → Option (Context T × Result (Unit {0}))
  bdev_remove k cpus cpu path ctx =
      if leb path_max (strnlen path path_max)
      then some (ctx, err einval)
      else remove_found cpus cpu (k.lookup_bdev path) ctx

module _ {T H : Type 0} (o : Octf T H) (k : Devices) where
  -- `bd_contains == bdev ? get_capacity(bd_disk) : bd_part->nr_sects`.
  abbrev pub bdev_size : ℕ → ℕ
  bdev_size bdev =
      if (k.dev bdev).bd_contains == bdev then (k.dev bdev).capacity else (k.dev bdev).nr_sects

  -- `iotrace_bdev_add_oncpu`; the result of `iotrace_trace_desc` is not looked at.
  unfoldable pub add_oncpu : ℕ → List ℕ → ℕ → Context T → Option (Context T)
  add_oncpu bdev model cpu ctx = bug_on (leb max_devices ctx.bdev.num) (
      some
        (trace_desc o
          (set_list ctx
            (set_cpu ctx.bdev.list cpu (set (ctx.bdev.list cpu) ctx.bdev.num (some bdev))))
          cpu (k.dev bdev).devt (k.dev bdev).disk_name (c_string model) (bdev_size bdev)).0)

  -- `iotrace_bdev_add` from the lookup of the queue on: `ctx` holds the mutex and a reference.
  unfoldable pub add_opened : List ℕ → ℕ → ℕ → Context T → Option (Context T × Result (Unit {0}))
  add_opened cpus cpu bdev ctx = do
    traced ← queue_traced k.dev (ctx.bdev.list cpu) ctx.bdev.num (k.dev bdev).bd_queue
    elim traced [
      | true ↦ some (mutex_unlock (blkdev_put ctx bdev), err eperm)
      | false ↦
          if ctx.trace_state.clients == 0
          then some (mutex_unlock (blkdev_put ctx bdev), err einval)
          else (do
            ctx' ← on_each_cpu cpus (add_oncpu bdev (bdev_get_model k.read_file (k.dev bdev))) ctx
            some (mutex_unlock (set_num ctx' (ctx'.bdev.num + 1)), ok tt))
    ]

  -- `iotrace_bdev_add` behind `blkdev_get_by_path`.
  unfoldable pub add_found :
      List ℕ → ℕ → Result ℕ → Context T → Option (Context T × Result (Unit {0}))
  add_found cpus cpu (err e) ctx = some (mutex_unlock ctx, err e)
  add_found cpus cpu (ok bdev) ctx = add_opened cpus cpu bdev (blkdev_get ctx bdev)

  -- `iotrace_bdev_add`.
  unfoldable pub bdev_add : List ℕ → ℕ → List ℕ → Context T → Option (Context T × Result (Unit {0}))
  bdev_add cpus cpu path ctx0 =
      if leb path_max (strnlen path path_max) then some (ctx0, err einval) else (do
        ctx ← mutex_lock ctx0
        if ctx.bdev.num == max_devices
            then some (mutex_unlock ctx, err enospc)
            else add_found cpus cpu (k.get_by_path path) ctx)
