-- ===== src/Monitor.antt =====
-- source/kernel/trace_inode.c: the monitor of file system events, one for the inode tracers of all
-- CPUs: how it is created, shared and destroyed. Its memory is a heap by addresses; `none` is a
-- call that does not come back (a NULL dereference, freed memory, a failed `BUG_ON`).
pub mod Sharing
pub mod Init
pub mod Tracers
pub mod Lives
pub mod Events
pub mod Release
pub mod Marks
pub mod MarksOwned
pub mod Examples
use standalone_linux_io_trac.Base.{
  ℕ, ◌+◌, ◌-◌, Bool, true, false, List, [], ◌∷◌, Option, none, some, ◌==◌, not, if◌then◌else◌,
}
use standalone_linux_io_trac.Kernel.{Result, ok, err, enomem, ◌>>=◌, set_cpu}

-- `struct fs_monitor`: its count, and the references to its group.
pub record FsMonitor : Type 0 where
  pub refcnt : ℕ
  pub group_refs : ℕ

-- The allocated monitors, the next free address, and the inode tracer of every CPU, if there is
-- one, with its field `fsm`.
pub record Monitors : Type 0 where
  pub heap : ℕ → Option FsMonitor
  pub free : ℕ
  pub tracers : ℕ → Option (Option ℕ)

-- What the kernel answers: whether it is the one that the module was built for, whether the
-- functions of fsnotify are found (or were before), the allocations, and of a new group.
pub record Backend : Type 0 where
  pub compatible : Bool
  pub symbols : Bool
  pub kzalloc_fsm : Bool
  pub alloc_group : Bool
  pub kzalloc_priv : Bool
  pub vzalloc_tracer : ℕ → Bool

abbrev pub put_heap : Monitors → ℕ → Option FsMonitor → Monitors
put_heap w p v = record w { heap = set_cpu w.heap p v }

-- `_fs_monitor_get`.
unfoldable pub fs_monitor_get : ℕ → Monitors → Option Monitors
fs_monitor_get p w = w.heap p >>= λ m.
    some (put_heap w p (some (record { refcnt = m.refcnt + 1; group_refs = m.group_refs + 1 })))

-- `_fs_monitor_put`: `fsnotify_destroy_group` and `fsnotify_put_group` drop one reference each.
unfoldable pub fs_monitor_put : Option ℕ → Monitors → Option Monitors
fs_monitor_put none w = some w
fs_monitor_put (some p) w = w.heap p >>= λ m.
    if m.refcnt - 1 == 0
    then some (put_heap w p none)
    else some
        (put_heap w p (some (record { refcnt = m.refcnt - 1; group_refs = m.group_refs - 1 })))

-- One round of the loop of `_fsm_try_get`; `rest` is the loop behind.
abbrev pub fsm_or : Option (Option ℕ) → Option ℕ → Option ℕ
fsm_or none rest = rest
fsm_or (some none) rest = rest
fsm_or (some (some p)) rest = some p

-- The loop of `_fsm_try_get` up to the first tracer that has a monitor.
unfoldable pub find_fsm : List ℕ → Monitors → Option ℕ
find_fsm [] w = none
find_fsm (cpu ∷ cpus) w = fsm_or (w.tracers cpu) (find_fsm cpus w)

-- `_fsm_try_get`.
unfoldable pub fsm_try_get : List ℕ → Monitors → Option (Monitors × Option ℕ)
fsm_try_get cpus w = elim (find_fsm cpus w) [
  | none ↦ some (w, none)
  | some p ↦ fs_monitor_get p w >>= λ w'. some (w', some p)
]

module _ (b : Backend) (cpus : List ℕ) where
  -- The part of `_fsm_init` that allocates; a failed `kzalloc` is not tested.
  unfoldable pub fsm_create : Monitors → Option (Monitors × Option ℕ)
  fsm_create w =
      let p = w.free in
      if not b.kzalloc_fsm
      then none
      else if not b.alloc_group
      then some (record w { free = p + 1 }, none)
      else if not b.kzalloc_priv
      then none
      else some (
        record (put_heap w p (some (record { refcnt = 1; group_refs = 1 }))) { free = p + 1 },
        some p,
      )

  abbrev pub shared_or_created : Monitors × Option ℕ → Option (Monitors × Option ℕ)
  shared_or_created (w, some p) = some (w, some p)
  shared_or_created (w, none) = fsm_create w

  -- `_fsm_init`, with what it sets `inode_tracer->fsm` to.
  unfoldable pub fsm_init : Monitors → Option (Monitors × Option ℕ)
  fsm_init w =
      if not b.compatible
      then some (w, none)
      else if not b.symbols
      then some (w, none)
      else fsm_try_get cpus w >>= shared_or_created

  -- `iotrace_create_inode_tracer` for the CPU `cpu`, apart from the cache.
  unfoldable pub create_tracer : ℕ → Monitors → Option (Monitors × Result (Unit {0}))
  create_tracer cpu w =
      let w0 = record w { tracers = set_cpu w.tracers cpu none } in
      if not (b.vzalloc_tracer cpu)
      then some (w0, err enomem)
      else fsm_init w0 >>= λ r.
          some (record (r.0) { tracers = set_cpu r.0.tracers cpu (some r.1) }, ok tt)

-- `iotrace_destroy_inode_tracer` for the CPU `cpu`.
unfoldable pub destroy_tracer : ℕ → Monitors → Option Monitors
destroy_tracer cpu w = elim (w.tracers cpu) [
  | none ↦ some w
  | some fsm ↦
      fs_monitor_put fsm w >>= λ w'. some (record w' { tracers = set_cpu w'.tracers cpu none })
]
