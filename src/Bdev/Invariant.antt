-- ===== src/Bdev/Invariant.antt =====
-- The well-formed states of the device lists, and the two operations that run on every CPU.
use standalone_linux_io_trac.Base.{
  ℕ, ◌≤◌, ◌≡◌, true, List, ◌∷◌, arith, if◌then◌else◌, length, count, elem, Distinct,
}
use standalone_linux_io_trac.Kernel.{set_cpu}
use standalone_linux_io_trac.Context.{Context, BlockDevice}
use standalone_linux_io_trac.Bdev.Slots.{slots, queue_count}

-- The state tracks the devices `ds`: every online CPU's array holds them and then `NULL`s, there
-- are `num` of them, at most 32, no two on one request queue, and the module holds one reference
-- to each and none else.
pub record Tracks {T : Type 0} (dev : ℕ → BlockDevice) (cpus ds : List ℕ) (ctx : Context T)
    : Type 0 where
  pub num : ctx.bdev.num ≡ length ds
  pub bounded : length ds ≤ 32
  pub same : (c : ℕ) → elem c cpus ≡ true → ctx.bdev.list c ≡ slots 32 ds
  pub queues : (q : ℕ) → queue_count dev q ds ≤ 1
  pub refs : (a : ℕ) → ctx.blkdev_refs a ≡ count a ds

-- An operation is under way: the CPUs of `rest` still have the array `old`, the others `new`.
pub record Halfway {T : Type 0} (cpus old new rest : List ℕ) (ctx ctx' : Context T) : Type 0 where
  pub lists :
      (c : ℕ)
      → elem c cpus ≡ true
      → ctx'.bdev.list c ≡ (if elem c rest then slots 32 old else slots 32 new)
  pub within : (c : ℕ) → elem c rest ≡ true → elem c cpus ≡ true
  pub distinct : Distinct rest
  pub num : ctx'.bdev.num ≡ ctx.bdev.num
  pub blkdev_refs : ctx'.blkdev_refs ≡ ctx.blkdev_refs
  pub inode_refs : ctx'.inode_refs ≡ ctx.inode_refs
  pub locked : ctx'.locked ≡ ctx.locked
  pub clients : ctx'.trace_state.clients ≡ ctx.trace_state.clients

module _ {T : Type 0} (cpus old new : List ℕ) (ctx : Context T) where
  -- A step on `cpu` that writes `new` there and nothing else of the device lists.
  pub Halfway-step :
      (cpu : ℕ) (rest : List ℕ) (s s' : Context T)
      → Halfway cpus old new (cpu ∷ rest) ctx s
      → s'.bdev.list ≡ set_cpu s.bdev.list cpu (slots 32 new)
      → s'.bdev.num ≡ s.bdev.num
      → s'.blkdev_refs ≡ s.blkdev_refs
      → s'.inode_refs ≡ s.inode_refs
      → s'.locked ≡ s.locked
      → s'.trace_state.clients ≡ s.trace_state.clients
      → Halfway cpus old new rest ctx s'
  Halfway-step cpu rest s s' h l n r i k c = record {
    lists = λ x p. rw l (ground (arith, h.lists x p));
    within = λ x p. h.within x (ground arith);
    distinct = h.distinct.1;
    num = ground arith;
    blkdev_refs = cc;
    inode_refs = cc;
    locked = cc;
    clients = cc;
  }

  -- The array of a CPU that is still to run.
  pub Halfway-list :
      (cpu : ℕ) (rest : List ℕ) (s : Context T)
      → Halfway cpus old new (cpu ∷ rest) ctx s
      → s.bdev.list cpu ≡ slots 32 old
  Halfway-list cpu rest s h = ground (arith, h.lists cpu (h.within cpu (ground arith)))
