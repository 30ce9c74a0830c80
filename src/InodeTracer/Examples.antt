-- ===== src/InodeTracer/Examples.antt =====
-- A file in the root directory, and the inode tracer on it.
use standalone_linux_io_trac.Base.{
  ℕ, ◌+◌, ◌≡◌, refl, List, [], Option, none, some, arith, true, suc, zero,
}
use standalone_linux_io_trac.Kernel.{err, enospc}
use standalone_linux_io_trac.Strings.{codes}
use standalone_linux_io_trac.Inode.{Inode, Mode, reg, dir}
use standalone_linux_io_trac.Trace.{Octf, write_event}
use standalone_linux_io_trac.Trace.Events.{Event}
use standalone_linux_io_trac.Bdev.Examples.{ring}
use standalone_linux_io_trac.InodeTracer.{InodeTracer, create_inode_tracer, lookup}
use standalone_linux_io_trac.InodeTracer.Invariant.{IsValid, mapped, mapped-IsValid, create-IsValid}
use standalone_linux_io_trac.InodeTracer.Lookup.{lookup-Outcome, Outcome}
use standalone_linux_io_trac.InodeTracer.Walk.{Dentries, Walk, trace_inode}
use standalone_linux_io_trac.InodeTracer.WalkRound.{HasRoom}
use standalone_linux_io_trac.InodeTracer.WalkEnds.{trace_inode_ends, Rises}
use standalone_linux_io_trac.InodeTracer.WalkStuck.{trace_inode_stuck, StaysFull, Uncached}

abbrev pub buckets : ℕ → ℕ
buckets n = n

abbrev pub inode_of : ℕ → Mode → Inode
inode_of n m = record {
  address = n + 1000;
  i_ino = n;
  i_mode = m;
  i_size = 5000;
  i_ctime = record { tv_sec = 1; tv_nsec = 2 };
  s_dev = 3;
}

-- Dentry 0 is the root, and dentry 1 a file in it.
abbrev tree_parent : ℕ → Option ℕ
tree_parent d = some 0

abbrev tree_inode : ℕ → Inode
tree_inode zero = inode_of 2 dir
tree_inode (suc d) = inode_of 12 reg

abbrev pub tree : Dentries
tree = record {
  find_alias = λ a. some 1;
  parent = tree_parent;
  d_inode = tree_inode;
  d_name = λ d. codes "file";
  add_mark_ok = λ a. true;
}

abbrev pub start : {T : Type 0} → T → Walk T
start t = record {
  sid = 0;
  trace = t;
  tracer = create_inode_tracer;
  fsm = true;
  marks = [];
  dentry_refs = λ a. 0;
}

abbrev with_file : InodeTracer
with_file = mapped buckets create_inode_tracer (inode_of 12 reg) 0

with_file-IsValid : IsValid buckets with_file
with_file-IsValid =
    let v = create-IsValid buckets in
    mapped-IsValid buckets create_inode_tracer (inode_of 12 reg) 0 v (ground (arith, v.lru 0))

lookup-Outcome_example :
    Outcome 12
      (with_file.hash_table 12)
      with_file
      (inode_of 12 reg)
      (lookup buckets with_file (inode_of 12 reg))
lookup-Outcome_example = lookup-Outcome buckets with_file (inode_of 12 reg) with_file-IsValid

pub ring-HasRoom : HasRoom ring
unfolding write_event
ring-HasRoom fill t = refl

pub tree-Rises : Rises tree 1 1
tree-Rises = (0, refl, refl)

trace_inode_ends_example :
    (w' : Walk (List Event)) × (trace_inode ring buckets tree 3 (start []) (inode_of 12 reg)
      ≡ some w')
    × IsValid buckets w'.tracer
    × ((a : ℕ) → w'.dentry_refs a ≡ 0)
trace_inode_ends_example =
    trace_inode_ends ring buckets tree 1 (start []) (inode_of 12 reg) 1 ring-HasRoom refl refl
      tree-Rises (create-IsValid buckets)

-- A ring without room.
abbrev pub full_ring : Octf (List Event) ℕ
full_ring = record ring { get_wr_buffer = λ t n. (t, err enospc) }

abbrev pub Always : List Event → Type 0
Always t = Unit {0}

pub full_ring-StaysFull : StaysFull full_ring Always
full_ring-StaysFull = record { refuses = λ t n f. (enospc, refl); stays = λ t n f. tt }

empty-Uncached : (inode : Inode) → Uncached buckets create_inode_tracer inode
unfolding create_inode_tracer
empty-Uncached inode e h = absurd (omega arith)

trace_inode_stuck_example :
    trace_inode full_ring buckets tree 100 (start []) (inode_of 12 reg) ≡ none
trace_inode_stuck_example =
    trace_inode_stuck full_ring buckets tree Always full_ring-StaysFull 100 1 (start [])
      (inode_of 12 reg) 1 refl refl
      (0, refl, empty-Uncached (inode_of 12 reg), (refl, empty-Uncached (inode_of 2 dir))) tt
