-- ===== src/InodeTracer/Walk.antt =====
-- source/kernel/trace_inode.c: `_trace_filename`, `_fs_add_mark` as the walk calls it, and
-- `iotrace_trace_inode`, the walk from an inode to its parents that writes the name of each one
-- that is not in the cache.
use standalone_linux_io_trac.Base.{
  ℕ, zero, suc, ◌+◌, ◌-◌, Bool, true, false, List, ◌∷◌, Option, none, some, min, take, length, elem,
  if◌then◌else◌, ◌==◌,
}
use standalone_linux_io_trac.Kernel.{Result, ok, err, ◌>>=◌}
use standalone_linux_io_trac.Trace.{Octf, init_hdr, write_event}
use standalone_linux_io_trac.Trace.Events.{Event, EventType, FileId, name_event}
use standalone_linux_io_trac.Inode.{Inode, Mode, reg, dir, blk, other_mode, file_id_of}
use standalone_linux_io_trac.InodeTracer.{InodeTracer, lookup, map_inode}
use standalone_linux_io_trac.IoTrace.Desc.{next_sid}

-- The kernel's dentries, by number: `d_find_alias` of an inode's address, `dget_parent` (the
-- parent of a root is the root), `d_inode` and `d_name`; and whether `fsnotify_add_mark` takes a
-- mark for the inode at an address.
pub record Dentries : Type 0 where
  pub find_alias : ℕ → Option ℕ
  pub parent : ℕ → Option ℕ
  pub d_inode : ℕ → Inode
  pub d_name : ℕ → List ℕ
  pub add_mark_ok : ℕ → Bool

-- What the walk reads and writes: the sequence number, the CPU's ring, the inode tracer, whether
-- it has a file system monitor, the inodes with a mark of its group, and the references to
-- dentries that the walk holds.
pub record Walk (T : Type 0) : Type 0 where
  pub sid : ℕ
  pub trace : T
  pub tracer : InodeTracer
  pub fsm : Bool
  pub marks : List ℕ
  pub dentry_refs : ℕ → ℕ

abbrev pub dget : (ℕ → ℕ) → Option ℕ → ℕ → ℕ
dget refs none a = refs a
dget refs (some d) a = if a == d then refs a + 1 else refs a

abbrev pub dput : (ℕ → ℕ) → ℕ → ℕ → ℕ
dput refs d a = if a == d then refs a - 1 else refs a

abbrev pub is_dir : Mode → Bool
is_dir dir = true
is_dir reg = false
is_dir blk = false
is_dir other_mode = false

abbrev pub zero_file_id : FileId
zero_file_id = record { id = 0; ctime = record { tv_sec = 0; tv_nsec = 0 } }

-- `_fs_add_mark` of an inode's address: nothing if the group has a mark there, or if the mark is
-- not taken.
abbrev pub fs_add_mark : Dentries → List ℕ → ℕ → List ℕ
fs_add_mark k marks inode =
    if elem inode marks then marks else if k.add_mark_ok inode then inode ∷ marks else marks

abbrev pub mark_parent : Dentries → Bool → List ℕ → Option ℕ → List ℕ
mark_parent k fsm marks none = marks
mark_parent k fsm marks (some parent) =
    if is_dir (k.d_inode parent).i_mode
    then (if fsm then fs_add_mark k marks (k.d_inode parent).address else marks)
    else marks

abbrev pub parent_id : Dentries → Option ℕ → FileId
parent_id k none = zero_file_id
parent_id k (some parent) = file_id_of (k.d_inode parent)

module _ {T H : Type 0} (o : Octf T H) (hash : ℕ → ℕ) (k : Dentries) where
  -- The event of `_trace_filename`; the name is cut to the field's size less the terminator.
  abbrev pub file_name : ℕ → Inode → FileId → ℕ → Event
  file_name sid inode parent dentry = name_event (record {
    hdr = init_hdr o EventType.fs_file_name sid;
    partition_id = inode.s_dev;
    file_id = file_id_of inode;
    file_parent_id = parent;
    file_name = take (min (length (k.d_name dentry)) (o.file_name_size - 1)) (k.d_name dentry);
  })

  abbrev pub map_traced : Result (Unit {0}) → InodeTracer → Inode → Option InodeTracer
  map_traced (ok u) t inode = map_inode hash t inode
  map_traced (err e) t inode = some t

  -- One round of the loop behind a lookup that found nothing: the state that goes on to the parent.
  unfoldable pub trace_dentry : Walk T → Inode → ℕ → Option (Walk T)
  trace_dentry w inode dentry =
      let parent = k.parent dentry in
      let sid = next_sid w.sid in
      let (trace, r) =
        write_event o EventType.fs_file_name (λ h. file_name sid inode (parent_id k parent) dentry)
          w.trace in
      map_traced r w.tracer inode >>= λ tracer. some (record {
        sid = sid;
        trace = trace;
        tracer = tracer;
        fsm = w.fsm;
        marks = mark_parent k w.fsm w.marks parent;
        dentry_refs = dput (dget w.dentry_refs parent) dentry;
      })

  -- The loop, on fuel; `none` if it runs out.
  unfoldable pub walk : ℕ → Walk T → Inode → ℕ → Option (Walk T)
  walk zero w inode dentry = none
  walk (suc fuel) w inode dentry =
      let found = lookup hash w.tracer inode in
      let w' = record w { tracer = found.0 } in
      elim found.1 [
        | some e ↦ some (record w' { dentry_refs = dput w'.dentry_refs dentry })
        | none ↦ trace_dentry w' inode dentry >>= λ w''. elim (k.parent dentry) [
          | none ↦ some w''
          | some parent ↦ walk fuel w'' (k.d_inode parent) parent
        ]
      ]

  -- `iotrace_trace_inode`.
  unfoldable pub trace_inode : ℕ → Walk T → Inode → Option (Walk T)
  trace_inode fuel w inode = elim (k.find_alias inode.address) [
    | none ↦ some w
    | some dentry ↦
        walk fuel (record w { dentry_refs = dget w.dentry_refs (some dentry) }) inode dentry
  ]
