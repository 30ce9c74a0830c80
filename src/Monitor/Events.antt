-- ===== src/Monitor/Events.antt =====
-- source/kernel/trace_inode.c: the events that the monitor is told of, on one CPU.
use standalone_linux_io_trac.Base.{
  ℕ, ◌+◌, ◌≡◌, refl, Bool, true, false, List, Option, none, some, arith, if◌then◌else◌, Bool-cases,
  inl, inr, sym,
}
use standalone_linux_io_trac.Kernel.{Result, ok, err, Errno, err_is_not}
use standalone_linux_io_trac.Trace.{Octf, init_hdr}
use standalone_linux_io_trac.Trace.Events.{
  Event, FsEventType, create, delete, move_from, move_to, file_event, fs_file_event,
}
use standalone_linux_io_trac.Inode.{Inode, file_id_of}
use standalone_linux_io_trac.IoTrace.Desc.{next_sid}
use standalone_linux_io_trac.InodeTracer.Walk.{Dentries, fs_add_mark}
use standalone_linux_io_trac.InodeTracer.WalkStuck.{StaysFull}

-- What the handler changes: the CPU's producer, the numbers of the events, the inodes that the
-- group marks, and how often preemption is disabled on the CPU.
pub record Watch (T : Type 0) : Type 0 where
  pub trace : T
  pub sid : ℕ
  pub marks : List ℕ
  pub preempt_count : ℕ

-- The bits of an event's mask that the handler reads.
pub record Mask : Type 0 where
  pub moved_from : Bool
  pub moved_to : Bool
  pub created : Bool
  pub delete_self : Bool
  pub opened : Bool

-- What an event comes with: a path or an inode, with the inode, nothing, or something else.
pub data EventData : Type 0 where
  event_path event_inode : Inode → EventData
  event_none event_other : EventData

module _ {T H : Type 0} (o : Octf T H) where
  abbrev pub file_event_of : ℕ → Inode → FsEventType → Event
  file_event_of sid inode ty = file_event (record {
    hdr = init_hdr o fs_file_event sid;
    partition_id = inode.s_dev;
    file_id = file_id_of inode;
    fs_event_type = ty;
  })

  -- The end of `_trace_file_event` behind `get_cpu`: without a buffer it returns at once.
  abbrev pub written_event : Inode → FsEventType → ℕ → Watch T → T × Result H → Watch T
  written_event inode ty sid s (t, err e) = record s {
    trace = t;
    sid = sid;
    preempt_count = s.preempt_count + 1;
  }
  written_event inode ty sid s (t, ok h) = record s {
    trace = (o.commit_wr_buffer t h (file_event_of sid inode ty)).0;
    sid = sid;
  }

  -- `_trace_file_event`.
  unfoldable pub trace_file_event : Inode → FsEventType → Watch T → Watch T
  trace_file_event inode ty s =
      written_event inode ty (next_sid s.sid) s (o.get_wr_buffer s.trace (o.size_of fs_file_event))

  abbrev pub when : Bool → (Watch T → Watch T) → Watch T → Watch T
  when b f s = if b then f s else s

  module _ (k : Dentries) where
    abbrev pub mark : Inode → Watch T → Watch T
    mark inode s = record s { marks = fs_add_mark k s.marks inode.address }

    -- `_fs_handle_event` behind the choice of the inode. `FS_CREATE` is one of
    -- `IOTRACE_FSNOTIFY_EVENTS`, so a mask with it always has an event written.
    unfoldable pub handle_inode : Inode → Mask → Watch T → Watch T
    handle_inode inode m s0 =
        let s1 = when m.moved_from (trace_file_event inode move_from) s0 in
        let s2 = when m.moved_to (trace_file_event inode move_to) s1 in
        let s3 = when m.created (λ s. trace_file_event inode create (mark inode s)) s2 in
        let s4 = when m.delete_self (trace_file_event inode delete) s3 in
        when m.opened (mark inode) s4

    -- `_fs_handle_event`; other data is a `BUG`.
    unfoldable pub fs_handle_event : EventData → Mask → Watch T → Option (Watch T)
    fs_handle_event (event_path inode) m s = some (handle_inode inode m s)
    fs_handle_event (event_inode inode) m s = some (handle_inode inode m s)
    fs_handle_event event_none m s = some s
    fs_handle_event event_other m s = none

-- How many events a mask has written.
abbrev pub events : Mask → ℕ
events m =
    (if m.moved_from then 1 else 0)
    + (if m.moved_to then 1 else 0)
    + (if m.created then 1 else 0)
    + (if m.delete_self then 1 else 0)

module _ {T H : Type 0} (o : Octf T H) (k : Dentries) (IsFull : T → Type 0)
    (full : StaysFull o IsFull) where
  -- `n` more times disabled, and the ring still full.
  abbrev pub Disabled : ℕ → Watch T → Watch T → Type 0
  Disabled n s s' = (s'.preempt_count ≡ s.preempt_count + n) × IsFull s'.trace

  refused :
      (inode : Inode) (ty : FsEventType) (sid : ℕ) (s : Watch T) (g : T × Result H) (e : Errno)
      → g.1 ≡ err e
      → IsFull g.0
      → Disabled 1 s (written_event o inode ty sid s g)
  refused inode ty sid s (t, ok h) e r f = absurd (err_is_not (sym r))
  refused inode ty sid s (t, err c) e r f = (refl, f)

  trace_file_event-Disabled :
      (inode : Inode) (ty : FsEventType) (s : Watch T)
      → IsFull s.trace
      → Disabled 1 s (trace_file_event o inode ty s)
  unfolding trace_file_event
  trace_file_event-Disabled inode ty s f =
      let (e, r) = full.refuses s.trace (o.size_of fs_file_event) f in
      refused inode ty (next_sid s.sid) s (o.get_wr_buffer s.trace (o.size_of fs_file_event)) e r
        (full.stays s.trace (o.size_of fs_file_event) f)

  when-Disabled :
      (b : Bool) (g : Watch T → Watch T) (s : Watch T)
      → IsFull s.trace
      → Disabled 1 s (g s)
      → Disabled (if b then 1 else 0) s (when o b g s)
  when-Disabled true g s f p = p
  when-Disabled false g s f p = (omega arith, f)

  then_Disabled :
      (n m : ℕ) (s s1 s2 : Watch T) → Disabled n s s1 → Disabled m s1 s2 → Disabled (n + m) s s2
  then_Disabled n m s s1 s2 (a, f) (b, g) = (omega (arith, a, b), g)

  handle_inode-Disabled :
      (inode : Inode) (m : Mask) (s : Watch T)
      → IsFull s.trace
      → Disabled (events m) s (handle_inode o k inode m s)
  unfolding handle_inode
  handle_inode-Disabled inode m s f =
      let from = trace_file_event o inode move_from in
      let to = trace_file_event o inode move_to in
      let made : Watch T → Watch T = λ x. trace_file_event o inode create (mark o k inode x) in
      let gone = trace_file_event o inode delete in
      let s1 = when o m.moved_from from s in
      let s2 = when o m.moved_to to s1 in
      let s3 = when o m.created made s2 in
      let s4 = when o m.delete_self gone s3 in
      let d1 =
        when-Disabled m.moved_from from s f (trace_file_event-Disabled inode move_from s f) in
      let d2 =
        when-Disabled m.moved_to to s1 d1.1 (trace_file_event-Disabled inode move_to s1 d1.1) in
      let d3 =
        when-Disabled m.created made s2 d2.1
          (trace_file_event-Disabled inode create (mark o k inode s2) d2.1) in
      let d4 =
        when-Disabled m.delete_self gone s3 d3.1 (trace_file_event-Disabled inode delete s3 d3.1) in
      let d : Disabled (events m) s s4 =
        then_Disabled _ _ s s3 s4 (then_Disabled _ _ s s2 s3 (then_Disabled _ _ s s1 s2 d1 d2) d3)
          d4 in
      elim (Bool-cases m.opened) [ inl y ↦ rw y d | inr n ↦ rw n d ]

  -- While the CPU's ring is full and stays so, `_fs_handle_event` of a path's or an inode's event
  -- comes back with preemption disabled once more for each event that the mask has written: the
  -- early return of `_trace_file_event` leaves out `put_cpu`.
  pub fs_handle_event-Disabled :
      (inode : Inode) (m : Mask) (s : Watch T)
      → IsFull s.trace
      → (s' : Watch T) × (fs_handle_event o k (event_path inode) m s ≡ some s')
        × (fs_handle_event o k (event_inode inode) m s ≡ some s')
        × (s'.preempt_count ≡ s.preempt_count + events m)
        × IsFull s'.trace
  unfolding fs_handle_event
  fs_handle_event-Disabled inode m s f =
      let (more, still) = handle_inode-Disabled inode m s f in
      (handle_inode o k inode m s, refl, refl, more, still)
