-- ===== src/Bio/Trace.antt =====
-- source/kernel/trace_bio.c: `iotrace_trace_bio`, `_trace_bio_fs_meta` and
-- `iotrace_trace_bio_completion`, on what they read and write of a CPU's state: the sequence
-- number, the ring and the inode tracer.
use standalone_linux_io_trac.Base.{
  ℕ, ◌*◌, ◌/◌, ◌%◌, ◌^◌, bit_or, Bool, Option, none, some, ◌==◌, if◌then◌else◌,
}
use standalone_linux_io_trac.Kernel.{Result, ok, err}
use standalone_linux_io_trac.Trace.{Octf, init_hdr, write_event}
use standalone_linux_io_trac.Trace.Events.{Event, EventType, io_event, cmpl_event, meta_event}
use standalone_linux_io_trac.Inode.{file_id_of}
use standalone_linux_io_trac.IoTrace.Desc.{next_sid}
use standalone_linux_io_trac.InodeTracer.Walk.{Dentries, Walk, trace_inode}
use standalone_linux_io_trac.Bio.{
  Bio, BioInfo, bio_class, bio_to_id, is_flush, is_file_class, operation_of,
}

-- The place of `REQ_FUA` among the bits of `bi_opf`, and the two flags of an event.
pub record Flags : Type 0 where
  pub fua_bit : ℕ
  pub flag_flush : ℕ
  pub flag_fua : ℕ

module _ {T H : Type 0} (o : Octf T H) (c : Flags) where
  abbrev pub is_fua : Bio → Bool
  is_fua bio = bio.bi_opf / 2 ^ c.fua_bit % 2 == 1

  -- The two `|=`, on what the buffer held.
  abbrev pub flags_of : Bio → ℕ → ℕ
  flags_of bio old =
      let flushed = if is_flush bio then bit_or old c.flag_flush else old in
      if is_fua bio then bit_or flushed c.flag_fua else flushed

  abbrev pub io_of : ℕ → ℕ → Bio → H → Event
  io_of sid dev_id bio h = io_event (record {
    hdr = init_hdr o EventType.io sid;
    id = bio_to_id bio;
    operation = operation_of bio;
    flags = flags_of bio (o.buffer_flags h);
    lba = bio.bi_sector;
    len = bio.bi_size / 2 ^ 9;
    dev_id = dev_id;
    write_hint = bio.bi_write_hint;
    io_class = (bio_class bio).0;
  })

  abbrev pub cmpl_of : ℕ → ℕ → Bio → ℕ → H → Event
  cmpl_of sid dev_id bio error h = cmpl_event (record {
    hdr = init_hdr o EventType.io_cmpl sid;
    ref_id = bio_to_id bio;
    lba = bio.bi_sector;
    len = bio.bi_size / 2 ^ 9;
    error = error;
    dev_id = dev_id;
  })

  -- `page->index << (PAGE_SHIFT - SECTOR_SHIFT)` in 64 bits.
  abbrev pub meta_of : ℕ → Bio → BioInfo → H → Event
  meta_of sid bio info h = meta_event (record {
    hdr = init_hdr o EventType.fs_meta sid;
    ref_sid = bio_to_id bio;
    file_id = file_id_of info.inode;
    file_offset = info.page.index * 2 ^ 3 % 2 ^ 64;
    file_size = info.inode.i_size / 2 ^ 9;
    partition_id = info.inode.s_dev;
  })

  -- `_trace_bio_fs_meta`, with the number that its caller takes.
  unfoldable pub trace_bio_fs_meta : Walk T → Bio → BioInfo → Walk T
  trace_bio_fs_meta w bio info =
      let sid = next_sid w.sid in
      record w {
        sid = sid;
        trace = (write_event o EventType.fs_meta (meta_of sid bio info) w.trace).0;
      }

  module _ (hash : ℕ → ℕ) (k : Dentries) (fuel : ℕ) where
    -- The part behind the commit: for a file its metadata and its names. `info` not filled in
    -- would be a NULL dereference.
    abbrev pub trace_file : Walk T → Bio → Option BioInfo → Option (Walk T)
    trace_file w bio none = none
    trace_file w bio (some info) =
        trace_inode o hash k fuel (trace_bio_fs_meta w bio info) info.inode

    -- The part behind `octf_trace_get_wr_buffer`; what the commit returns is not looked at.
    abbrev pub trace_bio_reserved : Walk T → ℕ → Bio → T × Result H → Option (Walk T)
    trace_bio_reserved w dev_id bio (t, err e) = some (record w { trace = t })
    trace_bio_reserved w dev_id bio (t, ok h) =
        let w' = record w { trace = (o.commit_wr_buffer t h (io_of w.sid dev_id bio h)).0 } in
        if is_file_class (bio_class bio).0 then trace_file w' bio (bio_class bio).1 else some w'

    -- `iotrace_trace_bio`; `fuel` bounds the walk over the names.
    unfoldable pub trace_bio : Walk T → ℕ → Bio → Option (Walk T)
    trace_bio w dev_id bio =
        trace_bio_reserved (record w { sid = next_sid w.sid }) dev_id bio
          (o.get_wr_buffer w.trace (o.size_of EventType.io))

  -- `iotrace_trace_bio_completion`, on the last number and the CPU's ring.
  unfoldable pub trace_bio_completion : ℕ → T → ℕ → Bio → ℕ → ℕ × T
  trace_bio_completion last t dev_id bio error =
      let sid = next_sid last in
      (sid, (write_event o EventType.io_cmpl (cmpl_of sid dev_id bio error) t).0)
