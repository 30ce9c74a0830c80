-- ===== src/Bio/Log.antt =====
-- What the tracing of a bio writes to its CPU's ring, and that it returns.
use standalone_linux_io_trac.Base.{ℕ, ◌+◌, ◌≡◌, refl, false, Option, some, Bool-cases, inl, inr}
use standalone_linux_io_trac.Kernel.{Result, ok, err}
use standalone_linux_io_trac.Trace.{Octf, fill_and_commit, write_event}
use standalone_linux_io_trac.Trace.Events.{EventType}
use standalone_linux_io_trac.IoTrace.Desc.{next_sid}
use standalone_linux_io_trac.InodeTracer.Invariant.{IsValid}
use standalone_linux_io_trac.InodeTracer.Walk.{Dentries, Walk}
use standalone_linux_io_trac.InodeTracer.WalkRound.{HasRoom}
use standalone_linux_io_trac.InodeTracer.WalkEnds.{Rises, trace_inode_ends}
use standalone_linux_io_trac.Bio.{Bio, BioInfo, bio_class, is_file_class}
use standalone_linux_io_trac.Bio.Classes.{file_class_info, IsFileData}
use standalone_linux_io_trac.Bio.Trace.{
  Flags, io_of, trace_bio_fs_meta, trace_bio, trace_bio_reserved, trace_file,
}

module _ {T H : Type 0} (o : Octf T H) (c : Flags) (hash : ℕ → ℕ) (k : Dentries) where
  reserved-other :
      (fuel : ℕ) (w : Walk T) (dev_id : ℕ) (bio : Bio) (g : T × Result H)
      → is_file_class (bio_class bio).0 ≡ false
      → trace_bio_reserved o c hash k fuel w dev_id bio g
        ≡ some (record w { trace = (fill_and_commit o (io_of o c w.sid dev_id bio) g).0 })
  reserved-other fuel w dev_id bio (t, err e) f = refl
  reserved-other fuel w dev_id bio (t, ok h) f = rw f refl

  -- A bio that carries no file data: the tracing returns, whatever the ring answers, and has
  -- used up a number and tried to write its own event, no more.
  pub trace_bio_other :
      (fuel : ℕ) (w : Walk T) (dev_id : ℕ) (bio : Bio)
      → is_file_class (bio_class bio).0 ≡ false
      → trace_bio o c hash k fuel w dev_id bio
        ≡ some (record w {
          sid = next_sid w.sid;
          trace = (write_event o EventType.io (io_of o c (next_sid w.sid) dev_id bio) w.trace).0;
        })
  unfolding trace_bio write_event
  trace_bio_other fuel w dev_id bio h =
      reserved-other fuel (record w { sid = next_sid w.sid }) dev_id bio
        (o.get_wr_buffer w.trace (o.size_of EventType.io)) h

  -- Every way of a file that a bio carries data of leads up to a root, in `n` steps.
  abbrev pub FilesRise : ℕ → Bio → Type 0
  FilesRise n bio =
      (info : BioInfo)
      → IsFileData bio info
      → (d : ℕ) × (k.find_alias info.inode.address ≡ some d)
        × (k.d_inode d ≡ info.inode)
        × Rises k n d

  Returned : Walk T → Option (Walk T) → Type 0
  Returned w out =
      (w' : Walk T) × (out ≡ some w')
      × IsValid hash w'.tracer
      × ((a : ℕ) → w'.dentry_refs a ≡ w.dentry_refs a)

  file-Returned :
      (n : ℕ) (w : Walk T) (bio : Bio) (info : BioInfo) (d : ℕ)
      → HasRoom o
      → k.find_alias info.inode.address ≡ some d
      → k.d_inode d ≡ info.inode
      → Rises k n d
      → IsValid hash w.tracer
      → Returned w (trace_file o c hash k (n + 2) w bio (some info))
  unfolding Returned trace_bio_fs_meta
  file-Returned n w bio info d room found same rise v =
      trace_inode_ends o hash k n (trace_bio_fs_meta o c w bio info) info.inode d room found same
        rise v

  reserved-Returned :
      (n : ℕ) (w : Walk T) (dev_id : ℕ) (bio : Bio) (g : T × Result H)
      → HasRoom o
      → FilesRise n bio
      → IsValid hash w.tracer
      → Returned w (trace_bio_reserved o c hash k (n + 2) w dev_id bio g)
  unfolding Returned
  reserved-Returned n w dev_id bio (t, err e) room rise v =
      (record w { trace = t }, refl, v, λ a. refl)
  reserved-Returned n w dev_id bio (t, ok h) room rise v =
      let w' = record w { trace = (o.commit_wr_buffer t h (io_of o c w.sid dev_id bio h)).0 } in
      elim (Bool-cases (is_file_class (bio_class bio).0)) [
        | inr other ↦ rw other (w', refl, v, λ a. refl)
        | inl f ↦
            let (info, e, carried) = file_class_info bio f in
            let (d, found, same, up) = rise info carried in
            rw (f, e) (file-Returned n w' bio info d room found same up v)
      ]

  -- While the ring has room for every name and the cache is well formed, the tracing of a bio
  -- returns if every file that the bio carries data of has a dentry n steps below a root: the
  -- cache is well formed then, and every reference to a dentry is given back.
  pub trace_bio_returns :
      (n : ℕ) (w : Walk T) (dev_id : ℕ) (bio : Bio)
      → HasRoom o
      → FilesRise n bio
      → IsValid hash w.tracer
      → (w' : Walk T) × (trace_bio o c hash k (n + 2) w dev_id bio ≡ some w')
        × IsValid hash w'.tracer
        × ((a : ℕ) → w'.dentry_refs a ≡ w.dentry_refs a)
  unfolding trace_bio Returned
  trace_bio_returns n w dev_id bio room rise v =
      reserved-Returned n (record w { sid = next_sid w.sid }) dev_id bio
        (o.get_wr_buffer w.trace (o.size_of EventType.io)) room rise v
