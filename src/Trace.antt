-- ===== src/Trace.antt =====
-- The trace buffers, whose code is the octf submodule's (trace.h): its operations are a
-- parameter of the model. `T` is a producer's handle with its ring, `H` the handle of one event
-- in the making. `ktime` gives the clock's reading when the event with a number is written;
-- numbers are handed out once each. The sizes are those of iotrace_event.h. A producer gets a
-- buffer of its event's size, fills the event in and commits it: `write_event`, by which the
-- producers of io_trace.c, trace_bio.c and trace_inode.c are written.
pub mod Events
pub mod Log
use standalone_linux_io_trac.Base.{ℕ, List, ◌++◌, [], ◌∷◌, ◌≡◌}
use standalone_linux_io_trac.Kernel.{Result, ok, err}
use Events.{Event, EventType, EventHdr}

pub record Octf (T H : Type 0) : Type 0 where
  pub get_wr_buffer : T → ℕ → T × Result H
  pub commit_wr_buffer : T → H → Event → T × Result (Unit {0})
  pub is_almost_full : T → ℕ
  pub size_of : EventType → ℕ
  pub buffer_flags : H → ℕ
  pub ktime : ℕ → ℕ
  pub device_name_size : ℕ
  pub device_model_size : ℕ
  pub file_name_size : ℕ

-- What the module relies on, `log t` being the events that the consumer of `t` can read: getting
-- a buffer shows nothing, and a commit shows its event behind the earlier ones, or fails and
-- shows nothing.
pub record LogsEvents {T H : Type 0} (o : Octf T H) (log : T → List Event) : Type 0 where
  pub get_log : (t : T) (n : ℕ) → log (o.get_wr_buffer t n).0 ≡ log t
  pub commit_log :
      (t t' : T) (h : H) (e : Event)
      → o.commit_wr_buffer t h e ≡ (t', ok tt)
      → log t' ≡ log t ++ e ∷ []
  pub commit_err_log :
      (t t' : T) (h : H) (e : Event) (code : standalone_linux_io_trac.Kernel.Errno)
      → o.commit_wr_buffer t h e ≡ (t', err code)
      → log t' ≡ log t

module _ {T H : Type 0} (o : Octf T H) where
  -- `iotrace_event_init_hdr` with the arguments that every caller gives it.
  abbrev pub init_hdr : EventType → ℕ → EventHdr
  init_hdr k sid = record { event_type = k; sid = sid; timestamp = o.ktime sid; size = o.size_of k }

  abbrev pub fill_and_commit : (H → Event) → T × Result H → T × Result (Unit {0})
  fill_and_commit fill (t, err e) = (t, err e)
  fill_and_commit fill (t, ok h) = o.commit_wr_buffer t h (fill h)

  unfoldable pub write_event : EventType → (H → Event) → T → T × Result (Unit {0})
  write_event k fill t = fill_and_commit fill (o.get_wr_buffer t (o.size_of k))
