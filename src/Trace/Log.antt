-- ===== src/Trace/Log.antt =====
-- What one write of a producer does to the log of its ring.
use standalone_linux_io_trac.Base.{List, ◌++◌, [], ◌∷◌, ◌≡◌, refl, ◌⊎◌, inl, inr}
use standalone_linux_io_trac.Kernel.{Result, ok, err, Errno}
use standalone_linux_io_trac.Trace.{Octf, LogsEvents, fill_and_commit, write_event}
use standalone_linux_io_trac.Trace.Events.{Event, EventType}

-- The write failed and the log is as it was, or its event stands at the end of the log.
abbrev pub Wrote : {H : Type 0} → (H → Event) → List Event → List Event → Result (Unit {0}) → Type 0
Wrote {H} fill before after r =
    ((code : Errno) × (r ≡ err code) × (after ≡ before))
    ⊎ ((h : H) × (r ≡ ok tt) × (after ≡ before ++ fill h ∷ []))

module _ {T H : Type 0} (o : Octf T H) (log : T → List Event) (logs : LogsEvents o log) where
  pub commit-Wrote :
      (fill : H → Event) (t : T) (h : H) (r : T × Result (Unit {0}))
      → o.commit_wr_buffer t h (fill h) ≡ r
      → Wrote fill (log t) (log r.0) r.1
  commit-Wrote fill t h (t', err e) p = inl (e, refl, logs.commit_err_log t t' h (fill h) e p)
  commit-Wrote fill t h (t', ok tt) p = inr (h, refl, logs.commit_log t t' h (fill h) p)

  fill_and_commit-Wrote :
      (fill : H → Event) (before : List Event) (g : T × Result H)
      → log g.0 ≡ before
      → Wrote fill before (log (fill_and_commit o fill g).0) (fill_and_commit o fill g).1
  fill_and_commit-Wrote fill before (t, err e) p = inl (e, refl, p)
  fill_and_commit-Wrote fill before (t, ok h) p =
      subst' p (commit-Wrote fill t h (o.commit_wr_buffer t h (fill h)) refl)
    where
      subst' :
          log t ≡ before
          → Wrote fill
              (log t)
              (log (o.commit_wr_buffer t h (fill h)).0)
              (o.commit_wr_buffer t h (fill h)).1
          → Wrote fill before
              (log (o.commit_wr_buffer t h (fill h)).0)
              (o.commit_wr_buffer t h (fill h)).1
      subst' q w = rw (← q) w

  pub write_event-Wrote :
      (k : EventType) (fill : H → Event) (t : T)
      → Wrote fill (log t) (log (write_event o k fill t).0) (write_event o k fill t).1
  unfolding write_event
  write_event-Wrote k fill t =
      fill_and_commit-Wrote fill (log t) (o.get_wr_buffer t (o.size_of k))
        (logs.get_log t (o.size_of k))
