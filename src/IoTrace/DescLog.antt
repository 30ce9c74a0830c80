-- ===== src/IoTrace/DescLog.antt =====
-- What `iotrace_trace_desc` writes to its CPU's ring.
use standalone_linux_io_trac.Base.{
  ℕ, ◌-◌, ◌<◌, ◌≡◌, ◌≢◌, ==_false, refl, sym, ◌∙◌, ap, subst, false, List, arith, leb, length,
  take_of_length-le, ==_refl, inl,
}
use standalone_linux_io_trac.Kernel.{Result, ok, err}
use standalone_linux_io_trac.Strings.{strnlen, strlcpy}
use standalone_linux_io_trac.Context.{Context}
use standalone_linux_io_trac.Trace.{Octf, LogsEvents, init_hdr, fill_and_commit, write_event}
use standalone_linux_io_trac.Trace.Events.{Event, EventType, desc_event}
use standalone_linux_io_trac.Trace.Log.{Wrote, commit-Wrote}
use standalone_linux_io_trac.IoTrace.Desc.{
  next_sid, notify_of_new_events, trace_desc, take_sid, put_trace, desc_reserved,
}

module _ {T H : Type 0} (o : Octf T H) (log : T → List Event) (logs : LogsEvents o log) where
  -- The description of a device with its name and model whole.
  abbrev pub whole_desc : ℕ → ℕ → List ℕ → List ℕ → ℕ → Event
  whole_desc sid dev_id name model size = desc_event (record {
    hdr = init_hdr o EventType.device_desc sid;
    id = dev_id;
    device_size = size;
    device_name = name;
    device_model = model;
  })

  abbrev pub log_of : Context T → ℕ → List Event
  log_of ctx cpu = log (ctx.trace_state.traces cpu)

  notify-trace_state :
      (ctx : Context T) (cpu : ℕ) → ((notify_of_new_events o ctx cpu).trace_state ≡ ctx.trace_state)
  unfolding notify_of_new_events
  notify-trace_state ctx cpu = ground arith

  put_log : (ctx : Context T) (cpu : ℕ) (t : T) → log_of (put_trace o ctx cpu t) cpu ≡ log t
  put_log ctx cpu t = ap log (rw (==_refl cpu) refl)

  put_other :
      (ctx : Context T) (cpu x : ℕ) (t : T)
      → x ≢ cpu
      → log_of (put_trace o ctx cpu t) x ≡ log_of ctx x
  put_other ctx cpu x t n = ap log (rw (==_false x cpu n) refl)

  reserved-Wrote :
      (ctx : Context T) (cpu : ℕ) (ev : Event) (before : List Event) (g : T × Result H)
      → log g.0 ≡ before
      → let out = desc_reserved o ctx cpu ev g in
        Wrote {H = H} (λ h. ev) before (log_of out.0 cpu) out.1
        × (out.1 ≡ (fill_and_commit o (λ h. ev) g).1)
        × (out.0.trace_state.sid ≡ ctx.trace_state.sid)
        × ((x : ℕ) → x ≢ cpu → log_of out.0 x ≡ log_of ctx x)
  reserved-Wrote ctx cpu ev before (t, err e) p =
      (inl (e, refl, put_log ctx cpu t ∙ p), refl, refl, λ x n. put_other ctx cpu x t n)
  reserved-Wrote ctx cpu ev before (t, ok h) p =
      let out = o.commit_wr_buffer t h ev in
      let after = put_trace o ctx cpu out.0 in
      let same : log_of (notify_of_new_events o after cpu) cpu ≡ log out.0 =
        ap (λ s. log (s.traces cpu)) (notify-trace_state after cpu) ∙ put_log ctx cpu out.0 in
      (
        subst (λ l. Wrote {H = H} (λ h. ev) before l out.1) (sym same)
            (subst (λ b. Wrote {H = H} (λ h. ev) b (log out.0) out.1) p
              (commit-Wrote o log logs (λ h. ev) t h out refl)),
        refl,
        ap (λ s. s.sid) (notify-trace_state after cpu),
        λ x n.
            ap (λ s. log (s.traces x)) (notify-trace_state after cpu) ∙ put_other ctx cpu x out.0 n,
      )

  whole : (s : List ℕ) (n : ℕ) → length s < n → strlcpy s n ≡ s
  whole s n h = take_of_length-le (n - 1) s (omega arith)

  -- What an attempt to write `ev` to the ring of `cpu` makes of the context: the next number is
  -- used up; the result is the one that the ring gave, and the event stands at the end of the
  -- CPU's log exactly if that is a success; the other CPUs' logs are as they were.
  abbrev pub Described : Context T → ℕ → Event → Context T × Result (Unit {0}) → Type 0
  Described ctx cpu ev out =
      Wrote {H = H} (λ h. ev) (log_of ctx cpu) (log_of out.0 cpu) out.1
      × (out.1 ≡ (write_event o EventType.device_desc (λ h. ev) (ctx.trace_state.traces cpu)).1)
      × (out.0.trace_state.sid ≡ next_sid ctx.trace_state.sid)
      × ((x : ℕ) → x ≢ cpu → log_of out.0 x ≡ log_of ctx x)

  -- A device whose name and model are shorter than their fields is described whole, with the next
  -- number: its description stands at the end of the CPU's ring if the ring gave a buffer for it
  -- and took it; otherwise the result is the ring's error and nothing is shown. Nothing else than
  -- the ring makes it fail, and the other CPUs' rings show what they did.
  pub trace_desc-Wrote :
      (ctx : Context T) (cpu dev_id : ℕ) (name model : List ℕ) (size : ℕ)
      → length name < o.device_name_size
      → length model < o.device_model_size
      → Described ctx cpu
          (whole_desc (next_sid ctx.trace_state.sid) dev_id name model size)
          (trace_desc o ctx cpu dev_id name model size)
  unfolding trace_desc write_event
  trace_desc-Wrote ctx cpu dev_id name model size p q =
      let n : leb o.device_name_size (strnlen name o.device_name_size) ≡ false = ground arith in
      let m : leb o.device_model_size (strnlen model o.device_model_size) ≡ false = ground arith in
      let ring = ctx.trace_state.traces cpu in
      let bytes = o.size_of EventType.device_desc in
      rw (n, m)
        (rw (whole name o.device_name_size p, whole model o.device_model_size q)
          (reserved-Wrote (take_sid o ctx) cpu
            (whole_desc (next_sid ctx.trace_state.sid) dev_id name model size) (log ring)
            (o.get_wr_buffer ring bytes) (logs.get_log ring bytes)))
