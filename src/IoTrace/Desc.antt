-- ===== src/IoTrace/Desc.antt =====
-- source/kernel/io_trace.c: waking the consumer, and the event that describes a device.
use standalone_linux_io_trac.Base.{ℕ, ◌+◌, ◌%◌, ◌^◌, List, ◌==◌, leb, if◌then◌else◌}
use standalone_linux_io_trac.Kernel.{Result, ok, err, enospc, set_cpu}
use standalone_linux_io_trac.Strings.{strnlen, strlcpy}
use standalone_linux_io_trac.Context.{Context, CpuContext}
use standalone_linux_io_trac.Trace.{Octf, init_hdr}
use standalone_linux_io_trac.Trace.Events.{Event, EventType, desc_event}

-- `atomic64_inc_return(&state->sid)`.
abbrev pub next_sid : ℕ → ℕ
next_sid sid = (sid + 1) % 2 ^ 64

-- `atomic_cmpxchg(&waiting_for_trace, 1, 0)`, and `wake_up` if it read a number other than 0.
abbrev pub wake_waiting : CpuContext → CpuContext
wake_waiting c =
    if c.waiting_for_trace == 1
    then record c { waiting_for_trace = 0; wake_ups = c.wake_ups + 1 }
    else if c.waiting_for_trace == 0
    then c
    else record c { wake_ups = c.wake_ups + 1 }

module _ {T H : Type 0} (o : Octf T H) where
  unfoldable pub notify_of_new_events : Context T → ℕ → Context T
  notify_of_new_events ctx cpu =
      if o.is_almost_full (ctx.trace_state.traces cpu) == 1
      then record ctx {
        cpu_context = set_cpu ctx.cpu_context cpu (wake_waiting (ctx.cpu_context cpu));
      }
      else ctx

  -- What the producers do with the trace of a CPU: take a number, which is used up also when the
  -- write fails.
  abbrev pub take_sid : Context T → Context T
  take_sid ctx = record ctx {
    trace_state = record (ctx.trace_state) { sid = next_sid ctx.trace_state.sid };
  }

  abbrev pub put_trace : Context T → ℕ → T → Context T
  put_trace ctx cpu t = record ctx {
    trace_state = record (ctx.trace_state) { traces = set_cpu ctx.trace_state.traces cpu t };
  }

  abbrev pub device_desc : ℕ → ℕ → List ℕ → List ℕ → ℕ → Event
  device_desc sid dev_id dev_name dev_model dev_size = desc_event (record {
    hdr = init_hdr o EventType.device_desc sid;
    id = dev_id;
    device_size = dev_size;
    device_name = strlcpy dev_name o.device_name_size;
    device_model = strlcpy dev_model o.device_model_size;
  })

  abbrev pub desc_committed : Context T → ℕ → T × Result (Unit {0}) → Context T × Result (Unit {0})
  desc_committed ctx cpu (t, r) = (notify_of_new_events (put_trace ctx cpu t) cpu, r)

  abbrev pub desc_reserved : Context T → ℕ → Event → T × Result H → Context T × Result (Unit {0})
  desc_reserved ctx cpu ev (t, err e) = (put_trace ctx cpu t, err e)
  desc_reserved ctx cpu ev (t, ok h) = desc_committed ctx cpu (o.commit_wr_buffer t h ev)

  -- A number is used up also when the description does not fit; the consumer is notified after
  -- every commit.
  unfoldable pub trace_desc :
      Context T → ℕ → ℕ → List ℕ → List ℕ → ℕ → Context T × Result (Unit {0})
  trace_desc ctx0 cpu dev_id dev_name dev_model dev_size =
      let ctx = take_sid ctx0 in
      if leb o.device_name_size (strnlen dev_name o.device_name_size)
      then (ctx, err enospc)
      else if leb o.device_model_size (strnlen dev_model o.device_model_size)
      then (ctx, err enospc)
      else desc_reserved ctx cpu
          (device_desc ctx.trace_state.sid dev_id dev_name dev_model dev_size)
          (o.get_wr_buffer (ctx.trace_state.traces cpu) (o.size_of EventType.device_desc))
