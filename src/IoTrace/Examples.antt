-- ===== src/IoTrace/Examples.antt =====
-- Two CPUs whose rings get a size.
use standalone_linux_io_trac.Base.{
  some_eq, ℕ, ◌*◌, ◌/◌, ◌≡◌, refl, sym, List, [], some, arith, true,
}
use standalone_linux_io_trac.Kernel.{Result, ok}
use standalone_linux_io_trac.Context.{Context, ProcFile}
use standalone_linux_io_trac.Trace.Events.{Event}
use standalone_linux_io_trac.Strings.{codes}
use standalone_linux_io_trac.IoTrace.Desc.{trace_desc}
use standalone_linux_io_trac.IoTrace.DescLog.{trace_desc-Wrote, whole_desc, Described}
use standalone_linux_io_trac.Bio.Examples.{events, ring-LogsEvents}
use standalone_linux_io_trac.Bdev.Examples.{ring, tracing, cpus}
use standalone_linux_io_trac.IoTrace.Buffers.{set_buffer_size, init_buffers}
use standalone_linux_io_trac.IoTrace.BufferLaws.{IsSized}
use standalone_linux_io_trac.IoTrace.InitBuffers.{init_buffers-Sized, Sized, AllSized}

abbrev sized_ctx : Context (List Event)
sized_ctx = record tracing { size = 1 * 1024 * 1024 / 3 }

taken : set_buffer_size 3 tracing 1 ≡ (sized_ctx, ok tt)
unfolding set_buffer_size
taken = refl

abbrev ring_file : ℕ → ProcFile
ring_file c = record { cpu = c; trace_ring = some 8192; trace_ring_size = 5000 }

pub ring_file-IsSized : (c : ℕ) → IsSized (ring_file c)
ring_file-IsSized c = record { bound = omega arith; pages = λ bytes e. sym (some_eq e) }

abbrev pub idle : Context (List Event)
idle = record tracing { trace_state = record { traces = λ c. []; sid = 0; clients = 0 } }

pub idle-AllSized : AllSized idle
idle-AllSized c = ring_file-IsSized c

init_buffers-Sized_example :
    (ctx' : Context (List Event)) × (r : Result (Unit {0})) × (init_buffers 128
        (λ bytes cpu. true)
        cpus
        idle
        1
      ≡ some (ctx', r))
    × Sized 128 (λ bytes cpu. true) cpus idle ctx' r
init_buffers-Sized_example =
    init_buffers-Sized 128 (λ bytes cpu. true) cpus idle 1 refl idle-AllSized

trace_desc-Wrote_example :
    Described ring events ring-LogsEvents tracing 1
      (whole_desc ring events ring-LogsEvents 6 7 (codes "sda") (codes "Disk") 1000)
      (trace_desc ring tracing 1 7 (codes "sda") (codes "Disk") 1000)
trace_desc-Wrote_example =
    trace_desc-Wrote ring events ring-LogsEvents tracing 1 7 (codes "sda") (codes "Disk") 1000
      (omega arith) (omega arith)
