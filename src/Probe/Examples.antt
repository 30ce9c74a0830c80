-- ===== src/Probe/Examples.antt =====
-- A bio on the queue of a traced device, and one on another queue.
use standalone_linux_io_trac.Base.{ℕ, ◌<◌, ◌≡◌, refl, List, [], ◌∷◌, true, false, arith, count}
use standalone_linux_io_trac.Trace.Events.{Event}
use standalone_linux_io_trac.Bdev.Examples.{ring, disk, cpus, tracing, tracing-Tracks}
use standalone_linux_io_trac.InodeTracer.{create_inode_tracer}
use standalone_linux_io_trac.InodeTracer.Examples.{buckets, tree}
use standalone_linux_io_trac.Bio.Examples.{write_bio, empty_bio, flags, events, ring-LogsEvents}
use standalone_linux_io_trac.Client.Examples.{attached}
use standalone_linux_io_trac.Probe.{Machine, bio_queue_event, bio_complete_event}
use standalone_linux_io_trac.Probe.Reports.{bio_complete_event-Reported, Reported}
use standalone_linux_io_trac.Probe.Queueing.{bio_queue_event-Queued, Queued}
use standalone_linux_io_trac.Probe.Request.{
  RequestBio, block_rq_complete, report_all, covered, block_rq_complete-covered,
}

abbrev machine : Machine (List Event)
machine = record { client = attached; fsm = λ cpu. true; marks = []; dentry_refs = λ a. 0 }

bio_complete_event-Reported_example :
    (d : ℕ) × ((disk d).bd_queue ≡ 7)
    × (0 < count d (7 ∷ []))
    × Reported ring flags disk cpus
        (7 ∷ [])
        events
        1
        d
        write_bio
        0
        tracing
        (bio_complete_event ring flags disk 1 7 write_bio 0 machine).client.ctx
bio_complete_event-Reported_example =
    bio_complete_event-Reported ring flags disk cpus (7 ∷ []) events ring-LogsEvents 1 7 write_bio 0
      machine tracing-Tracks refl (omega arith)

bio_queue_event-Queued_example :
    Queued ring flags disk cpus
      (7 ∷ [])
      events
      1
      7
      empty_bio
      machine
      (bio_queue_event ring flags disk buckets tree 0 1 7 empty_bio machine)
      1
bio_queue_event-Queued_example =
    bio_queue_event-Queued ring flags disk cpus (7 ∷ []) events ring-LogsEvents buckets tree 0 1 7
      empty_bio create_inode_tracer machine tracing-Tracks refl refl refl

abbrev request : List RequestBio
request =
    record { bio = write_bio; trace_completion = true }
    ∷ record { bio = write_bio; trace_completion = false }
    ∷ []

block_rq_complete-covered_example :
    block_rq_complete ring flags disk 1 7 0 4096 request machine
    ≡ report_all ring flags disk 1 7 0 (covered 4096 request) machine
block_rq_complete-covered_example =
    block_rq_complete-covered ring flags disk 1 7 0 4096 request machine
