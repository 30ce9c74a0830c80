-- ===== src/Client/Examples.antt =====
-- Two CPUs without a client, then with one.
use standalone_linux_io_trac.Base.{◌≡◌, refl, List, [], ◌∷◌, some, arith, true}
use standalone_linux_io_trac.Kernel.{Result, ok}
use standalone_linux_io_trac.Trace.Events.{Event}
use standalone_linux_io_trac.InodeTracer.{create_inode_tracer}
use standalone_linux_io_trac.Bdev.Examples.{tracing, tracing-Tracks, disk, cpus, cpus-Distinct}
use standalone_linux_io_trac.Client.{Client, Platform, attach_client, detach_client}
use standalone_linux_io_trac.Client.Tracers.{all_probes}
use standalone_linux_io_trac.Client.Sessions.{Session, attach_client-Attached, Attached}
use standalone_linux_io_trac.Client.Detach.{detach_client-Detached, Detached}

abbrev pub platform : Platform (List Event)
platform = record {
  register_bio_queue = ok tt;
  register_bio_complete = ok tt;
  register_rq_complete = ok tt;
  register_split = ok tt;
  alloc_traces = true;
  alloc_inode_traces = true;
  trace_open = λ pf. ok [];
  vzalloc_node = λ cpu. true;
}

abbrev pub attached : Client (List Event)
attached = record {
  ctx = tracing;
  probes = all_probes true;
  opened = λ c. true;
  inode_traces = λ c. some create_inode_tracer;
  traces_areas = 1;
  inode_areas = 1;
}

pub attached-Session : Session disk cpus (7 ∷ []) attached
attached-Session = record {
  free = refl;
  tracks = tracing-Tracks;
  bounded = omega arith;
  probes = refl;
  opened = λ c m. refl;
  tracers = λ c m. refl;
  traces_areas = refl;
  idle = λ z. absurd (omega arith);
}

attach_client-Attached_example :
    (out : Client (List Event) × Result (Unit {0})) × (attach_client platform cpus attached
      ≡ some out)
    × Attached disk cpus (7 ∷ []) platform attached out
attach_client-Attached_example =
    attach_client-Attached disk cpus (7 ∷ []) platform attached attached-Session (omega arith)

detach_client-Detached_example :
    (s' : Client (List Event)) × (detach_client cpus 1 attached ≡ some s')
    × Detached disk cpus cpus-Distinct (7 ∷ []) attached s'
detach_client-Detached_example =
    detach_client-Detached disk cpus cpus-Distinct 1 (7 ∷ []) attached attached-Session refl
      (omega arith)
