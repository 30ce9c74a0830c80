-- ===== src/Start/Examples.antt =====
-- Two CPUs on which the module is loaded, and a kernel that cannot create the file `size`.
use standalone_linux_io_trac.Base.{◌≡◌, refl, true, false, List, [], Option, none, some, ℕ, arith}
use standalone_linux_io_trac.Kernel.{Result, ok, err, einval}
use standalone_linux_io_trac.Trace.Events.{Event}
use standalone_linux_io_trac.Strings.{codes}
use standalone_linux_io_trac.Bdev.Examples.{disk, cpus, cpus-Distinct}
use standalone_linux_io_trac.Client.{
  Client, attach_client, detach_client, register_trace_points, register_complete, init_tracers,
  open_all, open_cpus, open_cpu, deinit_tracers, unregister_trace_points,
}
use standalone_linux_io_trac.Client.Sessions.{Session}
use standalone_linux_io_trac.Bdev.{remove_all_locked, remove_all_loop}
use standalone_linux_io_trac.Client.Examples.{platform}
use standalone_linux_io_trac.Ring.{Files, iotrace_open, release, kref_put, iotrace_free}
use standalone_linux_io_trac.Client.Tracers.{all_probes}
use standalone_linux_io_trac.Context.{CpuContext}
use standalone_linux_io_trac.Ring.Held.{System}
use standalone_linux_io_trac.Ring.Opens.{Reach, here, next, opens, releases, manages}
use standalone_linux_io_trac.Start.{
  devices, add_device, remove_device, version, size, trace_ring, consumer_hdr, Boot, Module,
  zero_cpu, init_module, exit_module, procfs_init, init_files, trace_file_init, mngt_init,
  bdev_init,
}
use standalone_linux_io_trac.Start.Init.{fresh, Unloaded, Outcome, init_module-Outcome}
use standalone_linux_io_trac.Start.Exit.{
  Static, exit_module-Unloaded, fresh-Session, ended-Session, with_contexts,
}

abbrev all_works : Boot
all_works = record {
  alloc_list = true;
  alloc_cpu_context = true;
  proc_mkdir = true;
  proc_create = λ e. true;
  vmalloc_user = λ cpu. true;
  show = λ n. codes "0";
}

abbrev no_size : Boot
no_size = record all_works {
  proc_create = λ e. elim e [
    | size ↦ false
    | devices ↦ true
    | add_device ↦ true
    | remove_device ↦ true
    | version ↦ true
    | trace_ring cpu ↦ true
    | consumer_hdr cpu ↦ true
  ];
}

abbrev zero_client : Client (List Event)
zero_client = record {
  ctx = record {
    locked = false;
    bdev = record { list = λ c. []; num = 0 };
    trace_state = record { traces = λ c. []; sid = 0; clients = 0 };
    cpu_context = λ c. zero_cpu;
    size = 0;
    blkdev_refs = λ a. 0;
    inode_refs = λ a. 0;
  };
  probes = all_probes false;
  opened = λ c. false;
  inode_traces = λ c. none;
  traces_areas = 0;
  inode_areas = 0;
}

abbrev unloaded : Module (List Event)
unloaded = record {
  files = record {
    client = zero_client;
    refs = λ c. 0;
    consumer_hdr = λ c. false;
    inited = λ c. false;
    module_refs = 0;
  };
  list_area = false;
  cpu_area = false;
  proc_dir = none;
}

unloaded-Unloaded : Unloaded cpus unloaded
unloaded-Unloaded = record { list_area = refl; files = (refl, refl, λ c i. (refl, refl, refl)) }

init_module-Outcome_example : Outcome no_size cpus unloaded (init_module no_size cpus unloaded)
init_module-Outcome_example =
    init_module-Outcome no_size cpus unloaded cpus-Distinct unloaded-Unloaded

-- Without the last file the module is not loaded.
no_size_test : (init_module no_size cpus unloaded).1 ≡ err einval
unfolding init_module procfs_init bdev_init init_files trace_file_init mngt_init
no_size_test = refl

zero_client-Static : Static zero_client
zero_client-Static = record {
  num = refl;
  clients = refl;
  blkdev_refs = λ a. refl;
  probes = refl;
  opened = λ c. refl;
  tracers = λ c. refl;
  traces_areas = refl;
}

abbrev loaded : Module (List Event)
loaded = (init_module all_works cpus unloaded).0

loaded_ok : init_module all_works cpus unloaded ≡ (loaded, ok tt)
unfolding init_module procfs_init bdev_init init_files trace_file_init mngt_init
loaded_ok = refl

-- Every CPU gets a ring.
abbrev with_rings : ℕ → CpuContext
with_rings c = record zero_cpu {
  proc_files = record { cpu = c; trace_ring = some 4096; trace_ring_size = 4096 };
}

abbrev at_rest : System (List Event)
at_rest = record { files = loaded.files; open_files = [] }

abbrev sized : System (List Event)
sized = record at_rest {
  files = record (loaded.files) { client = with_contexts (fresh all_works zero_client) with_rings };
}

sized-Reach : Reach disk cpus cpus-Distinct at_rest sized
unfolding init_module procfs_init bdev_init init_files trace_file_init mngt_init
sized-Reach = next here (
    manages at_rest [] sized.files.client
      (ended-Session disk cpus cpus-Distinct (fresh all_works zero_client) [] with_rings
        (fresh-Session disk cpus all_works zero_client zero_client-Static) refl)
      refl)

-- A client opens the ring of CPU 0 and releases it.
abbrev behind : {A : Type 0} → A → Option A → A
behind a none = a
behind a (some b) = b

abbrev opened : Files (List Event) × Result (Unit {0})
opened = behind (sized.files, ok tt) (iotrace_open platform true cpus 0 false false sized.files)

opened_ok : iotrace_open platform true cpus 0 false false sized.files ≡ some opened
unfolding init_module procfs_init bdev_init init_files trace_file_init mngt_init iotrace_open
    attach_client register_trace_points register_complete init_tracers open_all open_cpus open_cpu
opened_ok = refl

abbrev released : Files (List Event)
released = behind opened.0 (release cpus 0 1 opened.0)

released_ok : release cpus 0 1 opened.0 ≡ some released
unfolding init_module procfs_init bdev_init init_files trace_file_init mngt_init iotrace_open
    attach_client register_trace_points register_complete init_tracers open_all open_cpus open_cpu
    release detach_client remove_all_locked remove_all_loop unregister_trace_points deinit_tracers
    kref_put iotrace_free
released_ok = refl

released-Reach :
    Reach disk cpus cpus-Distinct at_rest (record { files = released; open_files = [] })
unfolding init_module procfs_init bdev_init init_files trace_file_init mngt_init iotrace_open
    attach_client register_trace_points register_complete init_tracers open_all open_cpus open_cpu
released-Reach =
    next
      (next sized-Reach
        (opens sized platform true false false 0 opened refl (omega arith) opened_ok))
      (releases opened.0 released 0 1 [] [] refl released_ok)

released_refs : released.module_refs ≡ 0
unfolding init_module procfs_init bdev_init init_files trace_file_init mngt_init iotrace_open
    attach_client register_trace_points register_complete init_tracers open_all open_cpus open_cpu
    release detach_client remove_all_locked remove_all_loop unregister_trace_points deinit_tracers
    kref_put iotrace_free
released_refs = refl

abbrev ended : Module (List Event)
ended = exit_module cpus (record loaded { files = released })

-- The area of inode tracers that the client's detaching left is still allocated.
exit_module-Unloaded_example :
    Unloaded cpus ended
    × Session disk cpus [] ended.files.client
    × (ended.files.client.ctx.trace_state.clients ≡ 0)
    × (ended.files.client.inode_areas ≡ 1)
unfolding init_module procfs_init bdev_init init_files trace_file_init mngt_init iotrace_open
    attach_client register_trace_points register_complete init_tracers open_all open_cpus open_cpu
    release detach_client remove_all_locked remove_all_loop unregister_trace_points deinit_tracers
    kref_put iotrace_free
exit_module-Unloaded_example =
    exit_module-Unloaded disk cpus cpus-Distinct all_works unloaded loaded
      (record { files = released; open_files = [] }) unloaded-Unloaded zero_client-Static refl
      loaded_ok released-Reach released_refs
