-- ===== src/Bdev/Examples.antt =====
-- Two online CPUs that trace one device, and the device operations on them.
use standalone_linux_io_trac.Base.{
  ℕ, ◌≡◌, refl, List, [], ◌∷◌, ◌++◌, some, arith, count, Distinct, false, replicate,
}
use standalone_linux_io_trac.Kernel.{ok}
use standalone_linux_io_trac.Strings.{codes}
use standalone_linux_io_trac.Context.{Context, BlockDevice}
use standalone_linux_io_trac.Trace.{Octf}
use standalone_linux_io_trac.Trace.Events.{Event}
use standalone_linux_io_trac.Bdev.{Devices, bdev_add, bdev_remove, remove_all_locked}
use standalone_linux_io_trac.Bdev.Slots.{slots}
use standalone_linux_io_trac.Bdev.Invariant.{Tracks}
use standalone_linux_io_trac.Bdev.AddPath.{bdev_add_lem, Added, add_decision}
use standalone_linux_io_trac.Bdev.Remove.{remove_all_locked_empties, KeepsRest}
use standalone_linux_io_trac.Bdev.RemovePath.{bdev_remove_lem, remove_result, NowTraced}
use standalone_linux_io_trac.Bdev.Lookup.{get_bdev_from_queue-Answers, Answers}
use standalone_linux_io_trac.Bdev.Arrays.{get_bdev_from_queue}

-- A ring that never fills and numbers its handles.
abbrev pub ring : Octf (List Event) ℕ
ring = record {
  get_wr_buffer = λ t n. (t, ok n);
  commit_wr_buffer = λ t h e. (t ++ e ∷ [], ok tt);
  is_almost_full = λ t. 0;
  size_of = λ k. 64;
  buffer_flags = λ h. 0;
  ktime = λ n. n;
  device_name_size = 32;
  device_model_size = 256;
  file_name_size = 256;
}

abbrev pub disk : ℕ → BlockDevice
disk d = record {
  bd_queue = d;
  bd_contains = d;
  nr_sects = 1000;
  devt = d;
  capacity = 1000;
  disk_name = codes "sda";
}

abbrev pub devices : Devices
devices = record {
  dev = disk;
  read_file = λ path. some (codes "Disk  ");
  get_by_path = λ path. ok 9;
  lookup_bdev = λ path. ok 7;
}

abbrev pub tracing : Context (List Event)
tracing = record {
  locked = false;
  bdev = record { list = λ c. slots 32 (7 ∷ []); num = 1 };
  trace_state = record { traces = λ c. []; sid = 5; clients = 1 };
  cpu_context = λ c. record {
    proc_files = record { cpu = c; trace_ring = some 8192; trace_ring_size = 5000 };
    waiting_for_trace = 1;
    wake_ups = 0;
  };
  size = 5128;
  blkdev_refs = λ a. count a (7 ∷ []);
  inode_refs = λ a. 0;
}

abbrev pub cpus : List ℕ
cpus = 0 ∷ 1 ∷ []

pub cpus-Distinct : Distinct cpus
cpus-Distinct = (refl, (refl, tt))

pub tracing-Tracks : Tracks disk cpus (7 ∷ []) tracing
tracing-Tracks = record {
  num = refl;
  bounded = omega arith;
  same = λ c p. refl;
  queues = λ q. ground arith;
  refs = λ a. refl;
}

bdev_add_lem_example :
    Added devices cpus
      (7 ∷ [])
      tracing
      (add_decision devices (codes "/dev/sdb") (7 ∷ []) 1)
      (bdev_add ring devices cpus 0 (codes "/dev/sdb") tracing)
bdev_add_lem_example =
    bdev_add_lem ring devices cpus cpus-Distinct 0 (codes "/dev/sdb") (7 ∷ []) tracing
      tracing-Tracks refl refl

bdev_remove_lem_example :
    (ctx' : Context (List Event)) × (ds' : List ℕ) × (bdev_remove devices cpus 1
        (codes "/dev/sda")
        tracing
      ≡ some (ctx', remove_result devices (codes "/dev/sda") (7 ∷ [])))
    × Tracks disk cpus ds' ctx'
    × NowTraced (ok 7) (remove_result devices (codes "/dev/sda") (7 ∷ [])) (7 ∷ []) ds'
    × (ctx'.locked ≡ false)
    × ((a : ℕ) → ctx'.inode_refs a ≡ 0)
bdev_remove_lem_example =
    bdev_remove_lem devices cpus cpus-Distinct 1 (codes "/dev/sda") (7 ∷ []) tracing tracing-Tracks
      refl refl

remove_all_locked_empties_example :
    (ctx' : Context (List Event)) × (remove_all_locked cpus 0 tracing ≡ some ctx')
    × Tracks disk cpus [] ctx'
    × KeepsRest tracing ctx'
remove_all_locked_empties_example =
    remove_all_locked_empties disk cpus cpus-Distinct 0 (7 ∷ []) tracing tracing-Tracks refl

get_bdev_from_queue-Answers_example :
    Answers disk 7 (7 ∷ []) (get_bdev_from_queue disk tracing.bdev 1 7)
get_bdev_from_queue-Answers_example =
    get_bdev_from_queue-Answers disk cpus (7 ∷ []) tracing 1 7 tracing-Tracks refl

abbrev padded : List ℕ
padded = codes "Disk " ++ replicate 123 0
