-- ===== src/Context.antt =====
-- The state that the module keeps: context.h, io_trace.h, procfs.h and trace_bdev.h, over the
-- type `T` of a ring's producer. Pointers are numbers, 0 is `NULL`.
use standalone_linux_io_trac.Base.{ℕ, List, Bool, Option}

-- `struct block_device` with its `gendisk`: what the module reads of it.
pub record BlockDevice : Type 0 where
  pub bd_queue : ℕ
  pub bd_contains : ℕ
  pub nr_sects : ℕ
  pub devt : ℕ
  pub capacity : ℕ
  pub disk_name : List ℕ

-- `struct iotrace_bdev`: for each CPU an array of device pointers, and their number.
pub record IotraceBdev : Type 0 where
  pub list : ℕ → List (Option ℕ)
  pub num : ℕ

-- `struct iotrace_state`; the inode tracers stand in modules of their own.
pub record IotraceState (T : Type 0) : Type 0 where
  pub traces : ℕ → T
  pub sid : ℕ
  pub clients : ℕ

-- `struct iotrace_proc_file`: the CPU, and the ring's buffer, as the bytes that it was allocated
-- with, and its size.
pub record ProcFile : Type 0 where
  pub cpu : ℕ
  pub trace_ring : Option ℕ
  pub trace_ring_size : ℕ

-- `struct iotrace_cpu_context`: the flag, how often its wait queue was woken, and the files.
pub record CpuContext : Type 0 where
  pub proc_files : ProcFile
  pub waiting_for_trace : ℕ
  pub wake_ups : ℕ

-- `struct iotrace_context`, with the references to block devices that the module holds: those
-- of `blkdev_get_by_path`, and those of `lookup_bdev`.
pub record Context (T : Type 0) : Type 0 where
  pub locked : Bool
  pub bdev : IotraceBdev
  pub trace_state : IotraceState T
  pub cpu_context : ℕ → CpuContext
  pub size : ℕ
  pub blkdev_refs : ℕ → ℕ
  pub inode_refs : ℕ → ℕ
