-- ===== src/Lib.antt =====
-- The kernel module of the standalone I/O tracer, source/kernel/. The module records the block
-- I/O of chosen devices as events in one ring per CPU, which a user-space client maps and reads.
--
-- The parts and the files that model them:
--   * Kernel, Strings, Bits: what the module uses of the kernel and of the machine: error codes,
--     `BUG_ON`, per-CPU variables, `on_each_cpu`, bounded C strings, `bsr` and `clzl`.
--   * Context, Inode: the data that the parts share (context.h, io_trace.h, procfs.h,
--     trace_bdev.h), with the references to devices that the module holds.
--   * Trace: the rings. Their code, and the events' layout (iotrace_event.h), is that of the octf
--     submodule, so the ring is a parameter, `Octf T H`; a producer's state has the type `T`.
--   * Bdev: source/kernel/trace_bdev.c, the devices that are traced: `iotrace_bdev_add`,
--     `iotrace_bdev_remove`, `iotrace_bdev_remove_all_locked`, `iotrace_bdev_list` and the lookup
--     of a request queue (trace_bdev.h). A failed `BUG_ON`, a NULL dereference, an access outside
--     an array and a mutex that is taken twice are the value `none`. Bdev.Invariant has the
--     well-formed states, Bdev.Slots and Bdev.EachCpu what the loops and the calls on every CPU
--     do to them, Bdev.AddSteps, Bdev.AddPath, Bdev.Remove, Bdev.RemovePath, Bdev.Lookup
--     and Bdev.Trim the operations.
--   * IoTrace: source/kernel/io_trace.c, the description of a device that is put into every ring
--     (IoTrace.Desc), and the buffers with their allocation in procfs.c (IoTrace.Buffers).
--   * Client: source/kernel/io_trace.c, attaching and detaching clients: the tracers of every
--     CPU, the probes on the trace points, and their removal on an error.
--   * InodeTracer: source/kernel/trace_inode.c, the cache of the inodes whose names are traced (a
--     hash table and an LRU list over one array of entries), and the walk from a file to the root
--     that traces the names (InodeTracer.Walk).
--   * Bio: source/kernel/trace_bio.c, the class of an I/O and the events of a bio.
--   * Probe: source/kernel/io_trace.c, the probes that the kernel calls for a bio: they look up
--     its queue, write its events and wake the client; Probe.Request is source/kernel/config.c, the
--     completion of a request made of several bios.
--   * Procfs: source/kernel/procfs.c, the management files below /proc/iotrace: the handlers that
--     they share (Procfs.Mngt) and add_device, remove_device, devices, version and size
--     (Procfs.Entries).
--   * Ring: source/kernel/procfs.c, the files trace_ring.N and consumer_hdr.N, with the references
--     to their memory and to the module; Ring.Opens has the calls as a step relation.
--   * Monitor: source/kernel/trace_inode.c, the monitor of file system events that the inode
--     tracers of all CPUs share, its events (Monitor.Events), the check of the kernel's release
--     (Monitor.Release) and the callbacks that free marks and private data (Monitor.Marks).
--   * Start: source/kernel/main.c with the parts of procfs.c and trace_bdev.c that it calls: loading
--     the module, with what every failure takes back, and unloading it.
--   * Executor: source/userspace/KernelTraceExecutor.cpp and InterfaceKernelTraceCreatingImpl.cpp,
--     the client that loads the module and starts and stops the tracing of devices;
--     Executor.Kernel gives it the management files of Procfs.
--   * Tracing: source/userspace/InterfaceKernelTraceCreatingImpl.cpp and its proto, `StartTracing`
--     from the request to the reply; Tracing.RingSize follows the ring size of a request down to the
--     rings of the module. The manager of the jobs is octf's, the parameter `Manager`.
--   * Version: the file version, from procfs.c to KernelTraceExecutor.cpp; Numbers has the text of
--     numbers as `snprintf` prints it and a C++ stream reads it.
--   * Waiting: `wait` and `stop` of KernelRingTraceProducer.cpp, the ioctl of procfs.c and
--     `iotrace_notify_of_new_events` of io_trace.c, interleaved step by step.
--   * Producer: source/userspace/KernelRingTraceProducer.cpp, the client's end of one CPU's ring:
--     the two files that it opens and maps.
--
-- A pointer is a number, `NULL` is 0 or `none`. Numbers are natural numbers, and what the source
-- computes in 32 or 64 bits keeps its wrap-around. The dentries, the devices at paths, the files
-- of sysfs, memory that may lack, the kernel's hash function and the registration of probes are
-- parameters. The macros of config.h are those for kernels from 4.14 on.
--
-- Loops: those over arrays and CPUs are recursions on lists. `iotrace_bdev_remove_all_locked`
-- takes as fuel the number of devices, which is enough. The walk over names takes its fuel as an
-- argument: two rounds more than the depth of the inode are enough while the ring has room, and
-- none is while it is full.
--
-- `probeModule` polls on fuel eleven times per loop, which its timeout never exceeds.
--
-- Printing takes as fuel one more than the number, which is more than its digits.
--
-- Not modelled: main.cpp of source/userspace/, which puts the interfaces of the octf submodule
-- together, and trace_env_kernel.h, which only the octf submodule uses. An `on_each_cpu` runs its
-- calls one CPU after the other.
pub mod Base
pub mod Bdev
pub mod Bio
pub mod Bits
pub mod Client
pub mod Context
pub mod Executor
pub mod Inode
pub mod InodeTracer
pub mod IoTrace
pub mod Kernel
pub mod Monitor
pub mod Numbers
pub mod Probe
pub mod Procfs
pub mod Producer
pub mod Ring
pub mod Start
pub mod Strings
pub mod Trace
pub mod Tracing
pub mod Version
pub mod Waiting
