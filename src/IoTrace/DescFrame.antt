-- ===== src/IoTrace/DescFrame.antt =====
-- What `iotrace_trace_desc` leaves alone.
use standalone_linux_io_trac.Base.{ℕ, ◌≡◌, List, arith}
use standalone_linux_io_trac.Context.{Context}
use standalone_linux_io_trac.Trace.{Octf}
use standalone_linux_io_trac.IoTrace.Desc.{trace_desc, notify_of_new_events}

-- The devices, the references to them, the mutex and the clients are the same.
pub record SameDevices {T : Type 0} (a b : Context T) : Type 0 where
  pub bdev : b.bdev ≡ a.bdev
  pub blkdev_refs : b.blkdev_refs ≡ a.blkdev_refs
  pub inode_refs : b.inode_refs ≡ a.inode_refs
  pub locked : b.locked ≡ a.locked
  pub clients : b.trace_state.clients ≡ a.trace_state.clients

module _ {T H : Type 0} (o : Octf T H) where
  pub trace_desc-SameDevices :
      (ctx : Context T) (cpu dev_id : ℕ) (name model : List ℕ) (size : ℕ)
      → SameDevices ctx (trace_desc o ctx cpu dev_id name model size).0
  unfolding trace_desc notify_of_new_events
  trace_desc-SameDevices ctx cpu dev_id name model size = ground arith
