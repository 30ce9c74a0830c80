-- ===== src/Inode.antt =====
-- `struct inode` of the kernel, with the device of its superblock and its address: what the
-- module reads of it.
use standalone_linux_io_trac.Base.{ℕ}
use standalone_linux_io_trac.Trace.Events.{Timespec, FileId}

-- The file type in `i_mode`.
pub data Mode : Type 0 where
  reg dir blk other_mode : Mode

pub record Inode : Type 0 where
  pub address : ℕ
  pub i_ino : ℕ
  pub i_mode : Mode
  pub i_size : ℕ
  pub i_ctime : Timespec
  pub s_dev : ℕ

abbrev pub file_id_of : Inode → FileId
file_id_of inode = record { id = inode.i_ino; ctime = inode.i_ctime }
