-- ===== src/Trace/Events.antt =====
-- The events that the module writes: the fields that trace_bio.c, trace_inode.c and io_trace.c
-- set in the structures of iotrace_event.h (a file of the octf submodule).
use standalone_linux_io_trac.Base.{ℕ, List}

pub data EventType : Type 0 where
  device_desc io io_cmpl fs_meta fs_file_name fs_file_event : EventType

pub record EventHdr : Type 0 where
  pub event_type : EventType
  pub sid : ℕ
  pub timestamp : ℕ
  pub size : ℕ

pub record Timespec : Type 0 where
  pub tv_sec : ℕ
  pub tv_nsec : ℕ

pub record FileId : Type 0 where
  pub id : ℕ
  pub ctime : Timespec

pub record DeviceDesc : Type 0 where
  pub hdr : EventHdr
  pub id : ℕ
  pub device_size : ℕ
  pub device_name : List ℕ
  pub device_model : List ℕ

pub data Operation : Type 0 where
  rd wr discard : Operation

pub record IoEvent : Type 0 where
  pub hdr : EventHdr
  pub id : ℕ
  pub operation : Operation
  pub flags : ℕ
  pub lba : ℕ
  pub len : ℕ
  pub dev_id : ℕ
  pub write_hint : ℕ
  pub io_class : ℕ

pub record Completion : Type 0 where
  pub hdr : EventHdr
  pub ref_id : ℕ
  pub lba : ℕ
  pub len : ℕ
  pub error : ℕ
  pub dev_id : ℕ

pub record FsMeta : Type 0 where
  pub hdr : EventHdr
  pub ref_sid : ℕ
  pub file_id : FileId
  pub file_offset : ℕ
  pub file_size : ℕ
  pub partition_id : ℕ

pub record FsFileName : Type 0 where
  pub hdr : EventHdr
  pub partition_id : ℕ
  pub file_id : FileId
  pub file_parent_id : FileId
  pub file_name : List ℕ

pub data FsEventType : Type 0 where
  create delete move_from move_to : FsEventType

pub record FsFileEvent : Type 0 where
  pub hdr : EventHdr
  pub partition_id : ℕ
  pub file_id : FileId
  pub fs_event_type : FsEventType

pub data Event : Type 0 where
  desc_event : DeviceDesc → Event
  io_event : IoEvent → Event
  cmpl_event : Completion → Event
  meta_event : FsMeta → Event
  name_event : FsFileName → Event
  file_event : FsFileEvent → Event
