-- ===== src/Bio.antt =====
-- source/kernel/trace_bio.c: the class of an I/O, and the events of a queued and of a completed
-- bio. The macros of config.h are those for kernels from 4.14 on.
pub mod Class
pub mod ClassLaws
pub mod Trace
pub mod Classes
pub mod Log
pub mod Examples
use standalone_linux_io_trac.Base.{
  ℕ, suc, ◌+◌, ◌-◌, ◌*◌, ◌/◌, ◌%◌, ◌^◌, bit_or, Bool, true, false, ◌||◌, ◌&&◌, Option, none, some,
  ◌==◌, leb, if◌then◌else◌,
}
use standalone_linux_io_trac.Kernel.{Result, ok, err}
use standalone_linux_io_trac.Context.{Context}
use standalone_linux_io_trac.Trace.{Octf, init_hdr, write_event}
use standalone_linux_io_trac.Trace.Events.{
  Event, EventType, Timespec, FileId, Operation, rd, wr, discard, io_event, cmpl_event, meta_event,
}
use standalone_linux_io_trac.IoTrace.Desc.{take_sid, put_trace}
use standalone_linux_io_trac.Inode.{Inode, Mode, reg, dir, blk, other_mode, file_id_of}
use Class.{
  dss_unclassified, dss_metadata, dss_data_dir, dss_data_file_4kb, dss_data_file_bulk,
  dss_data_direct, dss_misc, size_class_x86,
}

-- `struct page`: its flags, its index, and `mapping`, with the `host` in it.
pub record Page : Type 0 where
  pub anon : Bool
  pub slab : Bool
  pub compound : Bool
  pub index : ℕ
  pub mapping : Option (Option Inode)

-- `struct bio` at the address `address`; `data_page` is what `bio_page` finds.
pub record Bio : Type 0 where
  pub address : ℕ
  pub bi_opf : ℕ
  pub bi_sector : ℕ
  pub bi_size : ℕ
  pub bi_write_hint : ℕ
  pub has_data : Bool
  pub data_page : Option Page

-- `struct bio_info`, once it is filled in.
pub record BioInfo : Type 0 where
  pub inode : Inode
  pub page : Page

-- `_file_size_to_io_class`, for an inode that is there.
unfoldable pub file_size_to_io_class : Inode → ℕ
file_size_to_io_class inode = elim inode.i_mode [
  | reg ↦ size_class_x86 inode.i_size
  | dir ↦ dss_data_dir
  | blk ↦ dss_misc
  | other_mode ↦ dss_misc
]

abbrev is_blk : Mode → Bool
is_blk blk = true
is_blk reg = false
is_blk dir = false
is_blk other_mode = false

abbrev host_io_class : Page → Option Inode → ℕ × Option BioInfo
host_io_class page none = (dss_unclassified, none)
host_io_class page (some inode) =
    if is_blk inode.i_mode
    then (dss_metadata, none)
    else (file_size_to_io_class inode, some (record { inode = inode; page = page }))

abbrev mapping_io_class : Page → Option (Option Inode) → ℕ × Option BioInfo
mapping_io_class page none = (dss_metadata, none)
mapping_io_class page (some host) = host_io_class page host

abbrev page_io_class : Option Page → ℕ × Option BioInfo
page_io_class none = (dss_unclassified, none)
page_io_class (some page) =
    if page.anon
    then (dss_data_direct, none)
    else if page.slab || page.compound
    then (dss_metadata, none)
    else mapping_io_class page page.mapping

-- `_get_dss_io_class`: the class, and the `bio_info` if it is filled in.
unfoldable pub get_dss_io_class : Bio → ℕ × Option BioInfo
get_dss_io_class bio = page_io_class bio.data_page

-- `bio_op(bio)`, and the macros that read the operation and its flags.
abbrev pub bio_op : Bio → ℕ
bio_op bio = bio.bi_opf % 256

abbrev pub req_op_discard : ℕ
req_op_discard = 3

abbrev pub is_discard : Bio → Bool
is_discard bio = bio_op bio == req_op_discard

abbrev pub is_write : Bio → Bool
is_write bio = bio_op bio % 2 == 1

-- `bi_opf & REQ_OP_FLUSH`, where `REQ_OP_FLUSH` is 2.
abbrev pub is_flush : Bio → Bool
is_flush bio = bio.bi_opf / 2 % 2 == 1

-- `iotrace_bio_to_id`: the complement of the address.
abbrev pub bio_to_id : Bio → ℕ
bio_to_id bio = 2 ^ 64 - 1 - bio.address

abbrev pub operation_of : Bio → Operation
operation_of bio = if is_discard bio then discard else if is_write bio then wr else rd

-- The class that decides whether the file is traced too.
abbrev pub is_file_class : ℕ → Bool
is_file_class io_class = leb dss_data_file_4kb io_class && leb io_class dss_data_file_bulk

abbrev pub bio_class : Bio → ℕ × Option BioInfo
bio_class bio = if bio.has_data then get_dss_io_class bio else (dss_unclassified, none)
