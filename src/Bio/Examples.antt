-- ===== src/Bio/Examples.antt =====
-- A bio that writes a page of a file.
use mathlib.Core.Bool.{false≢true}
use standalone_linux_io_trac.Inode.{Inode, reg}
use standalone_linux_io_trac.Bio.{Page, Bio, BioInfo, is_flush}
use standalone_linux_io_trac.Bio.Class.{size_class, size_class_x86, size_class_c}
use standalone_linux_io_trac.Bio.ClassLaws.{size_class_x86-size_class, size_class-agree}
use standalone_linux_io_trac.Bio.Classes.{discard_flushes}
use standalone_linux_io_trac.Base.{
  some_eq, ℕ, ◌<◌, ◌≡◌, refl, ◌∙◌, ◌↔◌, true, false, none, some, arith, sym, ap, List, [],
}
use standalone_linux_io_trac.Kernel.{is_ok}
use standalone_linux_io_trac.Trace.{LogsEvents}
use standalone_linux_io_trac.Trace.Events.{Event}
use standalone_linux_io_trac.Bdev.Examples.{ring}
use standalone_linux_io_trac.InodeTracer.Invariant.{IsValid, create-IsValid}
use standalone_linux_io_trac.InodeTracer.Walk.{Walk}
use standalone_linux_io_trac.InodeTracer.Examples.{
  buckets, inode_of, tree, start, ring-HasRoom, tree-Rises,
}
use standalone_linux_io_trac.Bio.Trace.{Flags, trace_bio}
use standalone_linux_io_trac.Bio.Log.{trace_bio_returns, FilesRise}

abbrev file : Inode
file = record {
  address = 7;
  i_ino = 12;
  i_mode = reg;
  i_size = 20000;
  i_ctime = record { tv_sec = 1; tv_nsec = 2 };
  s_dev = 3;
}

abbrev page : Page
page = record {
  anon = false;
  slab = false;
  compound = false;
  index = 4;
  mapping = some (some file);
}

abbrev pub write_bio : Bio
write_bio = record {
  address = 64;
  bi_opf = 1;
  bi_sector = 2048;
  bi_size = 4096;
  bi_write_hint = 0;
  has_data = true;
  data_page = some page;
}

abbrev info_of_page : BioInfo
info_of_page = record { inode = file; page = page }

size_class_x86-size_class_example : size_class_x86 20000 ≡ size_class 20000
size_class_x86-size_class_example = size_class_x86-size_class 20000 (omega arith) (omega arith)

size_class-agree_example : (size_class_x86 0 ≡ size_class_c 0) ↔ (0 < 0)
size_class-agree_example = size_class-agree 0 (omega arith)

discard_flushes_example : is_flush (record write_bio { bi_opf = 3 }) ≡ true
discard_flushes_example = discard_flushes (record write_bio { bi_opf = 3 }) refl

abbrev pub flags : Flags
flags = record { fua_bit = 17; flag_flush = 1; flag_fua = 2 }

abbrev pub events : List Event → List Event
events t = t

pub ring-LogsEvents : LogsEvents ring events
ring-LogsEvents = record {
  get_log = λ t n. refl;
  commit_log = λ t t' h e p. sym (ap (λ r. r.0) p);
  commit_err_log = λ t t' h e code p. absurd (false≢true (sym (ap (λ r. is_ok r.1) p)));
}

abbrev pub empty_bio : Bio
empty_bio = record write_bio { has_data = false; data_page = none }

abbrev tree_page : Page
tree_page = record page { mapping = some (some (inode_of 12 reg)) }

abbrev pub tree_bio : Bio
tree_bio = record write_bio { data_page = some tree_page }

pub tree_bio-FilesRise : FilesRise ring flags buckets tree 1 tree_bio
tree_bio-FilesRise info (b, p, (a, s, c, m, r)) =
    (1, refl, some_eq (some_eq (ap (λ q. q.mapping) (some_eq p) ∙ m)), tree-Rises)

trace_bio_returns_example :
    (w' : Walk (List Event)) × (trace_bio ring flags buckets tree 3 (start []) 7 tree_bio ≡ some w')
    × IsValid buckets w'.tracer
    × ((a : ℕ) → w'.dentry_refs a ≡ 0)
trace_bio_returns_example =
    trace_bio_returns ring flags buckets tree 1 (start []) 7 tree_bio ring-HasRoom
      tree_bio-FilesRise (create-IsValid buckets)
