-- ===== src/Bio/Classes.antt =====
-- Which I/O is classed as the data of a file, and what its event says.
use standalone_linux_io_trac.Base.{
  ℕ, ◌+◌, ◌-◌, ◌/◌, ◌%◌, ◌^◌, ◌≤◌, ◌≡◌, refl, Bool, true, false, Option, none, some, arith,
  if◌then◌else◌, ◌⊎◌, inl, inr, ap, Bool-cases,
}
use mathlib.Core.Bool.{false≢true}
use standalone_linux_io_trac.Bits.{bit_or-4095}
use standalone_linux_io_trac.Bits.Bsr.{le-bsr}
use standalone_linux_io_trac.Inode.{Inode, Mode, reg, dir, blk, other_mode}
use standalone_linux_io_trac.Bio.{
  Bio, Page, BioInfo, bio_class, get_dss_io_class, page_io_class, host_io_class, mapping_io_class,
  file_size_to_io_class, is_blk, is_file_class, is_flush, bio_op, req_op_discard,
}
use standalone_linux_io_trac.Bio.Class.{size_class_x86, rounded}

-- Whatever the size, also beyond what a file can have, the class of a regular file is one of the
-- classes of file data.
pub size_class_x86_range : (size : ℕ) → (11 ≤ size_class_x86 size) × (size_class_x86 size ≤ 21)
unfolding size_class_x86
size_class_x86_range size =
    let low =
      le-bsr (rounded size) 11 (omega (arith, bit_or-4095 ((size + (2 ^ 64 - 1)) % 2 ^ 64)))
        (omega arith) in
    ground (arith, low)

-- The page cache page of a regular file: not anonymous, no slab or compound page, and mapped to
-- the file.
abbrev pub IsFilePage : Page → Inode → Type 0
IsFilePage page inode =
    (page.anon ≡ false)
    × (page.slab ≡ false)
    × (page.compound ≡ false)
    × (page.mapping ≡ some (some inode))
    × (inode.i_mode ≡ reg)

abbrev pub IsFileData : Bio → BioInfo → Type 0
IsFileData bio info =
    (bio.has_data ≡ true) × (bio.data_page ≡ some info.page) × IsFilePage info.page info.inode

Mode-cases : (m : Mode) → (m ≡ reg) ⊎ ((is_blk m ≡ true) ⊎ ((m ≡ dir) ⊎ (m ≡ other_mode)))
Mode-cases reg = inl refl
Mode-cases blk = inr (inl refl)
Mode-cases dir = inr (inr (inl refl))
Mode-cases other_mode = inr (inr (inr refl))

host_info :
    (page : Page) (host : Option Inode)
    → is_file_class (host_io_class page host).0 ≡ true
    → (inode : Inode) × (host ≡ some inode)
      × (inode.i_mode ≡ reg)
      × ((host_io_class page host).1 ≡ some (record { inode = inode; page = page }))
unfolding file_size_to_io_class
host_info page none h = cc
host_info page (some inode) h = elim (Mode-cases inode.i_mode) [
  | inl m ↦ (inode, refl, m, ground (arith, m))
  | inr (inl m) ↦ absurd (ground (arith, m))
  | inr (inr (inl m)) ↦ absurd (ground (arith, m))
  | inr (inr (inr m)) ↦ absurd (ground (arith, m))
]

mapping_info :
    (page : Page) (mapping : Option (Option Inode))
    → is_file_class (mapping_io_class page mapping).0 ≡ true
    → (inode : Inode) × (mapping ≡ some (some inode))
      × (inode.i_mode ≡ reg)
      × ((mapping_io_class page mapping).1 ≡ some (record { inode = inode; page = page }))
mapping_info page none h = cc
mapping_info page (some host) h =
    let (inode, e, m, p) = host_info page host h in (inode, ap some e, m, p)

page_mapped :
    (page : Page)
    → page.anon ≡ false
    → page.slab ≡ false
    → page.compound ≡ false
    → page_io_class (some page) ≡ mapping_io_class page page.mapping
page_mapped page a s c = simp (a, s, c)

page_info :
    (page : Page)
    → is_file_class (page_io_class (some page)).0 ≡ true
    → (inode : Inode) × IsFilePage page inode
      × ((page_io_class (some page)).1 ≡ some (record { inode = inode; page = page }))
page_info page h = elim (Bool-cases page.anon) [
  | inl a ↦ absurd (false≢true (rw a at h))
  | inr a ↦ elim (Bool-cases page.slab) [
    | inl s ↦ absurd (false≢true (rw (a, s) at h))
    | inr s ↦ elim (Bool-cases page.compound) [
      | inl c ↦ absurd (false≢true (rw (a, s, c) at h))
      | inr c ↦
          let q = page_mapped page a s c in
          let (inode, e, m, p) = mapping_info page page.mapping (rw q at h) in
          (inode, (a, s, c, e, m), rw q p)
    ]
  ]
]

data_info :
    (has_data : Bool) (data_page : Option Page)
    → let r = if has_data then page_io_class data_page else (0, none) in
      is_file_class r.0 ≡ true
      → (info : BioInfo) × (has_data ≡ true)
        × (data_page ≡ some info.page)
        × IsFilePage info.page info.inode
        × (r.1 ≡ some info)
data_info false p h = cc
data_info true none h = cc
data_info true (some page) h =
    let (inode, f, p) = page_info page h in
    (record { inode = inode; page = page }, refl, refl, f, p)

-- A bio that is classed as file data carries a page of the page cache of a regular file, and the
-- `bio_info` that the tracing of the file reads is filled in with that page and file.
pub file_class_info :
    (bio : Bio)
    → is_file_class (bio_class bio).0 ≡ true
    → (info : BioInfo) × ((bio_class bio).1 ≡ some info) × IsFileData bio info
unfolding get_dss_io_class
file_class_info bio h =
    let (info, d, p, f, e) = data_info bio.has_data bio.data_page h in (info, e, (d, p, f))

-- Every bio that carries a page of the page cache of a regular file is classed as file data,
-- also for an empty file, and its `bio_info` is filled in with that page and file.
pub file_data_class :
    (bio : Bio) (info : BioInfo)
    → IsFileData bio info
    → (is_file_class (bio_class bio).0 ≡ true) × ((bio_class bio).1 ≡ some info)
unfolding get_dss_io_class file_size_to_io_class
file_data_class bio info (d, p, (a, s, c, m, r)) =
    (ground (arith, size_class_x86_range info.inode.i_size), ground arith)

-- On these kernels every discard is marked as a flush too: the flag test reads a bit that the
-- operation's number has.
pub discard_flushes : (bio : Bio) → bio_op bio ≡ req_op_discard → is_flush bio ≡ true
discard_flushes bio h = let odd : bio.bi_opf / 2 % 2 ≡ 1 = omega arith in rw odd refl
