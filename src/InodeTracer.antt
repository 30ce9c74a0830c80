-- ===== src/InodeTracer.antt =====
-- source/kernel/trace_inode.c: the cache of traced inodes, a hash table with an LRU list over
-- a fixed array of entries. An entry is its index in the array; `hash` is the kernel's hash of
-- an inode number to a bucket. A chain and the LRU list are lists of indices, first to last.
pub mod Invariant
pub mod Lookup
pub mod Walk
pub mod WalkRound
pub mod WalkEnds
pub mod WalkStuck
pub mod Examples
use standalone_linux_io_trac.Base.{
  ℕ, zero, suc, Bool, true, false, List, [], ◌∷◌, ◌++◌, Option, none, some, ◌==◌, ◌&&◌,
  if◌then◌else◌,
}
use standalone_linux_io_trac.Trace.Events.{Timespec}
use standalone_linux_io_trac.Inode.{Inode}

-- `CACHE_SIZE`: `(2ULL << CACHE_HASH_BITS) * 4`, with `CACHE_HASH_BITS` 10.
abbrev pub cache_size : ℕ
cache_size = 8192

pub record CacheEntry : Type 0 where
  pub inode_id : ℕ
  pub ctime : Timespec
  pub device_id : ℕ

pub record InodeTracer : Type 0 where
  pub hash_table : ℕ → List ℕ
  pub lru_list : List ℕ
  pub entries : ℕ → CacheEntry

-- `list_del`: a member is unlinked.
unfoldable pub list_del : ℕ → List ℕ → List ℕ
list_del e [] = []
list_del e (x ∷ xs) = if x == e then xs else x ∷ list_del e xs

-- `list_last_entry`.
unfoldable pub list_last : List ℕ → Option ℕ
list_last [] = none
list_last (x ∷ []) = some x
list_last (x ∷ y ∷ xs) = list_last (y ∷ xs)

-- `hash_del`: the entry is unlinked from the chain it is in; it may be in none.
abbrev pub hash_del : ℕ → (ℕ → List ℕ) → ℕ → List ℕ
hash_del e table b = list_del e (table b)

-- `hash_add`: the entry becomes the first of a chain.
abbrev pub hash_add : ℕ → ℕ → (ℕ → List ℕ) → ℕ → List ℕ
hash_add bucket e table b = if b == bucket then e ∷ table b else table b

-- `_set_hot`.
unfoldable pub set_hot : InodeTracer → ℕ → InodeTracer
set_hot t e = record t { lru_list = e ∷ list_del e t.lru_list }

-- `_get_entry`: the last entry of the LRU list, unlinked from the list and from its chain.
unfoldable pub get_entry : InodeTracer → Option (InodeTracer × ℕ)
get_entry t = elim (list_last t.lru_list) [
  | none ↦ none
  | some e ↦
      some (record t { lru_list = list_del e t.lru_list; hash_table = hash_del e t.hash_table }, e)
]

-- `_remove_entry`: out of its chain, and to the end of the LRU list.
unfoldable pub remove_entry : InodeTracer → ℕ → InodeTracer
remove_entry t e = record t {
  lru_list = list_del e t.lru_list ++ e ∷ [];
  hash_table = hash_del e t.hash_table;
}

abbrev pub entry_of : Inode → CacheEntry
entry_of inode = record { inode_id = inode.i_ino; ctime = inode.i_ctime; device_id = inode.s_dev }

abbrev pub set_entry : (ℕ → CacheEntry) → ℕ → CacheEntry → ℕ → CacheEntry
set_entry entries e v k = if k == e then v else entries k

-- The same file by number and device, and the same creation time.
abbrev pub same_file : CacheEntry → Inode → Bool
same_file c inode = inode.i_ino == c.inode_id && inode.s_dev == c.device_id

abbrev pub same_time : CacheEntry → Inode → Bool
same_time c inode =
    inode.i_ctime.tv_sec == c.ctime.tv_sec && inode.i_ctime.tv_nsec == c.ctime.tv_nsec

-- The loop of `_lookup` over a chain; the chain is walked as it was when the loop began, which
-- is what the `_safe` form of the loop allows for.
unfoldable pub lookup_chain : List ℕ → InodeTracer → Inode → InodeTracer × Option ℕ
lookup_chain [] t inode = (t, none)
lookup_chain (e ∷ chain) t inode =
    let c = t.entries e in
    let miss = lookup_chain chain (if same_file c inode then remove_entry t e else t) inode in
    if same_file c inode && same_time c inode then (set_hot t e, some e) else miss

module _ (hash : ℕ → ℕ) where
  -- `_map`; `none` if there is no entry to take.
  unfoldable pub map_inode : InodeTracer → Inode → Option InodeTracer
  map_inode t inode = elim (get_entry t) [
    | none ↦ none
    | some (t', e) ↦ some (record t' {
      entries = set_entry t'.entries e (entry_of inode);
      lru_list = e ∷ t'.lru_list;
      hash_table = hash_add (hash inode.i_ino) e t'.hash_table;
    })
  ]

  -- `_lookup`.
  unfoldable pub lookup : InodeTracer → Inode → InodeTracer × Option ℕ
  lookup t inode = lookup_chain (t.hash_table (hash inode.i_ino)) t inode

-- The loop of `iotrace_create_inode_tracer`: entry after entry is put at the head of the list.
unfoldable pub init_lru : ℕ → List ℕ
init_lru zero = []
init_lru (suc n) = n ∷ init_lru n

-- The tracer that `iotrace_create_inode_tracer` makes of zeroed memory.
unfoldable pub create_inode_tracer : InodeTracer
unfolding init_lru
create_inode_tracer = record {
  hash_table = λ b. [];
  lru_list = init_lru cache_size;
  entries = λ e. record { inode_id = 0; ctime = record { tv_sec = 0; tv_nsec = 0 }; device_id = 0 };
}
