-- ===== src/InodeTracer/Invariant.antt =====
-- The well-formed states of the inode cache, and that every operation keeps them.
use standalone_linux_io_trac.Base.{
  ℕ, zero, suc, ◌+◌, ◌≤◌, ◌<◌, ◌≡◌, refl, List, [], ◌∷◌, some, arith, ◌==◌, ltb, if◌then◌else◌,
  count, tally-append, Bool-cases, inl, inr,
}
use standalone_linux_io_trac.Inode.{Inode}
use standalone_linux_io_trac.InodeTracer.{
  InodeTracer, cache_size, list_del, list_last, hash_del, hash_add, set_hot, get_entry,
  remove_entry, map_inode, lookup, lookup_chain, create_inode_tracer, init_lru, entry_of, set_entry,
  same_file, same_time,
}

-- The LRU list holds each of the entries once and nothing else; an entry is in a chain at most
-- once, and only in the chain of its inode number.
pub record IsValid (hash : ℕ → ℕ) (t : InodeTracer) : Type 0 where
  pub lru : (e : ℕ) → count e t.lru_list ≡ (if ltb e cache_size then 1 else 0)
  pub once : (b e : ℕ) → count e (t.hash_table b) ≤ 1
  pub home :
      (b e : ℕ)
      → 0 < count e (t.hash_table b)
      → (b ≡ hash (t.entries e).inode_id) × (e < cache_size)

pub count-list_del :
    (a e : ℕ) (xs : List ℕ)
    → 0 < count e xs
    → count a (list_del e xs) + (if e == a then 1 else 0) ≡ count a xs
unfolding list_del
count-list_del a e [] h = absurd (omega arith)
count-list_del a e (x ∷ xs) h = ground (arith, count-list_del a e xs)

pub count-list_del_le : (a e : ℕ) (xs : List ℕ) → count a (list_del e xs) ≤ count a xs
unfolding list_del
count-list_del_le a e [] = omega arith
count-list_del_le a e (x ∷ xs) = ground (arith, count-list_del_le a e xs)

pub list_del_once : (e : ℕ) (xs : List ℕ) → count e xs ≤ 1 → count e (list_del e xs) ≡ 0
list_del_once e xs h = ground (arith, count-list_del e e xs, count-list_del_le e e xs)

pub list_last-count : (e : ℕ) (xs : List ℕ) → list_last xs ≡ some e → 0 < count e xs
unfolding list_last
list_last-count e [] h = cc
list_last-count e (x ∷ []) h = ground arith
list_last-count e (x ∷ y ∷ xs) h = omega (arith, list_last-count e (y ∷ xs) h)

list_last-some : (a : ℕ) (xs : List ℕ) → 0 < count a xs → (e : ℕ) × (list_last xs ≡ some e)
unfolding list_last
list_last-some a [] h = absurd (omega arith)
list_last-some a (x ∷ []) h = (x, refl)
list_last-some a (x ∷ y ∷ xs) h = last_of x y xs
  where
    last_of : (x y : ℕ) (xs : List ℕ) → (e : ℕ) × (list_last (x ∷ y ∷ xs) ≡ some e)
    last_of x y [] = (y, refl)
    last_of x y (z ∷ xs) = last_of y z xs

count-init_lru : (e n : ℕ) → count e (init_lru n) ≡ (if ltb e n then 1 else 0)
unfolding init_lru
count-init_lru e zero = ground arith
count-init_lru e (suc n) = ground (arith, count-init_lru e n)

module _ (hash : ℕ → ℕ) where
  -- A new inode tracer is well formed: its LRU list has every entry once and every chain is
  -- empty.
  pub create-IsValid : IsValid hash create_inode_tracer
  unfolding create_inode_tracer
  create-IsValid = record {
    lru = λ e. count-init_lru e cache_size;
    once = λ b e. omega arith;
    home = λ b e h. absurd (omega arith);
  }

  set_hot-IsValid :
      (t : InodeTracer) (e : ℕ) → IsValid hash t → e < cache_size → IsValid hash (set_hot t e)
  unfolding set_hot
  set_hot-IsValid t e v h = record {
    lru = λ a. ground (arith, count-list_del a e t.lru_list, v.lru a, v.lru e);
    once = v.once;
    home = v.home;
  }

  remove_entry-IsValid :
      (t : InodeTracer) (e : ℕ) → IsValid hash t → e < cache_size → IsValid hash (remove_entry t e)
  unfolding remove_entry
  remove_entry-IsValid t e v h = record {
    lru = λ a. ground (
      arith,
      count-list_del a e t.lru_list,
      tally-append (λ x. x == a) (list_del e t.lru_list) (e ∷ []),
      v.lru a,
      v.lru e,
    );
    once = λ b a. omega (arith, count-list_del_le a e (t.hash_table b), v.once b a);
    home = λ b a p. v.home b a (omega (arith, count-list_del_le a e (t.hash_table b)));
  }

  abbrev AllEntries : List ℕ → Type 0
  AllEntries [] = Unit {0}
  AllEntries (e ∷ chain) = (e < cache_size) × AllEntries chain

  AllEntries-of :
      (chain : List ℕ) → ((e : ℕ) → 0 < count e chain → e < cache_size) → AllEntries chain
  AllEntries-of [] h = tt
  AllEntries-of (e ∷ chain) h = (h e (ground arith), AllEntries-of chain (λ a p. h a (omega arith)))

  lookup_chain-IsValid :
      (chain : List ℕ) (t : InodeTracer) (inode : Inode)
      → AllEntries chain
      → IsValid hash t
      → IsValid hash (lookup_chain chain t inode).0
  unfolding lookup_chain
  lookup_chain-IsValid [] t inode h v = v
  lookup_chain-IsValid (e ∷ chain) t inode h v = elim (Bool-cases (same_file (t.entries e) inode)) [
    | inl f ↦ elim (Bool-cases (same_time (t.entries e) inode)) [
      | inl s ↦ rw (f, s) (set_hot-IsValid t e v h.0)
      | inr s ↦
          rw (f, s)
            (lookup_chain-IsValid chain (remove_entry t e) inode h.1
              (remove_entry-IsValid t e v h.0))
    ]
    | inr f ↦ rw f (lookup_chain-IsValid chain t inode h.1 v)
  ]

  -- On a well-formed cache a lookup keeps it well formed, whatever it finds and throws out.
  pub lookup-IsValid :
      (t : InodeTracer) (inode : Inode) → IsValid hash t → IsValid hash (lookup hash t inode).0
  unfolding lookup
  lookup-IsValid t inode v =
      lookup_chain-IsValid (t.hash_table (hash inode.i_ino)) t inode
        (AllEntries-of _ (λ e p. (v.home (hash inode.i_ino) e p).1)) v

  -- `_map` on the last entry of the LRU list, with that entry written out.
  unfoldable pub mapped : InodeTracer → Inode → ℕ → InodeTracer
  mapped t inode e = record t {
    entries = set_entry t.entries e (entry_of inode);
    lru_list = e ∷ list_del e t.lru_list;
    hash_table = hash_add (hash inode.i_ino) e (hash_del e t.hash_table);
  }

  get_entry_last :
      (t : InodeTracer) (e : ℕ)
      → list_last t.lru_list ≡ some e
      → get_entry t
        ≡ some
            (record t { lru_list = list_del e t.lru_list; hash_table = hash_del e t.hash_table }, e)
  unfolding get_entry
  get_entry_last t e h = rw (h, get_entry) refl

  pub map_inode-mapped :
      (t : InodeTracer) (inode : Inode) (e : ℕ)
      → list_last t.lru_list ≡ some e
      → map_inode hash t inode ≡ some (mapped t inode e)
  unfolding map_inode mapped
  map_inode-mapped t inode e h = rw (get_entry_last t e h, map_inode) refl

  pub mapped-IsValid :
      (t : InodeTracer) (inode : Inode) (e : ℕ)
      → IsValid hash t
      → 0 < count e t.lru_list
      → IsValid hash (mapped t inode e)
  unfolding mapped
  mapped-IsValid t inode e v p = record {
    lru = λ a. omega (arith, count-list_del a e t.lru_list p, v.lru a);
    once = λ b a. ground (
      arith,
      list_del_once e (t.hash_table b) (v.once b e),
      count-list_del_le a e (t.hash_table b),
      v.once b a,
    );
    home = λ b a q. ground (
      arith,
      list_del_once e (t.hash_table b) (v.once b e),
      count-list_del_le a e (t.hash_table b),
      v.home b a,
      v.lru e,
    );
  }

  -- On a well-formed cache `_map` never lacks an entry: it takes the last one of the LRU list,
  -- and the cache stays well formed.
  pub map_inode_total :
      (t : InodeTracer) (inode : Inode)
      → IsValid hash t
      → (e : ℕ) × (list_last t.lru_list ≡ some e)
        × (map_inode hash t inode ≡ some (mapped t inode e))
        × IsValid hash (mapped t inode e)
  map_inode_total t inode v =
      let (e, l) = list_last-some 0 t.lru_list (ground (arith, v.lru 0)) in
      (
        e,
        l,
        map_inode-mapped t inode e l,
        mapped-IsValid t inode e v (list_last-count e t.lru_list l),
      )
