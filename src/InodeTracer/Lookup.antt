-- ===== src/InodeTracer/Lookup.antt =====
-- What a lookup in the inode cache tells.
use standalone_linux_io_trac.Base.{
  ℕ, ◌+◌, ◌≤◌, ◌<◌, ◌≡◌, refl, true, false, List, [], ◌∷◌, Option, none, some, arith, ◌==◌,
  if◌then◌else◌, count, Bool-cases, inl, inr, ==_refl, subst, sym, ◌∙◌, ==→eq,
}
use mathlib.Core.Bool.{false≢true}
use standalone_linux_io_trac.Inode.{Inode}
use standalone_linux_io_trac.InodeTracer.{
  InodeTracer, list_del, set_hot, remove_entry, lookup, lookup_chain, same_file, same_time,
}
use standalone_linux_io_trac.InodeTracer.Invariant.{
  IsValid, mapped, list_del_once, count-list_del_le,
}

-- A hit: the entry is in the chain and matches, and it is now the first of the LRU list.
pub record Hit (chain : List ℕ) (t t' : InodeTracer) (inode : Inode) (e : ℕ) : Type 0 where
  pub chained : 0 < count e chain
  pub file : same_file (t.entries e) inode ≡ true
  pub time : same_time (t.entries e) inode ≡ true
  pub first : (rest : List ℕ) × (t'.lru_list ≡ e ∷ rest)

abbrev pub Outcome : ℕ → List ℕ → InodeTracer → Inode → InodeTracer × Option ℕ → Type 0
Outcome b chain t inode (t', some e) = Hit chain t t' inode e
Outcome b chain t inode (t', none) =
    (e : ℕ) → 0 < count e (t'.hash_table b) → same_file (t'.entries e) inode ≡ false

-- An outcome for the rest of a chain is one for the chain, over the same entries.
further :
    (b e : ℕ) (chain : List ℕ) (t s : InodeTracer) (inode : Inode)
    → ((x : ℕ) → s.entries x ≡ t.entries x)
    → (r : InodeTracer × Option ℕ) → Outcome b chain s inode r
    → Outcome b (e ∷ chain) t inode r
further b e chain t s inode same (t', none) h = h
further b e chain t s inode same (t', some x) h = record {
  chained = omega (arith, h.chained);
  file = rw (← same x) h.file;
  time = rw (← same x) h.time;
  first = h.first;
}

module _ (hash : ℕ → ℕ) where
  -- A lookup of an inode that was just put into the cache, in the entry `e`, finds `e` and makes
  -- it the most recently used.
  pub lookup-mapped :
      (t : InodeTracer) (inode : Inode) (e : ℕ)
      → lookup hash (mapped hash t inode e) inode ≡ (set_hot (mapped hash t inode e) e, some e)
  unfolding lookup lookup_chain mapped
  lookup-mapped t inode e = simp (==_refl)

  -- Entries of the chain that match and are still in it are among those to come.
  abbrev Ahead : ℕ → List ℕ → InodeTracer → Inode → Type 0
  Ahead b chain t inode =
      (e : ℕ)
      → 0 < count e (t.hash_table b)
      → same_file (t.entries e) inode ≡ true
      → 0 < count e chain

  abbrev Once : ℕ → InodeTracer → Type 0
  Once b t = (e : ℕ) → count e (t.hash_table b) ≤ 1

  Once-remove_entry : (b e : ℕ) (t : InodeTracer) → Once b t → Once b (remove_entry t e)
  unfolding remove_entry
  Once-remove_entry b e t h a = omega (arith, count-list_del_le a e (t.hash_table b), h a)

  Ahead-remove_entry :
      (b e : ℕ) (chain : List ℕ) (t : InodeTracer) (inode : Inode)
      → Once b t
      → Ahead b (e ∷ chain) t inode
      → Ahead b chain (remove_entry t e) inode
  unfolding remove_entry
  Ahead-remove_entry b e chain t inode o h a p f = elim (Bool-cases (e == a)) [
    | inl s ↦
        let q : 0 < count e (list_del e (t.hash_table b)) =
          subst (λ z. 0 < count z (list_del e (t.hash_table b))) (sym (==→eq e a s)) p in
        absurd (omega (arith, list_del_once e (t.hash_table b) (o e)))
    | inr d ↦
        let g : 0 < (if e == a then 1 else 0) + count a chain =
          h a (omega (arith, p, count-list_del_le a e (t.hash_table b))) f in
        ground (arith, g, d)
  ]

  Ahead-skip :
      (b e : ℕ) (chain : List ℕ) (t : InodeTracer) (inode : Inode)
      → same_file (t.entries e) inode ≡ false
      → Ahead b (e ∷ chain) t inode
      → Ahead b chain t inode
  Ahead-skip b e chain t inode n h a p f = elim (Bool-cases (e == a)) [
    | inl s ↦
        let m : same_file (t.entries e) inode ≡ true =
          subst (λ z. same_file (t.entries z) inode ≡ true) (sym (==→eq e a s)) f in
        absurd (false≢true (sym n ∙ m))
    | inr d ↦
        let g : 0 < (if e == a then 1 else 0) + count a chain = h a p f in ground (arith, g, d)
  ]

  lookup_chain-Outcome :
      (b : ℕ) (chain : List ℕ) (t : InodeTracer) (inode : Inode)
      → Once b t
      → Ahead b chain t inode
      → Outcome b chain t inode (lookup_chain chain t inode)
  unfolding lookup_chain set_hot remove_entry
  lookup_chain-Outcome b [] t inode o h = λ e p. elim (Bool-cases (same_file (t.entries e) inode)) [
    | inl f ↦ absurd (omega (arith, h e p f))
    | inr f ↦ f
  ]
  lookup_chain-Outcome b (e ∷ chain) t inode o h =
      elim (Bool-cases (same_file (t.entries e) inode)) [
        | inl f ↦ elim (Bool-cases (same_time (t.entries e) inode)) [
          | inl s ↦
              rw (f, s) (record { chained = ground arith; file = f; time = s; first = (_, refl) })
          | inr s ↦
              rw (f, s)
                (further b e chain t (remove_entry t e) inode (λ x. refl)
                  (lookup_chain chain (remove_entry t e) inode)
                  (lookup_chain-Outcome b chain (remove_entry t e) inode (Once-remove_entry b e t o)
                    (Ahead-remove_entry b e chain t inode o h)))
        ]
        | inr f ↦ rw f (
            further b e chain t t inode (λ x. refl) (lookup_chain chain t inode)
              (lookup_chain-Outcome b chain t inode o (Ahead-skip b e chain t inode f h)))
      ]

  -- On a well-formed cache a lookup answers right: if it returns an entry, that entry was in the
  -- inode's chain with the same number, device and creation time, and is now the most recently
  -- used; if it returns none, no entry with the inode's number and device is left in the chain,
  -- the stale ones included.
  pub lookup-Outcome :
      (t : InodeTracer) (inode : Inode)
      → IsValid hash t
      → Outcome (hash inode.i_ino) (t.hash_table (hash inode.i_ino)) t inode (lookup hash t inode)
  unfolding lookup
  lookup-Outcome t inode v =
      lookup_chain-Outcome (hash inode.i_ino) (t.hash_table (hash inode.i_ino)) t inode
        (v.once (hash inode.i_ino)) (λ e p f. p)
