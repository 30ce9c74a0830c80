-- ===== src/InodeTracer/WalkStuck.antt =====
-- The walk to the parents while the ring is full.
use standalone_linux_io_trac.Base.{
  ℕ, zero, suc, ◌<◌, ◌≡◌, refl, sym, ap, subst, ◌∙◌, false, List, [], ◌∷◌, none, some, arith, count,
}
use standalone_linux_io_trac.Kernel.{Errno, err}
use standalone_linux_io_trac.Trace.{Octf, write_event}
use standalone_linux_io_trac.Trace.Events.{EventType}
use standalone_linux_io_trac.Inode.{Inode}
use standalone_linux_io_trac.IoTrace.Desc.{next_sid}
use standalone_linux_io_trac.InodeTracer.{InodeTracer, lookup, lookup_chain, same_file}
use standalone_linux_io_trac.InodeTracer.Walk.{
  Dentries, Walk, dget, parent_id, file_name, trace_dentry, walk, trace_inode,
}
use standalone_linux_io_trac.InodeTracer.WalkRound.{walk_miss, after_round, looked}

-- A ring that is full gives no buffer, and stays full while nobody reads it.
pub record StaysFull {T H : Type 0} (o : Octf T H) (IsFull : T → Type 0) : Type 0 where
  pub refuses : (t : T) (n : ℕ) → IsFull t → (e : Errno) × ((o.get_wr_buffer t n).1 ≡ err e)
  pub stays : (t : T) (n : ℕ) → IsFull t → IsFull (o.get_wr_buffer t n).0

-- No entry of the inode's chain is for its number and device.
abbrev pub Uncached : (ℕ → ℕ) → InodeTracer → Inode → Type 0
Uncached hash t inode =
    (e : ℕ) → 0 < count e (t.hash_table (hash inode.i_ino)) → same_file (t.entries e) inode ≡ false

-- The dentry lies so many steps below a root, and none on the way is in the cache.
abbrev pub RisesUncached : (ℕ → ℕ) → Dentries → InodeTracer → ℕ → ℕ → Type 0
RisesUncached hash k t zero d = (k.parent d ≡ some d) × Uncached hash t (k.d_inode d)
RisesUncached hash k t (suc n) d =
    (p : ℕ) × (k.parent d ≡ some p) × Uncached hash t (k.d_inode d) × RisesUncached hash k t n p

lookup_chain-absent :
    (chain : List ℕ) (t : InodeTracer) (inode : Inode)
    → ((e : ℕ) → 0 < count e chain → same_file (t.entries e) inode ≡ false)
    → lookup_chain chain t inode ≡ (t, none)
unfolding lookup_chain
lookup_chain-absent [] t inode h = refl
lookup_chain-absent (e ∷ chain) t inode h =
    rw (h e (ground arith)) (lookup_chain-absent chain t inode (λ a p. h a (omega arith)))

lookup-Uncached :
    (hash : ℕ → ℕ) (t : InodeTracer) (inode : Inode)
    → Uncached hash t inode
    → lookup hash t inode ≡ (t, none)
unfolding lookup
lookup-Uncached hash t inode u = lookup_chain-absent (t.hash_table (hash inode.i_ino)) t inode u

module _ {T H : Type 0} (o : Octf T H) (hash : ℕ → ℕ) (k : Dentries) (IsFull : T → Type 0)
    (full : StaysFull o IsFull) where
  -- A write to a full ring leaves the ring that the refused buffer leaves.
  write_refused :
      (fill : H → standalone_linux_io_trac.Trace.Events.Event) (w : Walk T)
      → IsFull w.trace
      → (e : Errno) × ((write_event o EventType.fs_file_name fill w.trace).1 ≡ err e)
        × IsFull (write_event o EventType.fs_file_name fill w.trace).0
  unfolding write_event
  write_refused fill w f =
      let (e, p) = full.refuses w.trace (o.size_of EventType.fs_file_name) f in
      let q = full.stays w.trace (o.size_of EventType.fs_file_name) f in (e, rw p refl, rw p q)

  trace_dentry_refused :
      (w : Walk T) (inode : Inode) (d : ℕ)
      → IsFull w.trace
      → (trace_dentry o hash k w inode d ≡ some (after_round o hash k w inode d w.tracer))
        × IsFull (after_round o hash k w inode d w.tracer).trace
  unfolding trace_dentry after_round
  trace_dentry_refused w inode d f =
      let (e, p, q) =
        write_refused (λ h. file_name o hash k (next_sid w.sid) inode (parent_id k (k.parent d)) d)
          w f in
      (rw p refl, q)

  Next : ℕ → Walk T → ℕ → ℕ → Type 0
  Next fuel w d p =
      (w' : Walk T) × (walk o hash k (suc fuel) w (k.d_inode d) d
        ≡ walk o hash k fuel w' (k.d_inode p) p)
      × (w'.tracer ≡ w.tracer)
      × IsFull w'.trace

  Next-round :
      (fuel : ℕ) (w : Walk T) (d p : ℕ)
      → k.parent d ≡ some p
      → Uncached hash w.tracer (k.d_inode d)
      → IsFull w.trace
      → Next fuel w d p
  unfolding Next after_round
  Next-round fuel w d p up u f =
      let miss = lookup-Uncached hash w.tracer (k.d_inode d) u in
      let l = looked o hash k w (k.d_inode d) in
      let (run, q) = trace_dentry_refused l (k.d_inode d) d f in
      (
        after_round o hash k l (k.d_inode d) d l.tracer,
        walk_miss o hash k fuel w _ (k.d_inode d) d p (ap (λ r. r.1) miss) run up,
        ap (λ r. r.0) miss,
        q,
      )

  walk_stuck :
      (fuel n : ℕ) (w : Walk T) (d : ℕ)
      → RisesUncached hash k w.tracer n d
      → IsFull w.trace
      → walk o hash k fuel w (k.d_inode d) d ≡ none
  unfolding Next
  walk_stuck zero n w d r f = walk_zero w d
    where
      walk_zero : (w : Walk T) (d : ℕ) → walk o hash k zero w (k.d_inode d) d ≡ none
      walk_zero w d = unfold walk in refl
  walk_stuck (suc fuel) zero w d r f =
      let (w', run, t, q) = Next-round fuel w d d r.0 r.1 f in
      run ∙ walk_stuck fuel zero w' d (subst (λ t. RisesUncached hash k t zero d) (sym t) r) q
  walk_stuck (suc fuel) (suc n) w d (p, up, u, r) f =
      let (w', run, t, q) = Next-round fuel w d p up u f in
      run ∙ walk_stuck fuel n w' p (subst (λ t. RisesUncached hash k t n p) (sym t) r) q

  -- While the ring is full and stays so, `iotrace_trace_inode` does not return for an inode with
  -- a dentry n steps below a root if neither the inode nor one on the way up is in the cache: at
  -- the root it goes round for ever, whatever the fuel.
  pub trace_inode_stuck :
      (fuel n : ℕ) (w : Walk T) (inode : Inode) (d : ℕ)
      → k.find_alias inode.address ≡ some d
      → k.d_inode d ≡ inode
      → RisesUncached hash k w.tracer n d
      → IsFull w.trace
      → trace_inode o hash k fuel w inode ≡ none
  unfolding trace_inode
  trace_inode_stuck fuel n w inode d found same r f =
      rw (found, trace_inode)
        (rw (← same)
          (walk_stuck fuel n (record w { dentry_refs = dget w.dentry_refs (some d) }) d r f))
