-- ===== src/InodeTracer/WalkRound.antt =====
-- One round of the walk to the parents.
use standalone_linux_io_trac.Base.{
  ℕ, suc, ◌+◌, ◌<◌, ◌≡◌, refl, sym, ap, subst, none, some, arith, ◌==◌, if◌then◌else◌, inl, inr,
  ◌⊎◌, Option-cases, Bool-cases, ==→eq,
}
use standalone_linux_io_trac.Kernel.{ok}
use standalone_linux_io_trac.Trace.{Octf, write_event}
use standalone_linux_io_trac.Trace.Events.{Event, EventType}
use standalone_linux_io_trac.Inode.{Inode}
use standalone_linux_io_trac.IoTrace.Desc.{next_sid}
use standalone_linux_io_trac.InodeTracer.{InodeTracer, lookup, map_inode}
use standalone_linux_io_trac.InodeTracer.Invariant.{
  IsValid, mapped, map_inode_total, lookup-IsValid,
}
use standalone_linux_io_trac.InodeTracer.Walk.{
  Dentries, Walk, dget, dput, mark_parent, parent_id, file_name, trace_dentry, walk,
}

-- Every name finds room in the ring.
abbrev pub HasRoom : {T H : Type 0} → Octf T H → Type 0
HasRoom {T} {H} o =
    (fill : H → Event) (t : T) → (write_event o EventType.fs_file_name fill t).1 ≡ ok tt

-- One reference to `d` is given back, and no other.
abbrev pub GivesBack : ℕ → (ℕ → ℕ) → (ℕ → ℕ) → Type 0
GivesBack d refs refs' = (a : ℕ) → refs' a + (if a == d then 1 else 0) ≡ refs a

-- Dropping a reference that is held gives it back.
pub GivesBack-dput : (refs : ℕ → ℕ) (d : ℕ) → 0 < refs d → GivesBack d refs (dput refs d)
GivesBack-dput refs d r a = elim (Bool-cases (a == d)) [
  | inl s ↦ let q : 0 < refs a = subst (λ z. 0 < refs z) (sym (==→eq a d s)) r in rw s (omega arith)
  | inr n ↦ rw n (omega arith)
]

pub GivesBack-trans :
    (refs refs' refs'' : ℕ → ℕ) (d p : ℕ)
    → 0 < refs d
    → refs' ≡ dput (dget refs (some p)) d
    → GivesBack p refs' refs''
    → GivesBack d refs refs''
GivesBack-trans refs refs' refs'' d p r e g a = elim (Bool-cases (a == d)) [
  | inl s ↦
      let q : 0 < refs a = subst (λ z. 0 < refs z) (sym (==→eq a d s)) r in
      rw s (ground (arith, g a, ap (λ (f : ℕ → ℕ). f a) e, s))
  | inr n ↦ rw n (ground (arith, g a, ap (λ (f : ℕ → ℕ). f a) e, n))
]

pub dget_pos :
    (refs refs' : ℕ → ℕ) (d p : ℕ) → 0 < refs d → refs' ≡ dput (dget refs (some p)) d → 0 < refs' p
dget_pos refs refs' d p r e = elim (Bool-cases (p == d)) [
  | inl s ↦
      let q : 0 < refs p = subst (λ z. 0 < refs z) (sym (==→eq p d s)) r in
      ground (arith, ap (λ (f : ℕ → ℕ). f p) e, s)
  | inr n ↦ ground (arith, ap (λ (f : ℕ → ℕ). f p) e, n)
]

module _ {T H : Type 0} (o : Octf T H) (hash : ℕ → ℕ) (k : Dentries) where
  -- The state behind the lookup of a round.
  abbrev pub looked : Walk T → Inode → Walk T
  looked w inode = record w { tracer = (lookup hash w.tracer inode).0 }

  pub walk_hit :
      (fuel : ℕ) (w : Walk T) (inode : Inode) (d e : ℕ)
      → (lookup hash w.tracer inode).1 ≡ some e
      → walk o hash k (suc fuel) w inode d
        ≡ some (record (looked w inode) { dentry_refs = dput w.dentry_refs d })
  unfolding walk
  walk_hit fuel w inode d e h = rw (h, walk) refl

  pub walk_miss :
      (fuel : ℕ) (w w' : Walk T) (inode : Inode) (d p : ℕ)
      → (lookup hash w.tracer inode).1 ≡ none
      → trace_dentry o hash k (looked w inode) inode d ≡ some w'
      → k.parent d ≡ some p
      → walk o hash k (suc fuel) w inode d ≡ walk o hash k fuel w' (k.d_inode p) p
  unfolding walk
  walk_miss fuel w w' inode d p h g e = rw (h, walk) (rw (g, walk) (rw (e, walk) refl))

  -- The state behind a round whose write has the outcome `r` and leaves the tracer `t`.
  unfoldable pub after_round : Walk T → Inode → ℕ → InodeTracer → Walk T
  after_round w inode d t = record {
    sid = next_sid w.sid;
    trace =
        (write_event o EventType.fs_file_name
          (λ h. file_name o hash k (next_sid w.sid) inode (parent_id k (k.parent d)) d) w.trace).0;
    tracer = t;
    fsm = w.fsm;
    marks = mark_parent k w.fsm w.marks (k.parent d);
    dentry_refs = dput (dget w.dentry_refs (k.parent d)) d;
  }

  trace_dentry_mapped :
      (w : Walk T) (inode : Inode) (d : ℕ) (t : InodeTracer)
      → HasRoom o
      → map_inode hash w.tracer inode ≡ some t
      → trace_dentry o hash k w inode d ≡ some (after_round w inode d t)
  unfolding trace_dentry after_round
  trace_dentry_mapped w inode d t room e =
      rw
        (room (λ h. file_name o hash k (next_sid w.sid) inode (parent_id k (k.parent d)) d) w.trace)
        (rw e refl)

  -- A round either ends the walk or goes on to the parent, with the inode in the cache.
  unfoldable pub Round : ℕ → Walk T → Inode → ℕ → ℕ → Type 0
  Round fuel w inode d p =
      ((w' : Walk T) × (walk o hash k (suc fuel) w inode d ≡ some w')
        × IsValid hash w'.tracer
        × GivesBack d w.dentry_refs w'.dentry_refs)
      ⊎ ((w' : Walk T) × (walk o hash k (suc fuel) w inode d
            ≡ walk o hash k fuel w' (k.d_inode p) p)
          × IsValid hash w'.tracer
          × ((t : InodeTracer) × (e : ℕ) × (w'.tracer ≡ mapped hash t inode e))
          × (w'.dentry_refs ≡ dput (dget w.dentry_refs (some p)) d))

  pub round_lem :
      (fuel : ℕ) (w : Walk T) (inode : Inode) (d p : ℕ)
      → HasRoom o
      → IsValid hash w.tracer
      → 0 < w.dentry_refs d
      → k.parent d ≡ some p
      → Round fuel w inode d p
  unfolding Round after_round
  round_lem fuel w inode d p room v r e = elim (Option-cases (lookup hash w.tracer inode).1) [
    | inl miss ↦
        let v' = lookup-IsValid hash w.tracer inode v in
        let (x, l, m, v'') = map_inode_total hash (looked w inode).tracer inode v' in
        let t = mapped hash (looked w inode).tracer inode x in
        inr (
          after_round (looked w inode) inode d t,
          walk_miss fuel w _ inode d p miss (trace_dentry_mapped (looked w inode) inode d t room m)
              e,
          v'',
          ((looked w inode).tracer, x, refl),
          ap (λ q. dput (dget w.dentry_refs q) d) e,
        )
    | inr (x, hit) ↦ inl (
      _,
      walk_hit fuel w inode d x hit,
      lookup-IsValid hash w.tracer inode v,
      GivesBack-dput w.dentry_refs d r,
    )
  ]
