-- ===== src/InodeTracer/WalkEnds.antt =====
-- The walk to the parents ends while the ring has room, and gives its dentries back.
use standalone_linux_io_trac.Base.{
  ℕ, zero, suc, ◌+◌, ◌<◌, ◌≡◌, refl, ap, ◌∙◌, some, arith, inl, inr,
}
use standalone_linux_io_trac.Trace.{Octf}
use standalone_linux_io_trac.Inode.{Inode}
use standalone_linux_io_trac.InodeTracer.{InodeTracer, lookup}
use standalone_linux_io_trac.InodeTracer.Invariant.{IsValid, mapped, lookup-IsValid}
use standalone_linux_io_trac.InodeTracer.Lookup.{lookup-mapped}
use standalone_linux_io_trac.InodeTracer.Walk.{Dentries, Walk, dget, walk, trace_inode}
use standalone_linux_io_trac.InodeTracer.WalkRound.{
  HasRoom, GivesBack, GivesBack-dput, GivesBack-trans, dget_pos, walk_hit, Round, round_lem,
}

-- The dentry is so many steps below a root, and a root is its own parent.
abbrev pub Rises : Dentries → ℕ → ℕ → Type 0
Rises k zero d = k.parent d ≡ some d
Rises k (suc n) d = (p : ℕ) × (k.parent d ≡ some p) × Rises k n p

module _ {T H : Type 0} (o : Octf T H) (hash : ℕ → ℕ) (k : Dentries) where
  Ended : ℕ → Walk T → ℕ → Type 0
  Ended fuel w d =
      (w' : Walk T) × (walk o hash k fuel w (k.d_inode d) d ≡ some w')
      × IsValid hash w'.tracer
      × GivesBack d w.dentry_refs w'.dentry_refs

  -- At the root the second round finds what the first one has put into the cache.
  again :
      (w : Walk T) (d : ℕ) (t : InodeTracer) (e : ℕ)
      → IsValid hash w.tracer
      → 0 < w.dentry_refs d
      → w.tracer ≡ mapped hash t (k.d_inode d) e
      → Ended 1 w d
  unfolding Ended
  again w d t e v r m =
      let hit : (lookup hash w.tracer (k.d_inode d)).1 ≡ some e =
        rw m (ap (λ q. q.1) (lookup-mapped hash t (k.d_inode d) e)) in
      (
        _,
        walk_hit o hash k zero w (k.d_inode d) d e hit,
        lookup-IsValid hash w.tracer (k.d_inode d) v,
        GivesBack-dput w.dentry_refs d r,
      )

  walk_ends :
      (n : ℕ) (w : Walk T) (d : ℕ)
      → HasRoom o
      → Rises k n d
      → IsValid hash w.tracer
      → 0 < w.dentry_refs d
      → Ended (suc (suc n)) w d
  unfolding Ended Round
  walk_ends zero w d room rise v r =
      elim (round_lem o hash k (suc zero) w (k.d_inode d) d d room v r rise) [
        | inl done ↦ done
        | inr (w', run, v', (t, e, m), refs) ↦
            let (w'', run', v'', g) =
              again w' d t e v' (dget_pos w.dentry_refs w'.dentry_refs d d r refs) m in
            (
              w'',
              run ∙ run',
              v'',
              GivesBack-trans w.dentry_refs w'.dentry_refs w''.dentry_refs d d r refs g,
            )
      ]
  walk_ends (suc n) w d room (p, up, rise) v r =
      elim (round_lem o hash k (suc (suc n)) w (k.d_inode d) d p room v r up) [
        | inl done ↦ done
        | inr (w', run, v', _, refs) ↦
            let (w'', run', v'', g) =
              walk_ends n w' p room rise v' (dget_pos w.dentry_refs w'.dentry_refs d p r refs) in
            (
              w'',
              run ∙ run',
              v'',
              GivesBack-trans w.dentry_refs w'.dentry_refs w''.dentry_refs d p r refs g,
            )
      ]

  trace_inode_found :
      (fuel : ℕ) (w : Walk T) (inode : Inode) (d : ℕ)
      → k.find_alias inode.address ≡ some d
      → trace_inode o hash k fuel w inode
        ≡ walk o hash k fuel (record w { dentry_refs = dget w.dentry_refs (some d) }) inode d
  unfolding trace_inode
  trace_inode_found fuel w inode d e = rw (e, trace_inode) refl

  -- While the ring has room for every name, and the cache is well formed, `iotrace_trace_inode`
  -- returns for an inode with a dentry n steps below a root, within n + 2 rounds; the cache is
  -- well formed then, and every reference to a dentry that the walk took is given back.
  pub trace_inode_ends :
      (n : ℕ) (w : Walk T) (inode : Inode) (d : ℕ)
      → HasRoom o
      → k.find_alias inode.address ≡ some d
      → k.d_inode d ≡ inode
      → Rises k n d
      → IsValid hash w.tracer
      → (w' : Walk T) × (trace_inode o hash k (n + 2) w inode ≡ some w')
        × IsValid hash w'.tracer
        × ((a : ℕ) → w'.dentry_refs a ≡ w.dentry_refs a)
  unfolding Ended
  trace_inode_ends n w inode d room found same rise v =
      let held = record w { dentry_refs = dget w.dentry_refs (some d) } in
      let (w', run, v', g) = walk_ends n held d room rise v (ground arith) in
      let fuel : n + 2 ≡ suc (suc n) = omega arith in
      (
        w',
        rw fuel (trace_inode_found (suc (suc n)) w inode d found ∙ rw (← same) run),
        v',
        λ a. ground (arith, g a),
      )
