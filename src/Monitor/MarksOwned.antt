-- ===== src/Monitor/MarksOwned.antt =====
-- No callback of fsnotify finds freed memory, and the cache is destroyed empty.
use standalone_linux_io_trac.Base.{
  ℕ, ◌+◌, ◌-◌, ◌≡◌, ◌<◌, refl, sym, ◌∙◌, subst, some_eq, none_is_not, true, false, Option, none,
  some, arith, ◌==◌, Bool-cases, inl, inr, ◌↔◌,
}
use standalone_linux_io_trac.Monitor.Marks.{
  Group, Marked, Owned, Step, gets, marks_inode, drops_mark, puts, fs_free_mark, fs_free_group_priv,
  alloc_mark, put_group,
}

abbrev pub state : Group → ℕ → ℕ → Marked
state g users marks = record { group = g; users = users; marks = marks }

-- Dropping a reference of a group that has no use for it any more.
put_group-Owned :
    (g : Group) (users marks : ℕ)
    → g.refs ≡ users + marks + 1
    → g.private_marks ≡ some marks
    → (g' : Group) × (put_group g ≡ some g') × Owned (state g' users marks)
unfolding fs_free_group_priv
put_group-Owned g users marks r p = elim (Bool-cases (g.refs == 1)) [
  | inl last ↦
      let empty : (marks == 0) ≡ true = ground arith in
      let none_left : (users + marks == 0) ≡ true = ground arith in
      rw last (
        rw (p, fs_free_group_priv)
          (rw empty (
            record g { refs = 0; private_marks = none },
            refl,
            record { refs = ground arith; private_marks = rw none_left refl },
          )))
  | inr more ↦
      let some_left : (users + marks == 0) ≡ false = ground arith in
      rw more (
        record g { refs = g.refs - 1 },
        refl,
        record { refs = ground arith; private_marks = rw some_left p },
      )
]

-- While the group is referenced its private data stands.
held : (x : Marked) → Owned x → 0 < x.users + x.marks → x.group.private_marks ≡ some x.marks
held x o h = o.private_marks ∙ ground arith

-- The private data is freed exactly at the end of the last user and mark.
freed-last : (x : Marked) → Owned x → (x.group.private_marks ≡ none) ↔ (x.users + x.marks ≡ 0)
freed-last x o = elim (Bool-cases (x.users + x.marks == 0)) [
  | inl z ↦
      let e : x.group.private_marks ≡ none = o.private_marks ∙ rw z refl in
      ((λ p. ground arith), (λ p. e))
  | inr n ↦
      let e : x.group.private_marks ≡ some x.marks = o.private_marks ∙ rw n refl in
      ((λ p. absurd (none_is_not (sym p ∙ e))), (λ p. ground arith))
]

-- No call on a group that is owned so faults, and it stays owned.
pub Step-Owned :
    (x : Marked) (out : Option Group) (users marks : ℕ)
    → Step x out users marks
    → Owned x
    → (g : Group) × (out ≡ some g) × Owned (state g users marks)
unfolding fs_free_mark alloc_mark
Step-Owned x out users marks (gets h) o =
    (record (x.group) { refs = x.group.refs + 1 }, refl, ground arith)
Step-Owned x out users marks (marks_inode h) o =
    let p = held x o (omega arith) in
    let n : (x.users + (x.marks + 1) == 0) ≡ false = ground arith in
    rw p (
      record { refs = x.group.refs + 1; private_marks = some (x.marks + 1) },
      refl,
      record { refs = ground arith; private_marks = rw n refl },
    )
Step-Owned x out users marks (drops_mark h) o =
    let p = held x o (omega arith) in
    let n : (x.marks == 0) ≡ false = ground arith in
    let freed : fs_free_mark x.group
        ≡ some (record (x.group) { private_marks = some (x.marks - 1) }) =
      rw p (rw n refl) in
    rw freed (
      put_group-Owned (record (x.group) { private_marks = some (x.marks - 1) }) x.users
        (x.marks - 1) (ground arith) refl)
Step-Owned x out users marks (puts h) o =
    put_group-Owned x.group (x.users - 1) x.marks (ground arith) (held x o (omega arith))

-- Calls in any order, none of which faults.
pub data Reach (x : Marked) : Marked → Type 0 where
  here : Reach x x
  next :
      {y : Marked} (out : Option Group) (g : Group) (users marks : ℕ)
      → Reach x y
      → Step y out users marks
      → out ≡ some g
      → Reach x (state g users marks)

pub Reach-Owned : (x y : Marked) → Reach x y → Owned x → Owned y
Reach-Owned x y here o = o
Reach-Owned x y (next {y = z} out g users marks r st e) o =
    let (g', e', o') = Step-Owned z out users marks st (Reach-Owned x z r o) in
    subst (λ h. Owned (state h users marks)) (some_eq (sym e' ∙ e)) o'

-- However users and marks come and go, from a group that has one reference for each user and each
-- mark and its private data exactly while it has one: the next call comes back as well, so that no
-- mark's callback finds freed data and the cache `mark_cache` is never destroyed with a mark in it;
-- the group has one reference for each user and mark, and its private data is freed exactly when
-- there is none.
pub Reach-frees :
    (x y : Marked) (out : Option Group) (users marks : ℕ)
    → Owned x
    → Reach x y
    → Step y out users marks
    → (g : Group) × (out ≡ some g)
      × (g.refs ≡ users + marks)
      × ((g.private_marks ≡ none) ↔ (users + marks ≡ 0))
Reach-frees x y out users marks o r st =
    let (g, e, o') = Step-Owned y out users marks st (Reach-Owned x y r o) in
    (g, e, o'.refs, freed-last (state g users marks) o')
