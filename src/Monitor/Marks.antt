-- ===== src/Monitor/Marks.antt =====
-- source/kernel/trace_inode.c: the callbacks by which fsnotify frees a mark and a group's private
-- data, and whom it calls them for. fsnotify counts the references to a group: one for each user of
-- the monitor and one for each mark, which it drops behind the mark's callback; with the last one
-- it calls the callback of the group.
use standalone_linux_io_trac.Base.{ℕ, ◌+◌, ◌-◌, ◌≡◌, ◌<◌, Option, none, some, ◌==◌, if◌then◌else◌}
use standalone_linux_io_trac.Kernel.{◌>>=◌}

-- A group: its references, and its private data, if there is one, with how many marks are
-- allocated from the cache `mark_cache`.
pub record Group : Type 0 where
  pub refs : ℕ
  pub private_marks : Option ℕ

-- `iotrace_fs_free_mark`; `none` is a use of freed memory.
unfoldable pub fs_free_mark : Group → Option Group
fs_free_mark g = g.private_marks >>= λ marks.
    if marks == 0 then none else some (record g { private_marks = some (marks - 1) })

-- `_fs_free_group_priv`; `none` is a cache that is destroyed with marks in it.
unfoldable pub fs_free_group_priv : Group → Option Group
fs_free_group_priv g = elim (g.private_marks) [
  | none ↦ some g
  | some marks ↦ if marks == 0 then some (record g { private_marks = none }) else none
]

-- The allocation of a mark in `_fs_add_mark`, with the reference that `fsnotify_init_mark` takes.
unfoldable pub alloc_mark : Group → Option Group
alloc_mark g = g.private_marks >>= λ marks.
    some (record { refs = g.refs + 1; private_marks = some (marks + 1) })

-- What fsnotify does with the callbacks.
abbrev pub put_group : Group → Option Group
put_group g =
    if g.refs == 1
    then fs_free_group_priv (record g { refs = 0 })
    else some (record g { refs = g.refs - 1 })

abbrev pub destroy_mark : Group → Option Group
destroy_mark g = fs_free_mark g >>= put_group

-- A group with its users and its marks.
pub record Marked : Type 0 where
  pub group : Group
  pub users : ℕ
  pub marks : ℕ

-- One call: a user more, a mark, the end of a mark, and a user less. `none` is a call that faults.
pub data Step (x : Marked) : Option Group → ℕ → ℕ → Type 0 where
  gets :
      0 < x.users
      → Step x (some (record (x.group) { refs = x.group.refs + 1 })) (x.users + 1) x.marks
  marks_inode : 0 < x.users → Step x (alloc_mark x.group) x.users (x.marks + 1)
  drops_mark : 0 < x.marks → Step x (destroy_mark x.group) x.users (x.marks - 1)
  puts : 0 < x.users → Step x (put_group x.group) (x.users - 1) x.marks

-- The group has a reference for each user and each mark, and while it has one its private data
-- stands, with the marks in its cache; without one it is freed.
pub record Owned (x : Marked) : Type 0 where
  pub refs : x.group.refs ≡ x.users + x.marks
  pub private_marks :
      x.group.private_marks ≡ (if x.users + x.marks == 0 then none else some x.marks)
