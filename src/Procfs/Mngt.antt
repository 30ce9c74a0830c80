-- ===== src/Procfs/Mngt.antt =====
-- source/kernel/procfs.c: the generic handlers of the management files, over the state `S` that a
-- file's own handler works on. `none` is a call that does not come back.
use standalone_linux_io_trac.Base.{
  ℕ, ◌+◌, ◌-◌, Bool, List, [], ◌∷◌, ◌++◌, Option, none, some, ◌==◌, ltb, leb, not, ◌||◌, ◌&&◌,
  if◌then◌else◌, min, length, set, take, get_elem?,
}
use standalone_linux_io_trac.Kernel.{
  Errno, Result, ok, err, einval, enospc, enomem, eacces, efault, ◌>>=◌, bug_on,
}
use standalone_linux_io_trac.Strings.{c_string}
use standalone_linux_io_trac.Bdev.Model.{path_max}

-- What the kernel answers for one call: whether the user's buffer is accessible, whether there is
-- memory for a copy, and whether the copy is whole.
pub record User : Type 0 where
  pub access_ok : Bool
  pub vzalloc_ok : Bool
  pub copy_ok : Bool

-- What a call leaves: the state, the result, and the position `*ppos`.
pub record Answer (S A : Type 0) : Type 0 where
  pub state : S
  pub result : Result A
  pub ppos : ℕ

abbrev pub fails : {S A : Type 0} → S → Errno → ℕ → Option (Answer S A)
fails s e ppos = some (record { state = s; result = err e; ppos = ppos })

-- The copied buffer with its terminator: a newline that ends the text is replaced by it.
abbrev pub terminated : List ℕ → ℕ → List ℕ
terminated buf len = elim (get_elem? buf (len - 1)) [
  | none ↦ buf
  | some ch ↦ if ch == b'\n' then set buf (len - 1) 0 else set buf len 0
]

module _ {S : Type 0} where
  -- The end of `iotrace_mngt_write`: what the handler returned.
  abbrev pub written : ℕ → ℕ → S × Result (Unit {0}) → Answer S ℕ
  written ppos len (s, err e) = record { state = s; result = err e; ppos = ppos }
  written ppos len (s, ok u) = record { state = s; result = ok len; ppos = len }

  -- `iotrace_mngt_write`, of the user's bytes `ubuf`.
  unfoldable pub mngt_write :
      (List ℕ → S → Option (S × Result (Unit {0}))) → User → List ℕ → ℕ → S → Option (Answer S ℕ)
  mngt_write handler u ubuf ppos s =
      let buf = ubuf ++ 0 ∷ [] in
      let len = length (c_string ubuf) in
      if ltb 0 ppos || leb path_max (length ubuf)
      then fails s efault ppos
      else if not u.access_ok
      then fails s efault ppos
      else if not u.vzalloc_ok
      then fails s enomem ppos
      else if not u.copy_ok
      then fails s efault ppos
      else if len == 0
      then fails s einval ppos
      else handler (c_string (terminated buf len)) s >>= λ r. some (written ppos len r)

  -- The end of `iotrace_mngt_read`, behind the handler: `text` stands in the buffer of `count`
  -- bytes, and the handler returned `n`.
  abbrev pub copied : User → ℕ → ℕ → ℕ → S × Result (ℕ × List ℕ) → Option (Answer S (List ℕ))
  copied u ubuf_size count ppos (s, err e) = fails s e ppos
  copied u ubuf_size count ppos (s, ok (n, text)) =
      if leb count n
      then fails s enospc ppos
      else bug_on (ltb ubuf_size n) (
          if not (n == 0) && not u.copy_ok
          then fails s efault ppos
          else some (record { state = s; result = ok (take n text); ppos = n }))

  -- `iotrace_mngt_read`, with the bytes that it copies to the user. A handler gets the size of
  -- the buffer and returns what it returns in C with the text that it leaves there.
  unfoldable pub mngt_read :
      (ℕ → S → Option (S × Result (ℕ × List ℕ))) → User → ℕ → ℕ → ℕ → S → Option (Answer S (List ℕ))
  mngt_read handler u ubuf_size ppos data_size s =
      let count = min data_size ubuf_size + 1 in
      if ltb 0 ppos
      then some (record { state = s; result = ok []; ppos = ppos })
      else if not u.access_ok
      then fails s eacces ppos
      else if not u.vzalloc_ok
      then fails s enomem ppos
      else handler count s >>= copied u ubuf_size count ppos
