-- ===== src/Procfs/ListText.antt =====
-- The text that the `devices` file gives.
use standalone_linux_io_trac.Base.{
  ℕ, ◌+◌, ◌-◌, ◌*◌, ◌<◌, ◌≤◌, ◌≡◌, refl, ap, ◌∙◌, Bool, true, false, List, [], ◌∷◌, ◌++◌, some,
  arith, ◌==◌, ltb, leb, not, ◌&&◌, if◌then◌else◌, min, length, length-append, map, take,
  take_of_length-le, elem, Bool-cases, inl, inr,
}
use mathlib.Core.List.{append_assoc, append-nil}
use standalone_linux_io_trac.Kernel.{ok, err, enospc}
use standalone_linux_io_trac.Context.{Context, BlockDevice}
use standalone_linux_io_trac.Bdev.{Devices}
use standalone_linux_io_trac.Bdev.Model.{disk_name_len}
use standalone_linux_io_trac.Bdev.Invariant.{Tracks}
use standalone_linux_io_trac.Bdev.Lookup.{NamesFit, bdev_list-names}
use standalone_linux_io_trac.Procfs.Mngt.{User, Answer, copied, mngt_read}
use standalone_linux_io_trac.Procfs.Entries.{list_loop, list_dev_snprintf, list_dev_read}

-- The names as lines.
abbrev pub lines : List (List ℕ) → List ℕ
lines [] = []
lines (name ∷ names) = (name ++ b'\n' ∷ []) ++ lines names

list_loop_fits :
    (names : List (List ℕ)) (size pos : ℕ) (text : List ℕ)
    → length (lines names) < size
    → list_loop names size pos text ≡ (pos + length (lines names), text ++ lines names)
unfolding list_loop
list_loop_fits [] size pos text h = rw (append-nil text) (ap (λ n. (n, text)) (omega arith))
list_loop_fits (name ∷ names) size pos text h =
    let line = name ++ b'\n' ∷ [] in
    let total = length-append {0} line (lines names) in
    let n = length line in
    let whole : min n size ≡ n = omega (arith, total) in
    let more : (size - n == 0) ≡ false = ground (arith, total) in
    let fits = take_of_length-le (size - 1) line (omega (arith, total)) in
    let rest = list_loop_fits names (size - n) (pos + n) (text ++ line) (omega (arith, total)) in
    rw (whole) (
      rw (more) (
        rw (fits) (
          rw rest (
            rw (append_assoc text line (lines names))
              (ap (λ k. (k, text ++ (line ++ lines names))) (omega (arith, total)))))))

list_loop_full :
    (names : List (List ℕ)) (size pos : ℕ) (text : List ℕ)
    → 0 < size
    → size ≤ length (lines names)
    → (list_loop names size pos text).0 ≡ pos + size
unfolding list_loop
list_loop_full [] size pos text p h = absurd (omega arith)
list_loop_full (name ∷ names) size pos text p h =
    let line = name ++ b'\n' ∷ [] in
    let total = length-append {0} line (lines names) in
    let n = length line in
    elim (Bool-cases (size - min n size == 0)) [
      | inl e ↦ rw e (ground (arith, e))
      | inr e ↦
          let left : 0 < size - min n size = ground (arith, e) in
          rw e (
            list_loop_full names (size - min n size) (pos + min n size)
              (text ++ take (size - 1) line) left (omega (arith, total, left))
            ∙ omega (arith, left))
    ]

-- What a read of a text gives, with room for `room` bytes: the text, or `-ENOSPC`.
abbrev pub whole_or_full : {S : Type 0} → ℕ → List ℕ → S → Answer S (List ℕ)
whole_or_full room text s =
    if leb (length text) room
    then record { state = s; result = ok text; ppos = length text }
    else record { state = s; result = err enospc; ppos = 0 }

-- All that can stop a read before its handler is in order.
abbrev pub Willing : User → Type 0
Willing u = (u.access_ok ≡ true) × (u.vzalloc_ok ≡ true) × (u.copy_ok ≡ true)

lines_bound :
    (dev : ℕ → BlockDevice) (ds : List ℕ)
    → NamesFit dev disk_name_len ds
    → length (lines (map (λ d. (dev d).disk_name) ds)) ≤ length ds * 32
lines_bound dev [] f = omega arith
lines_bound dev (d ∷ ds) f = omega (
  arith,
  f.0,
  lines_bound dev ds f.1,
  length-append {0} ((dev d).disk_name ++ b'\n' ∷ []) (lines (map (λ d. (dev d).disk_name) ds)),
  length-append {0} (dev d).disk_name (b'\n' ∷ []),
)

pub never {ℓ} : {A : Type ℓ} (b : Bool) (x y : A) → (if not b && false then x else y) ≡ y
never true x y = refl
never false x y = refl

copied_text :
    {S : Type 0} (u : User) (room count : ℕ) (names : List (List ℕ)) (s : S)
    → u.copy_ok ≡ true
    → length (lines names) ≤ 1024
    → count ≡ min 1024 room + 1
    → copied u room count 0 (s, ok (list_loop names count 0 []))
      ≡ some (whole_or_full room (lines names) s)
copied_text u room count names s c b e =
    let text = lines names in
    elim (Bool-cases (leb (length text) room)) [
      | inl f ↦
          let short : length text < count = ground (arith, e, f, b) in
          let below : leb count (length text) ≡ false = ground arith in
          let inside : ltb room (length text) ≡ false = ground (arith, f) in
          let all = take_of_length-le (length text) text (omega arith) in
          let zero : 0 + length text ≡ length text = omega arith in
          rw (list_loop_fits names count 0 [] short ∙ ap (λ n. (n, text)) zero)
            (rw (below) (rw (inside) (rw (all) (rw (f) (rw (c) (never (length text == 0) _ _))))))
      | inr f ↦
          let full = list_loop_full names count 0 [] (omega arith) (ground (arith, e, f, b)) in
          let all : leb count (0 + count) ≡ true = ground arith in
          rw (full) (rw (all) (rw (f) refl))
    ]

module _ {T : Type 0} (k : Devices) (cpus : List ℕ) where
  -- With the devices `ds` tracked, their names shorter than 32 bytes and the mutex free, a read
  -- of `devices` from its start that the kernel does not refuse gives all the names, each as a
  -- line and in the order of `ds`, if the user's buffer has room for them all, and is `-ENOSPC`
  -- otherwise, never a part; the state is as before.
  pub list_dev_read-lines :
      (cpu room : ℕ) (u : User) (ds : List ℕ) (ctx : Context T)
      → Tracks k.dev cpus ds ctx
      → elem cpu cpus ≡ true
      → ctx.locked ≡ false
      → NamesFit k.dev disk_name_len ds
      → Willing u
      → list_dev_read k cpu true u room 0 ctx
        ≡ some (whole_or_full room (lines (map (λ d. (k.dev d).disk_name) ds)) ctx)
  unfolding list_dev_read mngt_read list_dev_snprintf
  list_dev_read-lines cpu room u ds ctx t on free f (a, v, c) =
      let (ctx', run, same) = bdev_list-names k cpus ds ctx cpu 32 t on free (omega arith) f in
      rw (a) (
        rw v (
          rw (run) (
            rw same (
              copied_text u room (min 1024 room + 1) (map (λ d. (k.dev d).disk_name) ds) ctx c
                (omega (arith, lines_bound k.dev ds f, t.bounded)) refl))))
