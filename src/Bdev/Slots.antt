-- ===== src/Bdev/Slots.antt =====
-- An array of `n` pointers whose first places hold the devices of a list and whose other places
-- are `NULL`: what the writes and the loops of trace_bdev.c make of it.
use standalone_linux_io_trac.Base.{
  ℕ, zero, suc, ◌+◌, ◌≤◌, ◌<◌, ◌≡◌, refl, ap, Bool, true, false, List, [], ◌∷◌, ◌++◌, Option, none,
  some, arith, ◌==◌, if◌then◌else◌, length, get_elem?, set, drop_last, count, tally, tally-set,
  tally-drop_last, get_elem?-set_last, ◌∙◌, ◌↔◌, length-set, Bool-cases, inl, inr,
}
use standalone_linux_io_trac.Context.{BlockDevice}
use standalone_linux_io_trac.Bdev.Arrays.{scan_queue, queue_traced, find_index}

unfoldable pub slots : ℕ → List ℕ → List (Option ℕ)
slots zero ds = []
slots (suc n) [] = none ∷ slots n []
slots (suc n) (d ∷ ds) = some d ∷ slots n ds

pub set-slots_end :
    (n d : ℕ) (ds : List ℕ)
    → length ds < n
    → set (slots n ds) (length ds) (some d) ≡ slots n (ds ++ d ∷ [])
unfolding slots
set-slots_end zero d ds h = elim h [ ]
set-slots_end (suc n) d [] h = refl
set-slots_end (suc n) d (x ∷ ds) h = ap (◌∷◌ (some x)) (set-slots_end n d ds (omega arith))

pub set-slots :
    (n i d : ℕ) (ds : List ℕ) → i < length ds → set (slots n ds) i (some d) ≡ slots n (set ds i d)
unfolding slots
set-slots zero i d [] h = elim h [ ]
set-slots zero zero d (x ∷ ds) h = refl
set-slots zero (suc i) d (x ∷ ds) h = refl
set-slots (suc n) i d [] h = elim h [ ]
set-slots (suc n) zero d (x ∷ ds) h = refl
set-slots (suc n) (suc i) d (x ∷ ds) h = ap (◌∷◌ (some x)) (set-slots n i d ds (omega arith))

pub set-slots_last :
    (n i : ℕ) (ds : List ℕ) → length ds ≡ suc i → set (slots n ds) i none ≡ slots n (drop_last ds)
unfolding slots
set-slots_last zero i (x ∷ []) h = refl
set-slots_last zero i (x ∷ y ∷ ds) h = refl
set-slots_last (suc n) zero (x ∷ []) h = refl
set-slots_last (suc n) (suc i) (x ∷ []) h = absurd (omega arith)
set-slots_last (suc n) zero (x ∷ y ∷ ds) h = absurd (omega arith)
set-slots_last (suc n) (suc i) (x ∷ y ∷ ds) h =
    ap (◌∷◌ (some x)) (set-slots_last n i (y ∷ ds) (omega arith))
set-slots_last n i [] h = absurd (omega arith)

pub get-slots :
    (n i : ℕ) (ds : List ℕ)
    → i < length ds
    → length ds ≤ n
    → (d : ℕ) × (get_elem? (slots n ds) i ≡ some (some d)) × (get_elem? ds i ≡ some d)
unfolding slots
get-slots n i [] h k = elim h [ ]
get-slots zero i (x ∷ ds) h k = absurd (omega arith)
get-slots (suc n) zero (x ∷ ds) h k = (x, refl, refl)
get-slots (suc n) (suc i) (x ∷ ds) h k = get-slots n i ds (omega arith) (omega arith)

abbrev pub is_some : Option ℕ → Bool
is_some none = false
is_some (some d) = true

module _ (dev : ℕ → BlockDevice) where
  -- The first device of a list with a queue.
  pub on_queue : ℕ → List ℕ → Option ℕ
  on_queue q [] = none
  on_queue q (d ∷ ds) = if (dev d).bd_queue == q then some d else on_queue q ds

  abbrev pub queue_count : ℕ → List ℕ → ℕ
  queue_count q ds = tally (λ d. (dev d).bd_queue == q) ds

  pub on_queue-none : (q : ℕ) (ds : List ℕ) → (on_queue q ds ≡ none) ↔ (queue_count q ds ≡ 0)
  unfolding on_queue
  on_queue-none q [] = ground arith
  on_queue-none q (d ∷ ds) = ground (arith, (on_queue-none q ds).0, (on_queue-none q ds).1)

  pub on_queue-some :
      (q d : ℕ) (ds : List ℕ) → on_queue q ds ≡ some d → ((dev d).bd_queue ≡ q) × (0 < count d ds)
  unfolding on_queue
  on_queue-some q d [] h = cc
  on_queue-some q d (x ∷ ds) h = ground (arith, on_queue-some q d ds)

  pub scan_queue-slots :
      (n q : ℕ) (ds : List ℕ) → length ds ≤ n → scan_queue dev (slots n ds) q ≡ on_queue q ds
  unfolding slots scan_queue on_queue
  scan_queue-slots zero q [] h = refl
  scan_queue-slots (suc n) q [] h = refl
  scan_queue-slots zero q (d ∷ ds) h = absurd (omega arith)
  scan_queue-slots (suc n) q (d ∷ ds) h = ground (arith, scan_queue-slots n q ds (omega arith))

  pub queue_traced-slots :
      (n q : ℕ) (ds : List ℕ)
      → length ds ≤ n
      → queue_traced dev (slots n ds) (length ds) q ≡ some (is_some (on_queue q ds))
  unfolding slots queue_traced on_queue
  queue_traced-slots n q [] h = refl
  queue_traced-slots zero q (d ∷ ds) h = absurd (omega arith)
  queue_traced-slots (suc n) q (d ∷ ds) h = ground (arith, queue_traced-slots n q ds (omega arith))

-- The first place of a device in a list, counted from `i`.
pub index_from : ℕ → ℕ → List ℕ → Option ℕ
index_from i a [] = none
index_from i a (d ∷ ds) = if d == a then some i else index_from (i + 1) a ds

pub find_index-slots :
    (n i a : ℕ) (ds : List ℕ)
    → length ds ≤ n
    → find_index (slots n ds) (length ds) i a ≡ some (index_from i a ds)
unfolding slots find_index index_from
find_index-slots n i a [] h = refl
find_index-slots zero i a (d ∷ ds) h = absurd (omega arith)
find_index-slots (suc n) i a (d ∷ ds) h =
    ground (arith, find_index-slots n (i + 1) a ds (omega arith))

-- A place that is found holds the device.
pub index_from-some :
    (i a j : ℕ) (ds : List ℕ)
    → index_from i a ds ≡ some j
    → (k : ℕ) × (j ≡ i + k) × (get_elem? ds k ≡ some a) × (k < length ds)
unfolding index_from
index_from-some i a j [] h = cc
index_from-some i a j (d ∷ ds) h = elim (Bool-cases (d == a)) [
  | inl e ↦ (0, ground arith, ground arith, omega arith)
  | inr e ↦
      let (k, p, q, r) = index_from-some (i + 1) a j ds (ground arith) in
      (suc k, omega arith, q, omega arith)
]

pub index_from-none : (i a : ℕ) (ds : List ℕ) → index_from i a ds ≡ none → count a ds ≡ 0
unfolding index_from
index_from-none i a [] h = refl
index_from-none i a (d ∷ ds) h = ground (arith, index_from-none (i + 1) a ds)

-- The last device takes the place of the one that goes.
abbrev pub swap_remove : List ℕ → ℕ → ℕ → List ℕ
swap_remove ds i last = drop_last (set ds i last)

-- Every other device stays as often as it was.
pub tally-swap_remove :
    (p : ℕ → Bool) (i top d last : ℕ) (ds : List ℕ)
    → length ds ≡ suc top
    → i < length ds
    → get_elem? ds i ≡ some d
    → get_elem? ds top ≡ some last
    → tally p (swap_remove ds i last) + (if p d then 1 else 0) ≡ tally p ds
tally-swap_remove p i top d last ds n l e f =
    let a = tally-set p i last d ds e in
    let b =
      tally-drop_last p last top (set ds i last) (length-set ds i last ∙ n)
        (get_elem?-set_last i top last ds n f l) in
    omega arith
