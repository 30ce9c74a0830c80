-- ===== src/Bdev/Trim.antt =====
-- The loop that trims a model name.
use standalone_linux_io_trac.Base.{
  ℕ, zero, suc, ◌≤◌, ◌<◌, ◌≡◌, refl, ◌∙◌, true, false, List, some, arith, length, set, get_elem?,
  get_elem?-some, get_elem?-set_self, get_elem?-set_ne, length-set, ◌⊎◌, inl, inr, Bool-cases, leb,
  leb→le, leb_false→lt, sym, ap,
}
use standalone_linux_io_trac.Bdev.Model.{trim_from, is_blank}

-- `buf'` is `buf` with the places behind `m` up to `i` zeroed; all of those were blank, and `m`
-- is the start of the buffer or holds a byte that is not.
pub record Trimmed (i m : ℕ) (buf buf' : List ℕ) : Type 0 where
  pub within : m ≤ i
  pub kept : (j : ℕ) → j ≤ m → get_elem? buf' j ≡ get_elem? buf j
  pub cleared : (j : ℕ) → m < j → j ≤ i → get_elem? buf' j ≡ some 0
  pub blank : (j : ℕ) → m < j → j ≤ i → (c : ℕ) × (get_elem? buf j ≡ some c) × (is_blank c ≡ true)
  pub above : (j : ℕ) → i < j → get_elem? buf' j ≡ get_elem? buf j
  pub stop : (m ≡ 0) ⊎ ((c : ℕ) × (get_elem? buf m ≡ some c) × (is_blank c ≡ false))

trim_blank :
    (i c : ℕ) (buf : List ℕ)
    → get_elem? buf (suc i) ≡ some c
    → is_blank c ≡ true
    → trim_from (suc i) buf ≡ trim_from i (set buf (suc i) 0)
unfolding trim_from
trim_blank i c buf e b = rw (e, trim_from) (rw b refl)

trim_other :
    (i c : ℕ) (buf : List ℕ)
    → get_elem? buf (suc i) ≡ some c
    → is_blank c ≡ false
    → trim_from (suc i) buf ≡ buf
unfolding trim_from
trim_other i c buf e b = rw (e, trim_from) (rw b refl)

-- One more blank above what is trimmed already.
Trimmed-suc :
    (i m c : ℕ) (buf buf' : List ℕ)
    → suc i < length buf
    → get_elem? buf (suc i) ≡ some c
    → is_blank c ≡ true
    → Trimmed i m (set buf (suc i) 0) buf'
    → Trimmed (suc i) m buf buf'
Trimmed-suc i m c buf buf' h e b t = record {
  within = omega (arith, t.within);
  kept = λ j p. t.kept j p ∙ below j (omega (arith, t.within));
  cleared = λ j p q. elim (Bool-cases (leb j i)) [
    | inl l ↦ t.cleared j p (leb→le j i l)
    | inr g ↦
        let top : j ≡ suc i = omega (arith, leb_false→lt j i g) in
        rw top (t.above (suc i) (omega arith) ∙ get_elem?-set_self buf (suc i) 0 h)
  ];
  blank = λ j p q. elim (Bool-cases (leb j i)) [
    | inl l ↦
        let (c', e', b') = t.blank j p (leb→le j i l) in (c', sym (below j (leb→le j i l)) ∙ e', b')
    | inr g ↦
        let top : j ≡ suc i = omega (arith, leb_false→lt j i g) in
        (c, ap (get_elem? buf) top ∙ e, b)
  ];
  above = λ j p. t.above j (omega arith) ∙ get_elem?-set_ne buf (suc i) j 0 (omega arith);
  stop = elim t.stop [
    | inl z ↦ inl z
    | inr (c', e', b') ↦ inr (c', sym (below m t.within) ∙ e', b')
  ];
}
  where
    below : (j : ℕ) → j ≤ i → get_elem? (set buf (suc i) 0) j ≡ get_elem? buf j
    below j p = get_elem?-set_ne buf (suc i) j 0 (omega arith)

-- From an index inside the buffer on, the trimming of a model name clears the blanks that end
-- the buffer there and nothing else, and stops at the first byte that is none; the byte at place
-- 0 is never cleared.
pub trim_from-Trimmed :
    (i : ℕ) (buf : List ℕ) → i < length buf → (m : ℕ) × Trimmed i m buf (trim_from i buf)
unfolding trim_from
trim_from-Trimmed zero buf h = (
  0,
  record {
    within = omega arith;
    kept = λ j p. refl;
    cleared = λ j p q. absurd (omega arith);
    blank = λ j p q. absurd (omega arith);
    above = λ j p. refl;
    stop = inl refl;
  },
)
trim_from-Trimmed (suc i) buf h =
    let (c, e) = get_elem?-some buf (suc i) h in
    elim (Bool-cases (is_blank c)) [
      | inl b ↦
          let (m, t) =
            trim_from-Trimmed i (set buf (suc i) 0) (omega (arith, length-set buf (suc i) 0)) in
          (m, rw (trim_blank i c buf e b) (Trimmed-suc i m c buf _ h e b t))
      | inr b ↦ (
        suc i,
        rw (trim_other i c buf e b) (record {
          within = omega arith;
          kept = λ j p. refl;
          cleared = λ j p q. absurd (omega arith);
          blank = λ j p q. absurd (omega arith);
          above = λ j p. refl;
          stop = inr (c, e, b);
        }),
      )
    ]
