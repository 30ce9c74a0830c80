-- ===== src/Producer/Owned.antt =====
-- What the producer has open and mapped.
use standalone_linux_io_trac.Base.{
  ℕ, ◌+◌, ◌≤◌, ◌≡◌, refl, Option, none, some, arith, ◌==◌, ltb, Bool-cases, inl, inr, ==→eq,
}
use standalone_linux_io_trac.Producer.{
  Process, Answers, MappedFile, Made, made, thrown, new_mapped_file, reset, Producer, taken,
  with_hdr, with_ring, init_ring,
}

abbrev pub one : Option MappedFile → ℕ
one none = 0
one (some f) = 1

-- The process has open and mapped what it had without the producer, `base`, and its files.
abbrev pub Owns : Process → Producer → Process → Type 0
Owns base x p =
    (p.fds ≡ base.fds + (one x.ring + one x.consumer_hdr))
    × (p.maps ≡ base.maps + (one x.ring + one x.consumer_hdr))

-- One more descriptor and mapping on success, and none on an exception.
abbrev Mapped : ℕ → Process → Process × Made MappedFile → Type 0
Mapped max p (p', made f) = (p'.fds ≡ p.fds + 1) × (p'.maps ≡ p.maps + 1) × (f.length ≤ max)
Mapped max p (p', thrown e) = (p'.fds ≡ p.fds) × (p'.maps ≡ p.maps)

new_mapped_file-Mapped :
    (a : Answers) (max : ℕ) (p : Process) → Mapped max p (new_mapped_file a max p)
unfolding new_mapped_file
new_mapped_file-Mapped a max p = elim (Bool-cases a.opens) [
  | inr n ↦ rw n (refl, refl)
  | inl o ↦ elim (Bool-cases a.stats) [
    | inr n ↦ rw (o, n) (omega arith, refl)
    | inl s ↦ elim (Bool-cases (ltb max a.st_size)) [
      | inl big ↦ rw (o, s) (rw big (omega arith, refl))
      | inr fits ↦ elim (Bool-cases a.maps_it) [
        | inr n ↦ rw (o, s) (rw (fits, n) (omega arith, refl))
        | inl y ↦ rw (o, s) (rw (fits, y) (refl, refl, ground (arith, fits)))
      ]
    ]
  ]
]

-- What `initRing` leaves.
abbrev pub Ringed : Process → ℕ → ℕ → Producer → Producer × Process × Made (Unit {0}) → Type 0
Ringed base hdr_size pool x (x', p', made u) =
    Owns base x' p'
    × ((ring : MappedFile) × (hdr : MappedFile) × (x'.ring ≡ some ring)
        × (x'.consumer_hdr ≡ some hdr)
        × (ring.length + hdr.length ≡ pool)
        × (hdr.length ≤ hdr_size))
Ringed base hdr_size pool x (x', p', thrown e) = Owns base x' p' × (x' ≡ x)

reset_counts :
    (f : Option MappedFile) (p : Process)
    → one f ≤ p.fds
    → one f ≤ p.maps
    → ((reset f p).fds + one f ≡ p.fds) × ((reset f p).maps + one f ≡ p.maps)
reset_counts none p a b = (omega arith, omega arith)
reset_counts (some f) p a b = (omega (arith, a), omega (arith, b))

dropped :
    (base p : Process) (x : Producer) (n : ℕ)
    → p.fds ≡ base.fds + (one x.ring + one x.consumer_hdr) + n
    → p.maps ≡ base.maps + (one x.ring + one x.consumer_hdr) + n
    → let p' = reset x.consumer_hdr (reset x.ring p) in
      (p'.fds ≡ base.fds + n) × (p'.maps ≡ base.maps + n)
dropped base p x n a b =
    let (f, m) = reset_counts x.ring p (omega (arith, a)) (omega (arith, b)) in
    let (f', m') =
      reset_counts x.consumer_hdr (reset x.ring p) (omega (arith, a, f)) (omega (arith, b, m)) in
    (omega (arith, a, f, f'), omega (arith, b, m, m'))

taken-Ringed :
    (base p : Process) (x : Producer) (ring hdr : MappedFile) (hdr_size pool : ℕ)
    → p.fds ≡ base.fds + (one x.ring + one x.consumer_hdr) + 2
    → p.maps ≡ base.maps + (one x.ring + one x.consumer_hdr) + 2
    → hdr.length ≤ hdr_size
    → Ringed base hdr_size pool x (taken pool ring hdr x p)
taken-Ringed base p x ring hdr hdr_size pool a b l =
    elim (Bool-cases (ring.length + hdr.length == pool)) [
      | inr n ↦ rw n ((omega (arith, a), omega (arith, b)), refl)
      | inl y ↦ rw y (dropped base p x 2 a b, (ring, hdr, refl, refl, ==→eq _ _ y, l))
    ]

with_hdr-Ringed :
    (base p : Process) (x : Producer) (ring : MappedFile) (hdr_size pool : ℕ)
    (g : Process × Made MappedFile)
    → p.fds ≡ base.fds + (one x.ring + one x.consumer_hdr) + 1
    → p.maps ≡ base.maps + (one x.ring + one x.consumer_hdr) + 1
    → Mapped hdr_size p g
    → Ringed base hdr_size pool x (with_hdr pool ring x g)
with_hdr-Ringed base p x ring hdr_size pool (p', thrown e) a b (f, m) =
    ((omega (arith, a, f), omega (arith, b, m)), refl)
with_hdr-Ringed base p x ring hdr_size pool (p', made hdr) a b (f, m, l) =
    taken-Ringed base p' x ring hdr hdr_size pool (omega (arith, a, f)) (omega (arith, b, m)) l

with_ring-Ringed :
    (base p : Process) (x : Producer) (h : Answers) (hdr_size pool : ℕ)
    (g : Process × Made MappedFile)
    → Owns base x p
    → Mapped pool p g
    → Ringed base hdr_size pool x (with_ring h hdr_size pool x g)
with_ring-Ringed base p x h hdr_size pool (p', thrown e) (a, b) (f, m) =
    ((omega (arith, a, f), omega (arith, b, m)), refl)
with_ring-Ringed base p x h hdr_size pool (p', made ring) (a, b) (f, m, l) =
    with_hdr-Ringed base p' x ring hdr_size pool (new_mapped_file h hdr_size p')
      (omega (arith, a, f)) (omega (arith, b, m)) (new_mapped_file-Mapped h hdr_size p')

-- Whatever opening, sizing and mapping the two files answers, also for a producer that has a
-- ring already: `initRing` either returns with both files mapped, their lengths adding up to the
-- size of the pool, or throws with the producer as before; and in each case the process has open
-- and mapped exactly the producer's files more than without the producer, so that nothing leaks.
pub init_ring-Ringed :
    (base p : Process) (x : Producer) (r h : Answers) (hdr_size pool : ℕ)
    → Owns base x p
    → Ringed base hdr_size pool x (init_ring r h hdr_size pool x p)
unfolding init_ring
init_ring-Ringed base p x r h hdr_size pool v =
    with_ring-Ringed base p x h hdr_size pool (new_mapped_file r pool p) v
      (new_mapped_file-Mapped r pool p)
