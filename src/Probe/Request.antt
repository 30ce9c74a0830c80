-- ===== src/Probe/Request.antt =====
-- source/kernel/config.c: the probe on the completion of a request, which reports the bios of the
-- request that `nr_bytes` completed bytes reach.
use standalone_linux_io_trac.Base.{
  ℕ, ◌+◌, ◌-◌, ◌≤◌, ◌<◌, ◌≡◌, refl, min, Bool, List, [], ◌∷◌, arith, ◌==◌, ltb, if◌then◌else◌,
  Bool-cases, inl, inr, lt→ltb, le→ltb,
}
use standalone_linux_io_trac.Context.{BlockDevice}
use standalone_linux_io_trac.Trace.{Octf}
use standalone_linux_io_trac.Bio.{Bio}
use standalone_linux_io_trac.Bio.Trace.{Flags}
use standalone_linux_io_trac.Probe.{Machine, bio_complete_event}

-- A bio in the chain of a request, with its flag `BIO_TRACE_COMPLETION`.
pub record RequestBio : Type 0 where
  pub bio : Bio
  pub trace_completion : Bool

-- The bios whose first byte is among the first `nr`, of a chain that starts at the byte `off`.
covered_from : ℕ → ℕ → List RequestBio → List RequestBio
covered_from off nr [] = []
covered_from off nr (b ∷ bios) =
    if ltb off nr then b ∷ covered_from (off + b.bio.bi_size) nr bios else []

-- The bios that a completion of `nr` bytes is for: the first one, and those that start before.
unfoldable pub covered : ℕ → List RequestBio → List RequestBio
unfolding covered_from
covered nr [] = []
covered nr (b ∷ bios) = b ∷ covered_from b.bio.bi_size nr bios

module _ {T H : Type 0} (o : Octf T H) (c : Flags) (dev : ℕ → BlockDevice) (cpu q error : ℕ) where
  abbrev pub report : RequestBio → Machine T → Machine T
  report b m = if b.trace_completion then bio_complete_event o c dev cpu q b.bio error m else m

  -- `_iotrace_block_rq_complete`, on the rest of the chain.
  unfoldable pub block_rq_complete : ℕ → List RequestBio → Machine T → Machine T
  block_rq_complete nr_bytes [] m = m
  block_rq_complete nr_bytes (b ∷ bios) m =
      let bytes = min b.bio.bi_size nr_bytes in
      let rest = block_rq_complete (nr_bytes - bytes) bios (report b m) in
      if nr_bytes - bytes == 0 then report b m else rest

  -- Every bio of a list, in order.
  unfoldable pub report_all : List RequestBio → Machine T → Machine T
  report_all [] m = m
  report_all (b ∷ bios) m = report_all bios (report b m)

  covered_from-beyond :
      (off nr : ℕ) (bios : List RequestBio) → nr ≤ off → covered_from off nr bios ≡ []
  unfolding covered_from
  covered_from-beyond off nr [] h = refl
  covered_from-beyond off nr (b ∷ bios) h = rw (le→ltb off nr h) refl

  block_rq_complete-from :
      (off nr : ℕ) (bios : List RequestBio) (m : Machine T)
      → off < nr
      → block_rq_complete (nr - off) bios m ≡ report_all (covered_from off nr bios) m
  unfolding block_rq_complete report_all covered_from
  block_rq_complete-from off nr [] m h = refl
  block_rq_complete-from off nr (b ∷ bios) m h =
      let left : nr - off - min b.bio.bi_size (nr - off) ≡ nr - (off + b.bio.bi_size) =
        omega arith in
      rw (lt→ltb off nr h) (
        rw left (elim (Bool-cases (nr - (off + b.bio.bi_size) == 0)) [
          | inl z ↦
              rw z (rw (covered_from-beyond (off + b.bio.bi_size) nr bios (ground (arith, z))) refl)
          | inr n ↦ rw n (
              block_rq_complete-from (off + b.bio.bi_size) nr bios (report b m) (ground (arith, n)))
        ]))

  -- The loop that counts the bytes down reports exactly the flagged bios that start within the
  -- completed bytes, and the first one even of none, each once and in their order.
  pub block_rq_complete-covered :
      (nr_bytes : ℕ) (bios : List RequestBio) (m : Machine T)
      → block_rq_complete nr_bytes bios m ≡ report_all (covered nr_bytes bios) m
  unfolding block_rq_complete report_all covered covered_from
  block_rq_complete-covered nr [] m = refl
  block_rq_complete-covered nr (b ∷ bios) m =
      let left : nr - min b.bio.bi_size nr ≡ nr - b.bio.bi_size = omega arith in
      rw left (elim (Bool-cases (nr - b.bio.bi_size == 0)) [
        | inl z ↦ rw z (rw (covered_from-beyond b.bio.bi_size nr bios (ground (arith, z))) refl)
        | inr n ↦
            rw n (block_rq_complete-from b.bio.bi_size nr bios (report b m) (ground (arith, n)))
      ])
