-- ===== src/IoTrace/BufferLaws.antt =====
-- The trace buffers have the size that was asked for, and no fault leaves them.
use native.Mathlib.Nat.{div-add-mod', mod-lt}
use standalone_linux_io_trac.Base.{
  some_eq, false, ℕ, ◌+◌, ◌-◌, ◌*◌, ◌/◌, ◌%◌, ◌^◌, ◌≤◌, ◌<◌, ◌≡◌, refl, ap, ◌∙◌, Bool, true, some,
  arith, ◌==◌, ltb, if◌then◌else◌, Bool-cases, inl, inr, ==→eq,
}
use standalone_linux_io_trac.Kernel.{Result, ok}
use standalone_linux_io_trac.Context.{Context, ProcFile}
use standalone_linux_io_trac.IoTrace.Buffers.{
  set_buffer_size, get_buffer_size, page_count, trace_file_alloc, realloc_ring, has_ring, fault,
  major,
}

-- The arithmetic: dividing among `n` and multiplying again loses the remainder.
total_mb :
    (n m x q r : ℕ)
    → x ≡ m * 1024 * 1024
    → q * n + r ≡ x
    → r < n
    → n ≤ 2 ^ 20
    → m ≤ 4096
    → q * n % 2 ^ 64 / 1024 / 1024 ≡ (if r == 0 then m else m - 1)
total_mb n m x q r e d l k b = elim (Bool-cases (r == 0)) [
  | inl z ↦ rw z (omega (arith, ==→eq r 0 z))
  | inr z ↦ let p : 0 < r = ground (arith, z) in rw z (omega arith)
]

module _ {T : Type 0} where
  pub set_buffer_size_ok :
      (n size_mb : ℕ) (ctx ctx' : Context T)
      → set_buffer_size n ctx size_mb ≡ (ctx', ok tt)
      → (size_mb ≤ 4096) × (ctx'.size ≡ size_mb * 1024 * 1024 % 2 ^ 64 / n) × (0 < ctx'.size)
  unfolding set_buffer_size
  set_buffer_size_ok n size_mb ctx ctx' h = ground arith

  -- With 1 to 2 ^ 20 online CPUs, a size that `iotrace_set_buffer_size` takes is read back by
  -- `iotrace_get_buffer_size` as it was asked for, less one MiB if its bytes do not divide
  -- evenly among the CPUs.
  pub get_buffer_size-set :
      (n size_mb : ℕ) (ctx ctx' : Context T)
      → 0 < n
      → n ≤ 2 ^ 20
      → set_buffer_size n ctx size_mb ≡ (ctx', ok tt)
      → get_buffer_size n ctx' ≡ (if size_mb * 1024 * 1024 % n == 0 then size_mb else size_mb - 1)
  unfolding get_buffer_size
  get_buffer_size-set n size_mb ctx ctx' p q h =
      let (b, e, z) = set_buffer_size_ok n size_mb ctx ctx' h in
      let x : size_mb * 1024 * 1024 % 2 ^ 64 ≡ size_mb * 1024 * 1024 = omega arith in
      rw (e ∙ ap (λ y. y / n) x) (
        total_mb n size_mb (size_mb * 1024 * 1024) (size_mb * 1024 * 1024 / n)
          (size_mb * 1024 * 1024 % n) refl (div-add-mod' (size_mb * 1024 * 1024) n)
          (mod-lt (size_mb * 1024 * 1024) p) q b)

-- A ring's buffer has its size in whole pages; the size is below 2 ^ 63.
pub record IsSized (pf : ProcFile) : Type 0 where
  pub bound : pf.trace_ring_size < 2 ^ 63
  pub pages :
      (bytes : ℕ) → pf.trace_ring ≡ some bytes → bytes ≡ page_count pf.trace_ring_size * 4096

-- There is a ring of a size.
abbrev pub HasRing : ProcFile → ℕ → Type 0
HasRing pf size = ((bytes : ℕ) × (pf.trace_ring ≡ some bytes)) × (pf.trace_ring_size ≡ size)

-- A page fault that is answered with a page is answered inside the buffer, in a ring whose buffer
-- is in step with its size and in a consumer header of whole pages: the page starts at the offset
-- asked for and ends within the buffer.
pub fault_inside :
    (to_page : ℕ → Bool) (hdr_size : ℕ) (pf : ProcFile) (trace_ring : Bool) (pgoff off bytes : ℕ)
    → IsSized pf
    → pf.trace_ring ≡ some bytes
    → hdr_size % 4096 ≡ 0
    → hdr_size < 2 ^ 63
    → fault to_page hdr_size pf trace_ring pgoff ≡ major off
    → (off ≡ pgoff * 4096) × (off + 4096 ≤ (if trace_ring then bytes else hdr_size))
unfolding fault
fault_inside to_page hdr_size pf true pgoff off bytes v r z b h =
    ground (arith, v.pages bytes r, v.bound)
fault_inside to_page hdr_size pf false pgoff off bytes v r z b h = ground arith

module _ (hdr_size : ℕ) (vzalloc : ℕ → ℕ → Bool) where
  -- An outcome of an allocation for `size` bytes: the file is in step, and on success its ring
  -- has that size.
  unfoldable pub Allocated : ProcFile × Result (Unit {0}) → ℕ → Type 0
  Allocated r size = IsSized r.0 × (r.1 ≡ ok tt → HasRing r.0 size)

  realloc_ring-Allocated :
      (pf : ProcFile) (size cpu : ℕ)
      → IsSized pf
      → size < 2 ^ 63
      → Allocated (realloc_ring hdr_size vzalloc pf size cpu) size
  unfolding Allocated
  realloc_ring-Allocated pf size cpu v h =
      elim (Bool-cases (vzalloc (page_count size * 4096 % 2 ^ 64) cpu)) [
        | inl e ↦ rw e (
          record { bound = h; pages = λ bytes p. omega (arith, some_eq p) },
          λ k. ((page_count size * 4096 % 2 ^ 64, refl), refl),
        )
        | inr e ↦ rw e (v, λ k. cc)
      ]

  has_ring-some :
      (pf : ProcFile)
      → has_ring hdr_size vzalloc pf ≡ true
      → (bytes : ℕ) × (pf.trace_ring ≡ some bytes)
  has_ring-some pf h = ground arith

  pub trace_file_alloc-Allocated :
      (pf : ProcFile) (size cpu : ℕ)
      → IsSized pf
      → size < 2 ^ 63
      → Allocated (trace_file_alloc hdr_size vzalloc pf size cpu) (size - hdr_size)
  unfolding trace_file_alloc Allocated
  trace_file_alloc-Allocated pf size cpu v h =
      let again = realloc_ring-Allocated pf (size - hdr_size) cpu v (omega arith) in
      elim (Bool-cases (ltb size hdr_size)) [
        | inl small ↦ rw small (v, λ k. cc)
        | inr large ↦ elim (Bool-cases (has_ring hdr_size vzalloc pf)) [
          | inl r ↦ elim (Bool-cases (pf.trace_ring_size == size - hdr_size)) [
            | inl same ↦ simp (large, r, same) (v, λ k. (has_ring-some pf r, ==→eq _ _ same))
            | inr other ↦ simp (large, r, other) again
          ]
          | inr r ↦ simp (large, r) again
        ]
      ]
