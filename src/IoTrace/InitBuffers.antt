-- ===== src/IoTrace/InitBuffers.antt =====
-- `iotrace_init_buffers`, behind the `size` file.
use standalone_linux_io_trac.Base.{
  ℕ, ◌-◌, ◌*◌, ◌/◌, ◌%◌, ◌^◌, ◌<◌, ◌≡◌, ◌≢◌, refl, Bool, true, false, List, [], ◌∷◌, some, arith,
  ◌==◌, ltb, length, elem, Bool-cases, ◌⊎◌, inl, inr, ==→eq, ltb_false→le,
}
use native.Mathlib.Nat.{div-le_self}
use mathlib.Core.Bool.{false≢true}
use standalone_linux_io_trac.Kernel.{Errno, Result, ok, err, einval}
use standalone_linux_io_trac.Context.{Context, ProcFile}
use standalone_linux_io_trac.Bdev.{mutex_unlock}
use standalone_linux_io_trac.IoTrace.Buffers.{
  set_buffer_size, trace_file_alloc, put_file, alloc_files, sized_files, init_buffers,
}
use standalone_linux_io_trac.IoTrace.BufferLaws.{
  IsSized, HasRing, Allocated, trace_file_alloc-Allocated,
}

-- The ring files of all CPUs are in step with their buffers.
abbrev pub AllSized : {T : Type 0} → Context T → Type 0
AllSized ctx = (c : ℕ) → IsSized (ctx.cpu_context c).proc_files

Result-cases : (r : Result (Unit {0})) → (r ≡ ok tt) ⊎ ((e : Errno) × (r ≡ err e))
Result-cases (ok u) = inl refl
Result-cases (err e) = inr (e, refl)

set_buffer_size_small :
    (n size_mb : ℕ) → ltb 4096 size_mb ≡ false → size_mb * 1024 * 1024 % 2 ^ 64 / n < 2 ^ 63
set_buffer_size_small n size_mb l =
    omega (arith, div-le_self (size_mb * 1024 * 1024 % 2 ^ 64) n, ltb_false→le 4096 size_mb l)

module _ {T : Type 0} (hdr_size : ℕ) (vzalloc : ℕ → ℕ → Bool) where
  file_of : Context T → ℕ → ProcFile × Result (Unit {0})
  file_of ctx cpu = trace_file_alloc hdr_size vzalloc (ctx.cpu_context cpu).proc_files ctx.size cpu

  alloc_files_ok :
      (cpu : ℕ) (cpus : List ℕ) (ctx : Context T)
      → (file_of ctx cpu).1 ≡ ok tt
      → alloc_files hdr_size vzalloc (cpu ∷ cpus) ctx
        ≡ alloc_files hdr_size vzalloc cpus (put_file hdr_size vzalloc ctx cpu (file_of ctx cpu).0)
  unfolding alloc_files file_of
  alloc_files_ok cpu cpus ctx e = rw (e, alloc_files) refl

  alloc_files_err :
      (cpu : ℕ) (cpus : List ℕ) (ctx : Context T) (code : Errno)
      → (file_of ctx cpu).1 ≡ err code
      → alloc_files hdr_size vzalloc (cpu ∷ cpus) ctx
        ≡ (put_file hdr_size vzalloc ctx cpu (file_of ctx cpu).0, err code)
  unfolding alloc_files file_of
  alloc_files_err cpu cpus ctx code e = rw (e, alloc_files) refl

  put_file-AllSized :
      (cpu : ℕ) (ctx : Context T)
      → AllSized ctx
      → ctx.size < 2 ^ 63
      → AllSized (put_file hdr_size vzalloc ctx cpu (file_of ctx cpu).0)
  unfolding file_of Allocated
  put_file-AllSized cpu ctx v h c = elim (Bool-cases (c == cpu)) [
    | inl s ↦
        rw s
          (trace_file_alloc-Allocated hdr_size vzalloc (ctx.cpu_context cpu).proc_files ctx.size cpu
            (v cpu) h).0
    | inr n ↦ rw n (v c)
  ]

  -- What an allocation for the CPUs `cpus` from `ctx` must end in.
  Filled : List ℕ → Context T → Context T × Result (Unit {0}) → Type 0
  Filled cpus ctx out =
      AllSized out.0
      × (out.0.size ≡ ctx.size)
      × (out.0.locked ≡ ctx.locked)
      × (out.1 ≡ ok tt
          → (c : ℕ)
          → (elem c cpus ≡ true) ⊎ HasRing (ctx.cpu_context c).proc_files (ctx.size - hdr_size)
          → HasRing (out.0.cpu_context c).proc_files (ctx.size - hdr_size))

  -- A CPU that is to have its ring, behind the round for `cpu`.
  kept :
      (cpu : ℕ) (cpus : List ℕ) (ctx : Context T)
      → AllSized ctx
      → ctx.size < 2 ^ 63
      → (file_of ctx cpu).1 ≡ ok tt
      → (c : ℕ)
      → (elem c (cpu ∷ cpus) ≡ true) ⊎ HasRing (ctx.cpu_context c).proc_files (ctx.size - hdr_size)
      → (elem c cpus ≡ true)
        ⊎ HasRing
            ((put_file hdr_size vzalloc ctx cpu (file_of ctx cpu).0).cpu_context c).proc_files
            (ctx.size - hdr_size)
  unfolding file_of Allocated
  kept cpu cpus ctx v h e c q = elim (Bool-cases (c == cpu)) [
    | inl s ↦ rw s (
        inr (
          (trace_file_alloc-Allocated hdr_size vzalloc (ctx.cpu_context cpu).proc_files ctx.size cpu
              (v cpu) h).1
            e))
    | inr n ↦ rw n (elim q [ inl m ↦ inl (ground (arith, m, n)) | inr r ↦ inr r ])
  ]

  alloc_files-Filled :
      (cpus : List ℕ) (ctx : Context T)
      → AllSized ctx
      → ctx.size < 2 ^ 63
      → Filled cpus ctx (alloc_files hdr_size vzalloc cpus ctx)
  unfolding alloc_files Filled
  alloc_files-Filled [] ctx v h =
      (v, refl, refl, λ k c q. elim q [ inl e ↦ absurd (false≢true e) | inr r ↦ r ])
  alloc_files-Filled (cpu ∷ cpus) ctx v h = elim (Result-cases (file_of ctx cpu).1) [
    | inr (code, e) ↦
        rw (alloc_files_err cpu cpus ctx code e)
          (put_file-AllSized cpu ctx v h, refl, refl, λ k. cc)
    | inl e ↦
        let next = put_file hdr_size vzalloc ctx cpu (file_of ctx cpu).0 in
        let (v', s, l, rings) = alloc_files-Filled cpus next (put_file-AllSized cpu ctx v h) h in
        rw (alloc_files_ok cpu cpus ctx e)
          (v', s, l, λ k c q. rings k c (kept cpu cpus ctx v h e c q))
  ]

  -- A change of the size followed by the allocation.
  Refilled : List ℕ → Context T → Context T × Result (Unit {0}) → Type 0
  Refilled cpus ctx out =
      AllSized out.0
      × (out.0.locked ≡ ctx.locked)
      × (out.1 ≡ ok tt
          → (c : ℕ) → elem c cpus ≡ true
          → HasRing (out.0.cpu_context c).proc_files (out.0.size - hdr_size))

  refill :
      (cpus : List ℕ) (ctx : Context T)
      → AllSized ctx
      → ctx.size < 2 ^ 63
      → Refilled cpus ctx (alloc_files hdr_size vzalloc cpus ctx)
  unfolding Filled Refilled
  refill cpus ctx v h =
      let (v', sz, l, rings) = alloc_files-Filled cpus ctx v h in
      (v', l, λ k c m. rw sz (rings k c (inl m)))

  set_then_fill :
      (cpus : List ℕ) (ctx : Context T) (size_mb : ℕ)
      → AllSized ctx
      → Refilled cpus ctx
          (sized_files hdr_size vzalloc cpus (set_buffer_size (length cpus) ctx size_mb))
  unfolding set_buffer_size Refilled
  set_then_fill cpus ctx size_mb v =
      let size = size_mb * 1024 * 1024 % 2 ^ 64 / length cpus in
      elim (Bool-cases (ltb 4096 size_mb)) [
        | inl b ↦ rw b (v, refl, λ k. cc)
        | inr s ↦ elim (Bool-cases (size == 0)) [
          | inl z ↦ rw (s, z) (v, refl, λ k. cc)
          | inr z ↦
              rw (s, z)
                (refill cpus (record ctx { size = size }) v
                  (set_buffer_size_small (length cpus) size_mb s))
        ]
      ]

  -- The outcome of `iotrace_init_buffers`.
  abbrev pub Sized : List ℕ → Context T → Context T → Result (Unit {0}) → Type 0
  Sized cpus ctx ctx' r =
      AllSized ctx'
      × (ctx'.locked ≡ false)
      × (r ≡ ok tt
          → (ctx.trace_state.clients ≡ 0)
            × ((c : ℕ)
                → elem c cpus ≡ true
                → HasRing (ctx'.cpu_context c).proc_files (ctx'.size - hdr_size)))
      × (ctx.trace_state.clients ≢ 0
          → (r ≡ err einval) × (ctx'.size ≡ ctx.size) × (ctx'.cpu_context ≡ ctx.cpu_context))

  -- When the mutex is free and every CPU's ring is in step with its buffer,
  -- `iotrace_init_buffers` comes back with the mutex free and every ring in step; if it reports
  -- success, there was no client and every online CPU has a ring of the new size, less the
  -- header; if there was a client, it refuses with `-EINVAL` and changes no size and no ring.
  pub init_buffers-Sized :
      (cpus : List ℕ) (ctx : Context T) (size_mb : ℕ)
      → ctx.locked ≡ false
      → AllSized ctx
      → (ctx' : Context T) × (r : Result (Unit {0})) × (init_buffers hdr_size vzalloc cpus ctx
            size_mb
          ≡ some (ctx', r))
        × Sized cpus ctx ctx' r
  unfolding init_buffers Refilled
  init_buffers-Sized cpus ctx size_mb free v =
      let taken = record ctx { locked = true } in
      let out = sized_files hdr_size vzalloc cpus (set_buffer_size (length cpus) taken size_mb) in
      let (v', l, rings) = set_then_fill cpus taken size_mb v in
      elim (Bool-cases (ctx.trace_state.clients == 0)) [
        | inl idle ↦ (
          mutex_unlock out.0,
          out.1,
          rw (free, idle) refl,
          (v', refl, λ k. (==→eq _ _ idle, rings k), λ n. absurd (n (==→eq _ _ idle))),
        )
        | inr busy ↦ (
          mutex_unlock taken,
          err einval,
          rw (free, busy) refl,
          (v, refl, λ k. cc, λ n. (refl, refl, refl)),
        )
      ]
