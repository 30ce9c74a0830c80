-- ===== src/Procfs/SizeFile.antt =====
-- The `size` file: what is written to it is read back.
use standalone_linux_io_trac.Base.{
  ℕ, suc, ◌+◌, ◌-◌, ◌*◌, ◌/◌, ◌%◌, ◌^◌, ◌<◌, ◌≤◌, ◌≡◌, refl, sym, ap, ◌∙◌, Bool, true, false, List,
  [], ◌∷◌, Option, none, some, arith, ◌==◌, ltb, leb, if◌then◌else◌, min, length, take,
  take_of_length-le, Bool-cases, some_eq, inl, inr, none_is_not,
}
use standalone_linux_io_trac.Kernel.{Result, ok, err, Errno, einval, err_is_not}
use standalone_linux_io_trac.Context.{Context}
use standalone_linux_io_trac.Bdev.{mutex_unlock}
use standalone_linux_io_trac.IoTrace.Buffers.{
  set_buffer_size, get_buffer_size, alloc_files, sized_files, init_buffers, put_file,
  trace_file_alloc,
}
use standalone_linux_io_trac.IoTrace.BufferLaws.{get_buffer_size-set, set_buffer_size_ok}
use standalone_linux_io_trac.Procfs.Mngt.{User, Answer, mngt_read, copied}
use standalone_linux_io_trac.Procfs.Entries.{size_read, size_write, buffer_size_sscanf, sized}
use standalone_linux_io_trac.Procfs.Lines.{NoNul}
use standalone_linux_io_trac.Procfs.ListText.{Willing, never, whole_or_full}
use standalone_linux_io_trac.Procfs.WriteLine.{line, handed, refusal, mngt_write-line}

-- What the code relies on of `kstrtou64` and of `%llu`, for the numbers up to 4096.
pub record Decimal (kstrtou64 : List ℕ → Result ℕ) (show : ℕ → List ℕ) : Type 0 where
  pub parses : (m : ℕ) → m ≤ 4096 → kstrtou64 (show m) ≡ ok m
  pub plain : (m : ℕ) → m ≤ 4096 → NoNul (show m)
  pub short : (m : ℕ) → m ≤ 4096 → length (show m) ≤ 4

same_answer :
    {A B : Type 0} {a c : A} {b d : B}
    → ◌≡◌ {A = Option (A × B)} (some (a, b)) (some (c, d))
    → (a ≡ c) × (b ≡ d)
same_answer p = (cc, cc)

module _ {T : Type 0} (hdr_size : ℕ) (vzalloc : ℕ → ℕ → Bool) where
  -- The loop over the CPUs leaves the size.
  alloc_files-size :
      (cpus : List ℕ) (ctx : Context T) → (alloc_files hdr_size vzalloc cpus ctx).0.size ≡ ctx.size
  unfolding alloc_files
  alloc_files-size [] ctx = refl
  alloc_files-size (cpu ∷ cpus) ctx =
      let file = trace_file_alloc hdr_size vzalloc (ctx.cpu_context cpu).proc_files ctx.size cpu in
      let next = put_file hdr_size vzalloc ctx cpu file.0 in
      elim file.1
        as (λ r.
          (elim r as (λ x. Context T × Result (Unit {0})) [
            | ok u ↦ alloc_files hdr_size vzalloc cpus next
            | err e ↦ (next, err e)
          ]).0.size
          ≡ ctx.size) [ ok u ↦ alloc_files-size cpus next | err e ↦ refl ]

  pub sized_files_got :
      (cpus : List ℕ) (n : ℕ) (r : Context T × Result (Unit {0}))
      → (sized_files hdr_size vzalloc cpus r).1 ≡ ok tt
      → (r ≡ (r.0, ok tt)) × ((sized_files hdr_size vzalloc cpus r).0.size ≡ r.0.size)
  sized_files_got cpus n (ctx, err e) h = absurd (err_is_not h)
  sized_files_got cpus n (ctx, ok u) h = (refl, alloc_files-size cpus ctx)

  pub init_buffers_ran :
      (cpus : List ℕ) (ctx ctx' : Context T) (m : ℕ)
      → init_buffers hdr_size vzalloc cpus ctx m ≡ some (ctx', ok tt)
      → let out =
          sized_files hdr_size vzalloc cpus
            (set_buffer_size (length cpus) (record ctx { locked = true }) m) in
        (out.1 ≡ ok tt) × (ctx'.size ≡ out.0.size)
  unfolding init_buffers
  init_buffers_ran cpus ctx ctx' m h =
      let taken = record ctx { locked = true } in
      let out = sized_files hdr_size vzalloc cpus (set_buffer_size (length cpus) taken m) in
      elim (Bool-cases ctx.locked) [
        | inl l ↦
            let stuck : init_buffers hdr_size vzalloc cpus ctx m ≡ none = rw l refl in
            absurd (none_is_not (sym stuck ∙ h))
        | inr l ↦ elim (Bool-cases (ctx.trace_state.clients == 0)) [
          | inl z ↦
              let run : init_buffers hdr_size vzalloc cpus ctx m
                  ≡ some (mutex_unlock out.0, out.1) =
                rw (l, z) refl in
              let (c, r) = same_answer (sym run ∙ h) in (r, sym (ap (λ s. s.size) c))
          | inr z ↦
              let run : init_buffers hdr_size vzalloc cpus ctx m
                  ≡ some (mutex_unlock taken, err einval) =
                rw (l, z) refl in
              let (c, r) = same_answer (sym run ∙ h) in absurd (err_is_not r)
        ]
      ]

  -- A size that `iotrace_init_buffers` takes is the size that is got.
  pub init_buffers-got :
      (cpus : List ℕ) (ctx ctx' : Context T) (m : ℕ)
      → 0 < length cpus
      → length cpus ≤ 2 ^ 20
      → init_buffers hdr_size vzalloc cpus ctx m ≡ some (ctx', ok tt)
      → (m ≤ 4096)
        × (get_buffer_size (length cpus) ctx'
            ≡ (if m * 1024 * 1024 % length cpus == 0 then m else m - 1))
  unfolding init_buffers get_buffer_size
  init_buffers-got cpus ctx ctx' m p q h =
      let taken = record ctx { locked = true } in
      let asked = set_buffer_size (length cpus) taken m in
      let (done, size) = init_buffers_ran cpus ctx ctx' m h in
      let (e, same) = sized_files_got cpus (length cpus) asked done in
      (
        (set_buffer_size_ok (length cpus) m taken asked.0 e).0,
        ap (λ n. n * length cpus % 2 ^ 64 / 1024 / 1024) (size ∙ same)
            ∙ get_buffer_size-set (length cpus) m taken asked.0 p q e,
      )

-- A text that `snprintf` puts into the buffer of a read.
copied_show :
    {S : Type 0} (u : User) (room count : ℕ) (text : List ℕ) (s : S)
    → u.copy_ok ≡ true
    → length text ≤ 4
    → count ≡ min 10 room + 1
    → copied u room count 0 (s, ok (length text, take (count - 1) text))
      ≡ some (whole_or_full room text s)
copied_show u room count text s c b e = elim (Bool-cases (leb (length text) room)) [
  | inl f ↦
      let below : leb count (length text) ≡ false = ground (arith, e, f, b) in
      let inside : ltb room (length text) ≡ false = ground (arith, f) in
      let fits = take_of_length-le (count - 1) text (ground (arith, e, f, b)) in
      let all = take_of_length-le (length text) text (omega arith) in
      rw (below) (rw (inside) (rw fits (rw (all) (rw (f) (rw (c) (never (length text == 0) _ _))))))
  | inr f ↦
      let full : leb count (length text) ≡ true = ground (arith, e, f, b) in rw (full) (rw (f) refl)
]

-- The MiB that are got when `m` are asked for, with `n` CPUs.
abbrev pub rounded : ℕ → ℕ → ℕ
rounded n m = if m * 1024 * 1024 % n == 0 then m else m - 1

-- A write that is taken is one that its handler took.
handed-taken :
    {S : Type 0} (x : Option Errno) (len n : ℕ) (r : Option (S × Result (Unit {0}))) (s : S)
    (a : Answer S ℕ)
    → handed x len r s ≡ some a
    → a.result ≡ ok n
    → r ≡ some (a.state, ok tt)
handed-taken (some e) len n r s a h q = absurd (err_is_not (ap (λ t. t.result) (some_eq h) ∙ q))
handed-taken none len n none s a h q = absurd (none_is_not h)
handed-taken none len n (some (s', ok tt)) s a h q =
    ap (λ t. some (t, ok tt)) (ap (λ t. t.state) (some_eq h))
handed-taken none len n (some (s', err e)) s a h q =
    absurd (err_is_not (ap (λ t. t.result) (some_eq h) ∙ q))

module _ {T : Type 0} (kstrtou64 : List ℕ → Result ℕ) (show : ℕ → List ℕ)
    (decimal : Decimal kstrtou64 show) (hdr_size : ℕ) (vzalloc : ℕ → ℕ → Bool) (cpus : List ℕ) where
  taken_size :
      (u : User) (m : ℕ) (ctx : Context T) (a : Answer (Context T) ℕ)
      → m ≤ 4096
      → size_write kstrtou64 hdr_size vzalloc cpus u (line (show m)) 0 ctx ≡ some a
      → a.result ≡ ok (suc (length (show m)))
      → init_buffers hdr_size vzalloc cpus ctx m ≡ some (a.state, ok tt)
  unfolding size_write buffer_size_sscanf
  taken_size u m ctx a b w r =
      let wrote =
        mngt_write-line (buffer_size_sscanf kstrtou64 hdr_size vzalloc cpus) u (show m) ctx
          (decimal.plain m b) (omega (arith, decimal.short m b)) in
      let ran =
        handed-taken (refusal u) (suc (length (show m))) (suc (length (show m))) _ ctx a
          (sym wrote ∙ w) r in
      sym (ap (λ x. sized kstrtou64 hdr_size vzalloc cpus x ctx) (decimal.parses m b)) ∙ ran

  -- With 1 to 2 ^ 20 online CPUs, and with `kstrtou64` reading what `%llu` prints: if the decimal
  -- of `m`, at most 4096, is written to `size` as a line and taken, a read that the kernel does
  -- not refuse, into a buffer of `room` bytes, gives the decimal of `m`, less one if the bytes of
  -- `m` MiB do not divide evenly among the CPUs, or `-ENOSPC` if there is no room for it; the
  -- read changes nothing.
  pub size_read-size_write :
      (u u' : User) (m room : ℕ) (ctx : Context T) (a : Answer (Context T) ℕ)
      → 0 < length cpus
      → length cpus ≤ 2 ^ 20
      → m ≤ 4096
      → Willing u'
      → size_write kstrtou64 hdr_size vzalloc cpus u (line (show m)) 0 ctx ≡ some a
      → a.result ≡ ok (suc (length (show m)))
      → size_read show cpus u' room 0 a.state
        ≡ some (whole_or_full room (show (rounded (length cpus) m)) a.state)
  unfolding size_read mngt_read
  size_read-size_write u u' m room ctx a p q b (x, v, c) w r =
      let (b', got) =
        init_buffers-got hdr_size vzalloc cpus ctx a.state m p q (taken_size u m ctx a b w r) in
      let less : rounded (length cpus) m ≤ 4096 = ground (arith, b) in
      rw (x) (
        rw v (
          rw got (
            copied_show u' room (min 10 room + 1) (show (rounded (length cpus) m)) a.state c
              (decimal.short (rounded (length cpus) m) less) refl)))
