-- ===== src/Monitor/Release.antt =====
-- source/kernel/trace_inode.c: the module works with the monitor only on the kernel that it was
-- built for.
use standalone_linux_io_trac.Base.{
  ℕ, ◌≡◌, ◌<◌, ◌↔◌, ◌≢◌, refl, sym, Bool, true, false, List, [], ◌∷◌, some, none, arith, ◌==◌, not,
  if◌then◌else◌, length, Bool-cases, inl, inr,
}
use standalone_linux_io_trac.Strings.{strnlen, strncmp_eq}
use standalone_linux_io_trac.Monitor.{Monitors, Backend, fsm_init}

-- `_fsm_is_compatible_kernel`: `built` is `UTS_RELEASE`, `current` the release of the running
-- kernel, in a field of `size` bytes.
unfoldable pub is_compatible_kernel : List ℕ → List ℕ → ℕ → Bool
is_compatible_kernel built current size =
    let len = strnlen current size in
    if not (len == length built) then false else strncmp_eq built current len

same-strncmp_eq : (s t : List ℕ) → length s ≡ length t → strncmp_eq s t (length t) ≡ true → s ≡ t
same-strncmp_eq [] [] l e = refl
same-strncmp_eq [] (d ∷ t) l e = absurd (omega arith)
same-strncmp_eq (c ∷ s) [] l e = absurd (omega arith)
same-strncmp_eq (c ∷ s) (d ∷ t) l e =
    let rest = same-strncmp_eq s t (omega arith) (ground arith) in
    let first : c ≡ d = ground arith in rw (first, rest) refl

strncmp_eq_self : (s : List ℕ) → strncmp_eq s s (length s) ≡ true
strncmp_eq_self [] = refl
strncmp_eq_self (c ∷ s) = let same : (c == c) ≡ true = ground arith in rw same (strncmp_eq_self s)

-- Where the release that the module was built for fits into the field with its NUL, the kernel is
-- taken for compatible exactly if its release is that very text.
pub is_compatible_kernel-same :
    (built current : List ℕ) (size : ℕ)
    → length built < size
    → (is_compatible_kernel built current size ≡ true) ↔ (current ≡ built)
unfolding is_compatible_kernel
is_compatible_kernel-same built current size h = (only, λ p. rw p whole)
  where
    only :
        (if not (strnlen current size == length built)
            then false
            else strncmp_eq built current (strnlen current size))
          ≡ true
        → current ≡ built
    only e =
        let l : strnlen current size ≡ length built = ground arith in
        let whole : strnlen current size ≡ length current = ground arith in
        let e' : strncmp_eq built current (length current) ≡ true = ground arith in
        sym (same-strncmp_eq built current (omega arith) e')

    whole :
        (if not (strnlen built size == length built)
          then false
          else strncmp_eq built built (strnlen built size))
        ≡ true
    whole =
        let l : strnlen built size ≡ length built = ground arith in
        let same : (length built == length built) ≡ true = ground arith in
        rw l (rw same (strncmp_eq_self built))

-- What the kernel answers for a module that was built for the release `built`, on the release
-- `current`.
abbrev pub running : Backend → List ℕ → List ℕ → ℕ → Backend
running b built current size = record b { compatible = is_compatible_kernel built current size }

-- Where the release that the module was built for fits into the kernel's field of `size` bytes with
-- its NUL: on a kernel of any other release `_fsm_init` gives the tracer no monitor and leaves all
-- monitors as they are; on the same release it goes on as on a compatible kernel.
pub fsm_init-running :
    (b : Backend) (built current : List ℕ) (size : ℕ) (cpus : List ℕ) (w : Monitors)
    → length built < size
    → (current ≢ built → fsm_init (running b built current size) cpus w ≡ some (w, none))
      × (current ≡ built
          → fsm_init (running b built current size) cpus w
            ≡ fsm_init (record b { compatible = true }) cpus w)
unfolding fsm_init
fsm_init-running b built current size cpus w h =
    let exactly = is_compatible_kernel-same built current size h in
    (
      (λ other. elim (Bool-cases (is_compatible_kernel built current size)) [
        | inl y ↦ absurd (other (exactly.0 y))
        | inr n ↦ rw n refl
      ]),
      λ same. let y : is_compatible_kernel built current size ≡ true = exactly.1 same in rw y refl,
    )
