-- ===== src/Kernel.antt =====
-- What every part of the module uses of the kernel: error codes, results, an operation that may
-- not come back (`BUG_ON`, a NULL dereference, a mutex taken twice), per-CPU variables and
-- `on_each_cpu` (context.h, trace_env_kernel.h).
use standalone_linux_io_trac.Base.{
  ℕ, ◌≡◌, refl, Bool, true, false, List, [], ◌∷◌, Option, none, some, ◌==◌, if◌then◌else◌, ◌⊎◌, inl,
  inr,
}

-- A negative `int` result; `other` holds what the kernel's own functions return.
pub data Errno : Type 0 where
  einval enospc enomem eacces efault eperm enoent enotsupp : Errno
  other : ℕ → Errno

pub data Result {ℓ} (A : Type ℓ) : Type ℓ where
  ok : A → Result A
  err : Errno → Result A

abbrev pub is_ok {ℓ} : {A : Type ℓ} → Result A → Bool
is_ok (ok a) = true
is_ok (err e) = false

pub err_is_not {ℓ} : {A : Type ℓ} {e : Errno} {a : A} → ¬ (◌≡◌ {A = Result A} (err e) (ok a))
err_is_not p = cc

pub Result-cases {ℓ} :
    {A : Type ℓ} (r : Result A) → ((a : A) × (r ≡ ok a)) ⊎ ((e : Errno) × (r ≡ err e))
Result-cases (ok a) = inl (a, refl)
Result-cases (err e) = inr (e, refl)

-- `none`: the operation does not come back.
infixl 5 ◌>>=◌
abbrev pub ◌>>=◌ {ℓ κ} : {A : Type ℓ} {B : Type κ} → Option A → (A → Option B) → Option B
none >>= f = none
some a >>= f = f a

-- `BUG_ON(cond)`.
abbrev pub bug_on {ℓ} : {A : Type ℓ} → Bool → Option A → Option A
bug_on true k = none
bug_on false k = k

-- A per-CPU variable, and the write `*per_cpu_ptr(f, cpu) = v`.
abbrev pub set_cpu {ℓ} : {A : Type ℓ} → (ℕ → A) → ℕ → A → ℕ → A
set_cpu f cpu v k = if k == cpu then v else f k

pub set_here {ℓ} :
    {A : Type ℓ} (f : ℕ → A) (x : A) (c cpu : ℕ) → (c == cpu) ≡ true → set_cpu f cpu x c ≡ x
set_here f x c cpu e = rw e refl

pub set_there {ℓ} :
    {A : Type ℓ} (f : ℕ → A) (x : A) (c cpu : ℕ) → (c == cpu) ≡ false → set_cpu f cpu x c ≡ f c
set_there f x c cpu e = rw e refl

-- `on_each_cpu(func, info, true)`, over the online CPUs.
unfoldable pub on_each_cpu {ℓ} : {S : Type ℓ} → List ℕ → (ℕ → S → Option S) → S → Option S
on_each_cpu [] func s = some s
on_each_cpu (cpu ∷ cpus) func s = func cpu s >>= on_each_cpu cpus func

-- A loop invariant over the CPUs that are still to run.
pub on_each_cpu_inv {ℓ κ} :
    {S : Type ℓ} (P : List ℕ → S → Type κ) (func : ℕ → S → Option S)
    → ((cpu : ℕ) (rest : List ℕ) (s : S)
        → P (cpu ∷ rest) s
        → (s' : S) × (func cpu s ≡ some s') × P rest s')
    → (cpus : List ℕ) (s : S) → P cpus s
    → (s' : S) × (on_each_cpu cpus func s ≡ some s') × P [] s'
unfolding on_each_cpu
on_each_cpu_inv P func step [] s p = (s, refl, p)
on_each_cpu_inv P func step (cpu ∷ cpus) s p =
    let (s', e, q) = step cpu cpus s p in
    let (s'', e', q') = on_each_cpu_inv P func step cpus s' q in (s'', rw e e', q')
