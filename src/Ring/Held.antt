-- ===== src/Ring/Held.antt =====
-- What the open ring files hold, behind an open and behind a release.
use standalone_linux_io_trac.Base.{
  ℕ, suc, ◌+◌, ◌-◌, ◌%◌, ◌^◌, ◌<◌, ◌≤◌, ◌≡◌, refl, sym, ap, ◌∙◌, Bool, true, false, List, [], ◌∷◌,
  ◌++◌, some, arith, ◌==◌, ◌&&◌, not, if◌then◌else◌, length, length-append, elem, count, Bool-cases,
  inl, inr, ==→eq, tally-append,
}
use standalone_linux_io_trac.Kernel.{Result, ok, err, is_ok, eacces, einval, set_cpu}
use standalone_linux_io_trac.Context.{BlockDevice}
use standalone_linux_io_trac.Client.{Client, Platform}
use standalone_linux_io_trac.Client.Sessions.{Session, Attached, attach_client-Attached}
use standalone_linux_io_trac.Ring.{Files, kref_put, opened_file, iotrace_open}

-- The module's state, and the CPUs of the files that are open.
pub record System (T : Type 0) : Type 0 where
  pub files : Files T
  pub open_files : List ℕ

pub count_mid :
    (c cpu : ℕ) (before after : List ℕ)
    → count c (before ++ cpu ∷ after) ≡ (if cpu == c then 1 else 0) + count c (before ++ after)
count_mid c cpu before after = omega (
  arith,
  tally-append (λ x. x == c) before (cpu ∷ after),
  tally-append (λ x. x == c) before after,
)

pub count_le : (c : ℕ) (xs : List ℕ) → count c xs ≤ length xs
count_le c [] = omega arith
count_le c (x ∷ xs) = ground (arith, count_le c xs)

pub length_mid :
    (cpu : ℕ) (before after : List ℕ)
    → length (before ++ cpu ∷ after) ≡ suc (length (before ++ after))
length_mid cpu before after =
    omega (arith, length-append {0} before (cpu ∷ after), length-append {0} before after)

module _ {T : Type 0} (dev : ℕ → BlockDevice) (cpus : List ℕ) where
  -- The open files hold exactly what is held: as many clients and references to the module as
  -- there are open files, one reference to a file's memory for each open file of its CPU and one
  -- for the module itself, and no memory that can still be mapped is freed.
  pub record Consistent (x : System T) : Type 0 where
    pub session : (ds : List ℕ) × Session dev cpus ds x.files.client
    pub bounded : length x.open_files + 1 < 2 ^ 32
    pub clients : x.files.client.ctx.trace_state.clients ≡ length x.open_files
    pub module_refs : x.files.module_refs ≡ length x.open_files
    pub refs : (c : ℕ) → elem c cpus ≡ true → x.files.refs c ≡ 1 + count c x.open_files
    pub inited : (c : ℕ) → elem c cpus ≡ true → x.files.inited c ≡ true
    pub consumer_hdr : (c : ℕ) → elem c cpus ≡ true → x.files.consumer_hdr c ≡ true
    pub online : (c : ℕ) → 0 < count c x.open_files → elem c cpus ≡ true

  -- The system behind an open that returned `out`.
  abbrev pub behind_open : System T → ℕ → Files T × Result (Unit {0}) → System T
  behind_open x cpu out = record {
    files = out.0;
    open_files = if is_ok out.1 then cpu ∷ x.open_files else x.open_files;
  }

  opened_file-Consistent :
      (x : System T) (cpu : ℕ) (k : Platform T) (ds : List ℕ) (out : Client T × Result (Unit {0}))
      → Consistent x
      → elem cpu cpus ≡ true
      → length x.open_files + 2 < 2 ^ 32
      → Attached dev cpus ds k x.files.client out
      → Consistent (
          behind_open x cpu
            (opened_file cpu (record (x.files) { module_refs = x.files.module_refs + 1 }) out))
  opened_file-Consistent x cpu k ds (client, ok u) v on b (session, more) = record {
    session = (ds, session);
    bounded = omega (arith, b);
    clients = more ∙ ap (λ n. n + 1) v.clients ∙ omega arith;
    module_refs = ap (λ n. n + 1) v.module_refs ∙ omega arith;
    refs = λ c m. ground (arith, v.refs c m, v.refs cpu on);
    inited = v.inited;
    consumer_hdr = v.consumer_hdr;
    online = λ c m. elim (Bool-cases (cpu == c)) [
      | inl e ↦ ap (λ n. elem n cpus) (sym (==→eq _ _ e)) ∙ on
      | inr n ↦ v.online c (ground (arith, n, m))
    ];
  }
  opened_file-Consistent x cpu k ds (client, err e) v on b (session, same) = record {
    session = (ds, session);
    bounded = v.bounded;
    clients = same ∙ omega arith ∙ v.clients;
    module_refs = omega (arith, v.module_refs);
    refs = v.refs;
    inited = v.inited;
    consumer_hdr = v.consumer_hdr;
    online = v.online;
  }

  -- The reference that a release puts is not the last one.
  pub kref_put_more :
      (cpu : ℕ) (s : Files T) (n : ℕ)
      → s.refs cpu ≡ suc (suc n)
      → n < 2 ^ 32 - 2
      → kref_put cpu s ≡ record s { refs = set_cpu s.refs cpu (suc n) }
  unfolding kref_put
  kref_put_more cpu s n e b =
      let less : (s.refs cpu + (2 ^ 32 - 1)) % 2 ^ 32 ≡ suc n = omega (arith, e) in
      let more : (suc n == 0) ≡ false = ground arith in rw less (rw more refl)

  -- The state behind a release, with the client's part `client`, and `n` other open files.
  abbrev pub left : Files T → ℕ → ℕ → Client T → Files T
  left s cpu n client = record s {
    client = client;
    refs = set_cpu s.refs cpu (suc n);
    module_refs = s.module_refs - 1;
  }

  pub left-Consistent :
      (s : Files T) (cpu : ℕ) (before after ds : List ℕ) (client : Client T)
      → Consistent (record { files = s; open_files = before ++ cpu ∷ after })
      → Session dev cpus ds client
      → client.ctx.trace_state.clients + 1 ≡ s.client.ctx.trace_state.clients
      → Consistent (record {
        files = left s cpu (count cpu (before ++ after)) client;
        open_files = before ++ after;
      })
  left-Consistent s cpu before after ds client v session less = record {
    session = (ds, session);
    bounded = omega (arith, v.bounded, length_mid cpu before after);
    clients = omega (arith, v.clients, less, length_mid cpu before after);
    module_refs = omega (arith, v.module_refs, length_mid cpu before after);
    refs = λ c m. ground (arith, v.refs c m, count_mid c cpu before after);
    inited = v.inited;
    consumer_hdr = v.consumer_hdr;
    online = λ c m. v.online c (omega (arith, m, count_mid c cpu before after));
  }

  -- A file of an online CPU can always be opened or refused, and the state stays consistent.
  pub iotrace_open-Consistent :
      (x : System T) (k : Platform T) (get for_writing writeable : Bool) (cpu : ℕ)
      → Consistent x
      → elem cpu cpus ≡ true
      → length x.open_files + 2 < 2 ^ 32
      → (out : Files T × Result (Unit {0})) × (iotrace_open k get cpus cpu for_writing writeable
            x.files
          ≡ some out)
        × Consistent (behind_open x cpu out)
  unfolding iotrace_open
  iotrace_open-Consistent x k get w r cpu v on b = elim (Bool-cases (w && not r)) [
    | inl e ↦ ((x.files, err eacces), rw e refl, v)
    | inr e ↦ elim (Bool-cases get) [
      | inr g ↦ ((x.files, err einval), rw (e, g) refl, v)
      | inl g ↦
          let (ds, session) = v.session in
          let (out, run, attached) =
            attach_client-Attached dev cpus ds k x.files.client session
              (omega (arith, v.clients, b)) in
          (
            opened_file cpu (record (x.files) { module_refs = x.files.module_refs + 1 }) out,
            rw (e, g) (rw run refl),
            opened_file-Consistent x cpu k ds out v on b attached,
          )
    ]
  ]
