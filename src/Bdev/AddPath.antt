-- ===== src/Bdev/AddPath.antt =====
-- `iotrace_bdev_add`, behind the `add_device` file.
use standalone_linux_io_trac.Base.{
  ℕ, ◌<◌, ◌≡◌, refl, ◌∙◌, ap, true, false, List, [], ◌∷◌, ◌++◌, Option, none, some, arith, ◌==◌,
  if◌then◌else◌, elem, Distinct, leb, Bool-cases, length, ◌⊎◌, inl, inr,
}
use standalone_linux_io_trac.Kernel.{Result, ok, err, einval, enospc, eperm}
use standalone_linux_io_trac.Context.{Context}
use standalone_linux_io_trac.Strings.{strnlen}
use standalone_linux_io_trac.Trace.{Octf}
use standalone_linux_io_trac.Bdev.{
  Devices, add_opened, add_found, bdev_add, mutex_unlock, blkdev_get,
}
use standalone_linux_io_trac.Bdev.Arrays.{queue_traced}
use standalone_linux_io_trac.Bdev.Model.{path_max, max_devices, bdev_get_model}
use standalone_linux_io_trac.Bdev.Slots.{on_queue, is_some, queue_traced-slots}
use standalone_linux_io_trac.Bdev.Invariant.{Tracks}
use standalone_linux_io_trac.Bdev.EachCpu.{add_each}
use standalone_linux_io_trac.Bdev.AddSteps.{
  relocked, put_back, add_opened_traced, add_opened_idle, add_opened_new, added_new,
}

-- What an addition decides, from the devices that are traced and the number of clients: the
-- device that it adds, or the error.
abbrev pub opened_decision : Option ℕ → ℕ → ℕ → Result ℕ
opened_decision (some d) clients bdev = err eperm
opened_decision none clients bdev = if clients == 0 then err einval else ok bdev

abbrev pub found_decision : Devices → Result ℕ → List ℕ → ℕ → Result ℕ
found_decision k (err e) ds clients = err e
found_decision k (ok bdev) ds clients =
    opened_decision (on_queue k.dev (k.dev bdev).bd_queue ds) clients bdev

abbrev pub add_decision : Devices → List ℕ → List ℕ → ℕ → Result ℕ
add_decision k path ds clients =
    if leb path_max (strnlen path path_max)
    then err einval
    else if length ds == max_devices
    then err enospc
    else found_decision k (k.get_by_path path) ds clients

abbrev pub code_of : Result ℕ → Result (Unit {0})
code_of (ok d) = ok tt
code_of (err e) = err e

abbrev pub with_added : List ℕ → Result ℕ → List ℕ
with_added ds (ok d) = ds ++ d ∷ []
with_added ds (err e) = ds

-- The outcome of an operation that was to decide `r` on the traced devices `ds`.
abbrev pub Added :
    {T : Type 0}
    → Devices
    → List ℕ
    → List ℕ
    → Context T
    → Result ℕ
    → Option (Context T × Result (Unit {0}))
    → Type 0
Added {T} k cpus ds ctx r out =
    (ctx' : Context T) × (out ≡ some (ctx', code_of r))
    × Tracks k.dev cpus (with_added ds r) ctx'
    × (ctx'.locked ≡ false)
    × (ctx'.inode_refs ≡ ctx.inode_refs)

module _ {T H : Type 0} (o : Octf T H) (k : Devices) (cpus : List ℕ) (d : Distinct cpus) where
  add_opened-Added :
      (cpu bdev : ℕ) (ds : List ℕ) (ctx : Context T) (found : Option ℕ)
      → Tracks k.dev cpus ds ctx
      → elem cpu cpus ≡ true
      → length ds < 32
      → on_queue k.dev (k.dev bdev).bd_queue ds ≡ found
      → Added k cpus ds ctx
          (opened_decision found ctx.trace_state.clients bdev)
          (add_opened o k cpus cpu bdev (blkdev_get ctx bdev))
  add_opened-Added cpu bdev ds ctx found t on room e =
      let seen : queue_traced k.dev (ctx.bdev.list cpu) ctx.bdev.num (k.dev bdev).bd_queue
          ≡ some (is_some found) =
        rw (t.same cpu on) (
          rw (t.num) (queue_traced-slots k.dev 32 _ ds t.bounded ∙ ap (λ f. some (is_some f)) e)) in
      go found e seen
    where
      go :
          (found : Option ℕ)
          → on_queue k.dev (k.dev bdev).bd_queue ds ≡ found
          → queue_traced k.dev (ctx.bdev.list cpu) ctx.bdev.num (k.dev bdev).bd_queue
            ≡ some (is_some found)
          → Added k cpus ds ctx
              (opened_decision found ctx.trace_state.clients bdev)
              (add_opened o k cpus cpu bdev (blkdev_get ctx bdev))
      go (some x) e seen = (
        _,
        add_opened_traced o k cpus cpu bdev (blkdev_get ctx bdev) seen,
        put_back o k cpus cpu bdev ds ctx t,
        refl,
        refl,
      )
      go none e seen = elim (Bool-cases (ctx.trace_state.clients == 0)) [
        | inl z ↦ rw z (
          _,
          add_opened_idle o k cpus cpu bdev (blkdev_get ctx bdev) seen z,
          put_back o k cpus cpu bdev ds ctx t,
          refl,
          refl,
        )
        | inr z ↦
            let (s, run, h) =
              add_each o k cpus ds bdev (bdev_get_model k.read_file (k.dev bdev))
                (blkdev_get ctx bdev) t.num room d t.same in
            rw z (
              _,
              add_opened_new o k cpus cpu bdev (blkdev_get ctx bdev) s seen z run,
              added_new o k cpus bdev ds ctx s t room e h,
              refl,
              h.inode_refs,
            )
      ]

  add_found-Added :
      (cpu : ℕ) (found : Result ℕ) (ds : List ℕ) (ctx : Context T)
      → Tracks k.dev cpus ds ctx
      → elem cpu cpus ≡ true
      → length ds < 32
      → ctx.locked ≡ true
      → Added k cpus ds ctx
          (found_decision k found ds ctx.trace_state.clients)
          (add_found o k cpus cpu found ctx)
  unfolding add_found
  add_found-Added cpu (err e) ds ctx t on room l =
      (mutex_unlock ctx, refl, relocked o k cpus false ds ctx t, refl, refl)
  add_found-Added cpu (ok bdev) ds ctx t on room l =
      add_opened-Added cpu bdev ds ctx (on_queue k.dev (k.dev bdev).bd_queue ds) t on room refl

  -- With the devices `ds` tracked, called on an online CPU with the mutex free,
  -- `iotrace_bdev_add` comes back with the mutex free and no failed `BUG_ON`. Its result is, in
  -- this order: `-EINVAL` for a path that is too long, `-ENOSPC` with 32 devices traced, the
  -- error of opening the path, `-EPERM` if a device on the same queue is traced, `-EINVAL` with
  -- no client, else 0. In the last case the device stands behind the others on every online CPU
  -- and its reference is kept; in the others the traced devices and the references are what they
  -- were.
  pub bdev_add_lem :
      (cpu : ℕ) (path ds : List ℕ) (ctx : Context T)
      → Tracks k.dev cpus ds ctx
      → elem cpu cpus ≡ true
      → ctx.locked ≡ false
      → Added k cpus ds ctx
          (add_decision k path ds ctx.trace_state.clients)
          (bdev_add o k cpus cpu path ctx)
  unfolding bdev_add
  bdev_add_lem cpu path ds ctx t on free =
      elim (Bool-cases (leb path_max (strnlen path path_max))) [
        | inl long ↦ rw long (ctx, refl, t, free, refl)
        | inr short ↦ rw short (rw free (opened (Bool-cases (length ds == max_devices))))
      ]
    where
      held : Context T
      held = record ctx { locked = true }

      t' : Tracks k.dev cpus ds held
      t' = relocked o k cpus true ds ctx t

      opened :
          ((length ds == max_devices) ≡ true) ⊎ ((length ds == max_devices) ≡ false)
          → Added k cpus ds ctx
              (if length ds == max_devices
                then err enospc
                else found_decision k (k.get_by_path path) ds ctx.trace_state.clients)
              (if held.bdev.num == max_devices
                then some (mutex_unlock held, err enospc)
                else add_found o k cpus cpu (k.get_by_path path) held)
      opened (inl full) =
          let e : (ctx.bdev.num == max_devices) ≡ true = ground (arith, t.num) in
          rw full (rw e (mutex_unlock held, refl, relocked o k cpus false ds held t', refl, refl))
      opened (inr more) =
          let e : (ctx.bdev.num == max_devices) ≡ false = ground (arith, t.num) in
          rw more (
            rw e (
              add_found-Added cpu (k.get_by_path path) ds held t' on (ground (arith, t.bounded))
                refl))
