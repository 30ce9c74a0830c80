-- ===== src/Bdev/AddSteps.antt =====
-- The ends of `iotrace_bdev_add` once the device is opened.
use standalone_linux_io_trac.Base.{
  ℕ, ◌+◌, ◌<◌, ◌≡◌, refl, ap, Bool, true, false, List, [], ◌∷◌, ◌++◌, none, some, arith, ◌==◌,
  length, length-append, tally-append,
}
use standalone_linux_io_trac.Kernel.{ok, err, einval, eperm, on_each_cpu}
use standalone_linux_io_trac.Context.{Context}
use standalone_linux_io_trac.Trace.{Octf}
use standalone_linux_io_trac.Bdev.{
  Devices, add_oncpu, add_opened, mutex_unlock, blkdev_get, blkdev_put, set_num,
}
use standalone_linux_io_trac.Bdev.Arrays.{queue_traced}
use standalone_linux_io_trac.Bdev.Model.{bdev_get_model}
use standalone_linux_io_trac.Bdev.Slots.{on_queue, on_queue-none}
use standalone_linux_io_trac.Bdev.Invariant.{Tracks, Halfway}

module _ {T H : Type 0} (o : Octf T H) (k : Devices) (cpus : List ℕ) where
  -- The mutex is no part of what is tracked.
  pub relocked :
      (held : Bool) (ds : List ℕ) (ctx : Context T)
      → Tracks k.dev cpus ds ctx
      → Tracks k.dev cpus ds (record ctx { locked = held })
  relocked held ds ctx t = record {
    num = t.num;
    bounded = t.bounded;
    same = t.same;
    queues = t.queues;
    refs = t.refs;
  }

  -- With a reference to a device beside those of the traced ones, giving it back restores them.
  pub put_back :
      (cpu bdev : ℕ) (ds : List ℕ) (ctx : Context T)
      → Tracks k.dev cpus ds ctx
      → Tracks k.dev cpus ds (mutex_unlock (blkdev_put (blkdev_get ctx bdev) bdev))
  put_back cpu bdev ds ctx t = record {
    num = t.num;
    bounded = t.bounded;
    same = t.same;
    queues = t.queues;
    refs = λ a. ground (arith, t.refs a);
  }

  pub add_opened_traced :
      (cpu bdev : ℕ) (ctx : Context T)
      → queue_traced k.dev (ctx.bdev.list cpu) ctx.bdev.num (k.dev bdev).bd_queue ≡ some true
      → add_opened o k cpus cpu bdev ctx ≡ some (mutex_unlock (blkdev_put ctx bdev), err eperm)
  unfolding add_opened
  add_opened_traced cpu bdev ctx e = rw e refl

  pub add_opened_idle :
      (cpu bdev : ℕ) (ctx : Context T)
      → queue_traced k.dev (ctx.bdev.list cpu) ctx.bdev.num (k.dev bdev).bd_queue ≡ some false
      → (ctx.trace_state.clients == 0) ≡ true
      → add_opened o k cpus cpu bdev ctx ≡ some (mutex_unlock (blkdev_put ctx bdev), err einval)
  unfolding add_opened
  add_opened_idle cpu bdev ctx e z = rw e (rw z refl)

  pub add_opened_new :
      (cpu bdev : ℕ) (ctx s : Context T)
      → queue_traced k.dev (ctx.bdev.list cpu) ctx.bdev.num (k.dev bdev).bd_queue ≡ some false
      → (ctx.trace_state.clients == 0) ≡ false
      → on_each_cpu cpus (add_oncpu o k bdev (bdev_get_model k.read_file (k.dev bdev))) ctx ≡ some s
      → add_opened o k cpus cpu bdev ctx ≡ some (mutex_unlock (set_num s (s.bdev.num + 1)), ok tt)
  unfolding add_opened
  add_opened_new cpu bdev ctx s e z run = rw e (rw z (rw run refl))

  pub added_new :
      (bdev : ℕ) (ds : List ℕ) (ctx s : Context T)
      → Tracks k.dev cpus ds ctx
      → length ds < 32
      → on_queue k.dev (k.dev bdev).bd_queue ds ≡ none
      → Halfway cpus ds (ds ++ bdev ∷ []) [] (blkdev_get ctx bdev) s
      → Tracks k.dev cpus (ds ++ bdev ∷ []) (mutex_unlock (set_num s (s.bdev.num + 1)))
  added_new bdev ds ctx s t room new h =
      let app = λ (p : ℕ → Bool). tally-append p ds (bdev ∷ []) in
      let len : length (ds ++ bdev ∷ []) ≡ length ds + 1 = length-append ds (bdev ∷ []) in
      record {
        num = omega (arith, h.num, t.num, len);
        bounded = omega arith;
        same = λ c m. h.lists c m;
        queues = λ q. ground (
          arith,
          app (λ x. (k.dev x).bd_queue == q),
          t.queues q,
          (on_queue-none k.dev (k.dev bdev).bd_queue ds).0 new,
        );
        refs =
            λ a. ground (arith, app (λ x. x == a), t.refs a, ap (λ (f : ℕ → ℕ). f a) h.blkdev_refs);
      }
