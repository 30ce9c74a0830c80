-- ===== src/Executor/Kernel.antt =====
-- The files of the module as the executor meets them: its writes reach the handlers of procfs.c.
use standalone_linux_io_trac.Base.{
  ℕ, suc, ◌<◌, ◌≡◌, refl, ap, ◌∙◌, Bool, true, false, List, Option, some, elem, Distinct, length,
}
use standalone_linux_io_trac.Kernel.{Result, ok, err, is_ok, ◌>>=◌}
use standalone_linux_io_trac.Context.{Context}
use standalone_linux_io_trac.Trace.{Octf}
use standalone_linux_io_trac.Bdev.{Devices}
use standalone_linux_io_trac.Bdev.Invariant.{Tracks}
use standalone_linux_io_trac.Bdev.AddPath.{add_decision, code_of, with_added}
use standalone_linux_io_trac.Bdev.RemovePath.{remove_result, NowTraced}
use standalone_linux_io_trac.Procfs.Mngt.{User, Answer}
use standalone_linux_io_trac.Procfs.Entries.{add_dev_write, del_dev_write}
use standalone_linux_io_trac.Procfs.DeviceFiles.{add_dev_write-line, del_dev_write-line}
use standalone_linux_io_trac.Procfs.WriteLine.{handed, refusal}
use standalone_linux_io_trac.Procfs.Lines.{NoNul}
use standalone_linux_io_trac.Executor.{File, Procfs, write_procfs}

-- A stream is good if the kernel took what it flushed.
abbrev pub answered : {S : Type 0} → Answer S ℕ → Option (S × Bool)
answered a = some (a.state, is_ok a.result)

abbrev pub willing : User
willing = record { access_ok = true; vzalloc_ok = true; copy_ok = true }

-- A path that a line can hold.
abbrev pub IsPath : List ℕ → Type 0
IsPath path = NoNul path × (length path < 4095)

module _ {S : Type 0} where
  answered_code :
      (len : ℕ) (s' s : S) (r : Result ℕ)
      → handed (refusal willing) len (some (s', code_of r)) s >>= answered ≡ some (s', is_ok r)
  answered_code len s' s (ok d) = refl
  answered_code len s' s (err e) = refl

  pub answered_result :
      (len : ℕ) (s' s : S) (r : Result (Unit {0}))
      → handed (refusal willing) len (some (s', r)) s >>= answered ≡ some (s', is_ok r)
  answered_result len s' s (ok u) = refl
  answered_result len s' s (err e) = refl

module _ {T H : Type 0} (o : Octf T H) (k : Devices) (cpus : List ℕ) (cpu : ℕ)
    (size : File (Context T)) (version : Context T → Option (ℕ × ℕ × ℕ)) where
  -- The files of the loaded module, called on the CPU `cpu`, with memory at hand.
  unfoldable pub kernel_procfs : Procfs (Context T)
  kernel_procfs = record {
    add_device = record {
      opens = λ s. true;
      write = λ text s. add_dev_write o k cpus cpu willing text 0 s >>= answered;
    };
    remove_device = record {
      opens = λ s. true;
      write = λ text s. del_dev_write k cpus cpu willing text 0 s >>= answered;
    };
    size = size;
    version = version;
  }

  module _ (d : Distinct cpus) where
    -- The lines written to `add_device` and `remove_device`, with the devices `ds` tracked.
    pub added :
        (path ds : List ℕ) (ctx : Context T)
        → Tracks k.dev cpus ds ctx
        → elem cpu cpus ≡ true
        → ctx.locked ≡ false
        → IsPath path
        → let r = add_decision k path ds ctx.trace_state.clients in
          (ctx' : Context T) × (write_procfs kernel_procfs.add_device path ctx
            ≡ some (ctx', is_ok r))
          × Tracks k.dev cpus (with_added ds r) ctx'
          × (ctx'.locked ≡ false)
    unfolding write_procfs kernel_procfs
    added path ds ctx t on free (p, l) =
        let (ctx', run, t', free') =
          add_dev_write-line o k cpus d cpu willing path ds ctx t on free p l in
        (
          ctx',
          ap (λ a. a >>= answered) run
              ∙ answered_code (suc (length path)) ctx' ctx
                  (add_decision k path ds ctx.trace_state.clients),
          t',
          free',
        )

    pub removed :
        (path ds : List ℕ) (ctx : Context T)
        → Tracks k.dev cpus ds ctx
        → elem cpu cpus ≡ true
        → ctx.locked ≡ false
        → IsPath path
        → (ctx' : Context T) × (ds' : List ℕ) × (write_procfs kernel_procfs.remove_device path ctx
            ≡ some (ctx', is_ok (remove_result k path ds)))
          × Tracks k.dev cpus ds' ctx'
          × NowTraced (k.lookup_bdev path) (remove_result k path ds) ds ds'
          × (ctx'.locked ≡ false)
    unfolding write_procfs kernel_procfs
    removed path ds ctx t on free (p, l) =
        let (ctx', ds', run, t', now, free') =
          del_dev_write-line k cpus d cpu willing path ds ctx t on free p l in
        (
          ctx',
          ds',
          ap (λ a. a >>= answered) run
              ∙ answered_result (suc (length path)) ctx' ctx (remove_result k path ds),
          t',
          now,
          free',
        )
