-- ===== src/Procfs/DeviceFiles.antt =====
-- The files `add_device` and `remove_device` on the traced devices.
use standalone_linux_io_trac.Base.{
  ℕ, suc, ◌<◌, ◌≡◌, ap, ◌∙◌, false, true, List, some, length, elem, Distinct,
}
use standalone_linux_io_trac.Context.{Context}
use standalone_linux_io_trac.Trace.{Octf}
use standalone_linux_io_trac.Bdev.{Devices, bdev_add, bdev_remove}
use standalone_linux_io_trac.Bdev.Invariant.{Tracks}
use standalone_linux_io_trac.Bdev.AddPath.{bdev_add_lem, add_decision, code_of, with_added}
use standalone_linux_io_trac.Bdev.RemovePath.{bdev_remove_lem, remove_result, NowTraced}
use standalone_linux_io_trac.Procfs.Entries.{add_dev_write, del_dev_write}
use standalone_linux_io_trac.Procfs.Lines.{NoNul}
use standalone_linux_io_trac.Procfs.WriteLine.{line, handed, refusal, mngt_write-line}
use standalone_linux_io_trac.Procfs.Mngt.{User}

module _ {T H : Type 0} (o : Octf T H) (k : Devices) (cpus : List ℕ) (d : Distinct cpus) where
  -- A path without NUL and of less than 4095 bytes, written to `add_device` with a newline while
  -- the devices `ds` are tracked and the mutex is free: unless the user's buffer cannot be read,
  -- the whole line is taken exactly if `iotrace_bdev_add` decides to add a device, which then is
  -- tracked behind the others, and its error is the result otherwise, with the devices as before.
  pub add_dev_write-line :
      (cpu : ℕ) (u : User) (path ds : List ℕ) (ctx : Context T)
      → Tracks k.dev cpus ds ctx
      → elem cpu cpus ≡ true
      → ctx.locked ≡ false
      → NoNul path
      → length path < 4095
      → let r = add_decision k path ds ctx.trace_state.clients in
        (ctx' : Context T) × (add_dev_write o k cpus cpu u (line path) 0 ctx
          ≡ handed (refusal u) (suc (length path)) (some (ctx', code_of r)) ctx)
        × Tracks k.dev cpus (with_added ds r) ctx'
        × (ctx'.locked ≡ false)
  unfolding add_dev_write
  add_dev_write-line cpu u path ds ctx t on free p h =
      let (ctx', run, t', free', refs) = bdev_add_lem o k cpus d cpu path ds ctx t on free in
      (
        ctx',
        mngt_write-line (bdev_add o k cpus cpu) u path ctx p h
            ∙ ap (λ x. handed (refusal u) (suc (length path)) x ctx) run,
        t',
        free',
      )

module _ {T : Type 0} (k : Devices) (cpus : List ℕ) (d : Distinct cpus) where
  -- The same line written to `remove_device`: unless the user's buffer cannot be read, the result
  -- is the whole length exactly if the device of the path is looked up and traced, and then one
  -- occurrence of it is gone; else it is the error, with the devices as before.
  pub del_dev_write-line :
      (cpu : ℕ) (u : User) (path ds : List ℕ) (ctx : Context T)
      → Tracks k.dev cpus ds ctx
      → elem cpu cpus ≡ true
      → ctx.locked ≡ false
      → NoNul path
      → length path < 4095
      → (ctx' : Context T) × (ds' : List ℕ) × (del_dev_write k cpus cpu u (line path) 0 ctx
          ≡ handed (refusal u) (suc (length path)) (some (ctx', remove_result k path ds)) ctx)
        × Tracks k.dev cpus ds' ctx'
        × NowTraced (k.lookup_bdev path) (remove_result k path ds) ds ds'
        × (ctx'.locked ≡ false)
  unfolding del_dev_write
  del_dev_write-line cpu u path ds ctx t on free p h =
      let (ctx', ds', run, t', now, free', refs) =
        bdev_remove_lem k cpus d cpu path ds ctx t on free in
      (
        ctx',
        ds',
        mngt_write-line (bdev_remove k cpus cpu) u path ctx p h
            ∙ ap (λ x. handed (refusal u) (suc (length path)) x ctx) run,
        t',
        now,
        free',
      )
