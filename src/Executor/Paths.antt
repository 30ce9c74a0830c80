-- ===== src/Executor/Paths.antt =====
-- The paths that are given to the executor, and the devices that they are looked up as.
use standalone_linux_io_trac.Base.{
  ℕ, ◌≡◌, refl, sym, ap, ◌∙◌, false, List, ◌∷◌, [], ◌++◌, Option, arith, ◌==◌, leb, length,
  Bool-cases, inl, inr,
}
use standalone_linux_io_trac.Kernel.{Result, ok, err, einval, enospc, err_is_not}
use standalone_linux_io_trac.Strings.{strnlen}
use standalone_linux_io_trac.Bdev.{Devices}
use standalone_linux_io_trac.Bdev.Model.{path_max}
use standalone_linux_io_trac.Bdev.AddPath.{add_decision, found_decision, opened_decision}
use standalone_linux_io_trac.Executor.Kernel.{IsPath}

module _ (k : Devices) where
  -- What is relied on of the kernel: a path under which a device can be opened is looked up as
  -- that device.
  abbrev pub Resolves : List ℕ → Type 0
  Resolves path = (d : ℕ) → k.get_by_path path ≡ ok d → k.lookup_bdev path ≡ ok d

  abbrev pub AllPaths : List (List ℕ) → Type 0
  AllPaths [] = Unit {0}
  AllPaths (path ∷ paths) = IsPath path × Resolves path × AllPaths paths

  -- The paths `paths` are those of the devices `ds`, in the same order.
  abbrev pub PathsOf : List (List ℕ) → List ℕ → Type 0
  PathsOf [] [] = Unit {0}
  PathsOf [] (d ∷ ds) = ⊥
  PathsOf (path ∷ paths) [] = ⊥
  PathsOf (path ∷ paths) (d ∷ ds) =
      (k.lookup_bdev path ≡ ok d)
      × (leb path_max (strnlen path path_max) ≡ false)
      × IsPath path
      × PathsOf paths ds

  opened_ok : (q : Option ℕ) (clients b d : ℕ) → opened_decision q clients b ≡ ok d → b ≡ d
  opened_ok q clients b d e = ground arith

  found_ok :
      (found : Result ℕ) (ds : List ℕ) (clients d : ℕ)
      → found_decision k found ds clients ≡ ok d
      → found ≡ ok d
  found_ok (err x) ds clients d e = absurd (err_is_not e)
  found_ok (ok b) ds clients d e = ap ok (opened_ok _ clients b d e)

  -- A device that is added is the one under its path.
  pub decided :
      (path ds : List ℕ) (clients d : ℕ)
      → Resolves path
      → add_decision k path ds clients ≡ ok d
      → (k.lookup_bdev path ≡ ok d) × (leb path_max (strnlen path path_max) ≡ false)
  decided path ds clients d r e = elim (Bool-cases (leb path_max (strnlen path path_max))) [
    | inl l ↦
        let bad : add_decision k path ds clients ≡ err einval = rw l refl in
        absurd (err_is_not (sym bad ∙ e))
    | inr l ↦ elim (Bool-cases (length ds == 32)) [
      | inl f ↦
          let bad : add_decision k path ds clients ≡ err enospc = rw (l, f) refl in
          absurd (err_is_not (sym bad ∙ e))
      | inr f ↦
          let open_it : add_decision k path ds clients
              ≡ found_decision k (k.get_by_path path) ds clients =
            rw (l, f) refl in
          (r d (found_ok (k.get_by_path path) ds clients d (sym open_it ∙ e)), l)
    ]
  ]

  pub PathsOf-snoc :
      (paths : List (List ℕ)) (ds path : List ℕ) (d : ℕ)
      → PathsOf paths ds
      → k.lookup_bdev path ≡ ok d
      → leb path_max (strnlen path path_max) ≡ false
      → IsPath path
      → PathsOf (paths ++ path ∷ []) (ds ++ d ∷ [])
  PathsOf-snoc [] [] path d p l s i = (l, s, i, tt)
  PathsOf-snoc [] (x ∷ ds) path d p l s i = absurd p
  PathsOf-snoc (q ∷ paths) [] path d p l s i = absurd p
  PathsOf-snoc (q ∷ paths) (x ∷ ds) path d (a, b, c, p) l s i =
      (a, b, c, PathsOf-snoc paths ds path d p l s i)
