-- ===== src/Executor/Polling.antt =====
-- `probeModule` ends.
use standalone_linux_io_trac.Base.{
  ℕ, zero, suc, ◌+◌, ◌-◌, ◌*◌, ◌≡◌, refl, Bool, true, false, Option, none, some, arith, ◌==◌, ltb,
  ◌||◌, not, if◌then◌else◌, Bool-cases, ◌⊎◌, inl, inr,
}
use standalone_linux_io_trac.Executor.{
  Ended, returns, throws, Exception, cannot_reload, cannot_close, cannot_load, cannot_use, Probing,
  poll_until, probe_module,
}

-- One of the polls from `t` to `t + n` answers yes.
abbrev pub seen : ℕ → (ℕ → Bool) → ℕ → Bool
seen zero ready t = ready t
seen (suc n) ready t = ready t || seen n ready (t + 1)

-- How a loop ends.
abbrev Polls : (ℕ → Bool) → Exception → ℕ → ℕ → Option (Ended ℕ) → Type 0
Polls ready e n t out =
    ((seen n ready t ≡ true) × ((u : ℕ) × (out ≡ some (returns u))))
    ⊎ ((seen n ready t ≡ false) × (out ≡ some (throws e)))

poll_until-Polls :
    (ready : ℕ → Bool) (e : Exception) (n t : ℕ)
    → Polls ready e n t (poll_until (suc n) ready e t (n * 100))
unfolding poll_until
poll_until-Polls ready e zero t = elim (Bool-cases (ready t)) [
  | inl y ↦ rw y (inl (refl, (t, refl)))
  | inr y ↦ rw y (inr (refl, refl))
]
poll_until-Polls ready e (suc n) t = elim (Bool-cases (ready t)) [
  | inl y ↦ rw y (inl (refl, (t, refl)))
  | inr y ↦
      let left : suc n * 100 - 100 ≡ n * 100 = omega arith in
      let more : ltb 0 (suc n * 100) ≡ true = ground arith in
      rw (y, left) (rw more (poll_until-Polls ready e n (t + 1)))
]

-- What goes wrong first, if anything does.
abbrev pub failure : Probing → Option Exception
failure p =
    if not (p.remove_command == 0)
    then some cannot_reload
    else if not (seen 10 (λ t. not (p.loaded_after_remove t)) 0)
    then some cannot_close
    else if not (p.probe_command == 0)
    then some cannot_load
    else if not (seen 10 p.loaded_after_probe 0)
    then some cannot_use
    else none

abbrev pub ended : Option Exception → Ended (Unit {0})
ended none = returns tt
ended (some e) = throws e

-- `probeModule` always ends, after at most eleven polls in each of its loops: it throws what goes
-- wrong first, of the removal of the module, a module that is still there in all eleven polls,
-- the loading, and a module that is there in none of eleven polls; else it returns.
pub probe_module_ends : (p : Probing) → probe_module p ≡ some (ended (failure p))
unfolding probe_module
probe_module_ends p = elim (Bool-cases (p.remove_command == 0)) [
  | inr r ↦ rw r refl
  | inl r ↦ elim (poll_until-Polls (λ t. not (p.loaded_after_remove t)) cannot_close 10 0) [
    | inr (s, run) ↦ rw (r, run) (rw s refl)
    | inl (s, (u, run)) ↦ elim (Bool-cases (p.probe_command == 0)) [
      | inr q ↦ rw (r, run) (rw (s, q) refl)
      | inl q ↦ elim (poll_until-Polls p.loaded_after_probe cannot_use 10 0) [
        | inr (s', run') ↦ rw (r, run) (rw (s, q) (rw (run', s') refl))
        | inl (s', (u', run')) ↦ rw (r, run) (rw (s, q) (rw (run', s') refl))
      ]
    ]
  ]
]
