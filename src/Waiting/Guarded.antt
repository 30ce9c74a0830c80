-- ===== src/Waiting/Guarded.antt =====
-- No notification is lost: a client that sleeps has its flag set, or a `wake_up` is on its way.
use standalone_linux_io_trac.Base.{◌≡◌, ◌≤◌, refl, ap, ◌⊎◌, inl, inr, true, arith}
use standalone_linux_io_trac.Waiting.{
  Waiting, checking, asleep, leaving, cleared, finished, check_ring, swap_waiting, Notifier, quiet,
  saw_full, swapped, Actor, by_client, by_stopper, by_notifier, wake, Step, test, arms, checks,
  disarms, again, signal, marks, clears, wakes, sees, swaps, notifies, fills, Reach, here, next,
  everyone, undisturbed,
}

-- A wake-up of the client that is on its way.
abbrev pub Waking : Waiting → Type 0
Waking s = (s.stopper ≡ cleared) ⊎ (s.notifier ≡ swapped)

pub record Guarded (s : Waiting) : Type 0 where
  pub flag : s.waiting_for_trace ≤ 1
  pub sleeper : s.client ≡ asleep → (s.waiting_for_trace ≡ 1) ⊎ Waking s

Step-Guarded : {s t : Waiting} {a : Actor} → Step s a t → Guarded s → Guarded t
Step-Guarded (test e) g = ground (arith, g.sleeper)
Step-Guarded (arms e) g = ground (arith, g.sleeper)
Step-Guarded (checks e) g = ground (arith, g.sleeper)
Step-Guarded (disarms r e) g = ground (arith, g.sleeper)
Step-Guarded (again r e) g = ground (arith, g.sleeper)
Step-Guarded (signal e) g = ground (arith, g.sleeper)
Step-Guarded (marks e) g = ground (arith, g.sleeper)
Step-Guarded (clears e) g = ground (arith, g.sleeper)
Step-Guarded (wakes e) g = ground (arith, g.sleeper)
Step-Guarded (sees e f) g = ground (arith, g.sleeper)
Step-Guarded (swaps e) g = ground (arith, g.sleeper)
Step-Guarded (notifies e) g = ground (arith, g.sleeper)
Step-Guarded (fills n) g = ground (arith, g.sleeper)

pub Reach-Guarded : {s t : Waiting} → Reach everyone s t → Guarded s → Guarded t
Reach-Guarded here g = g
Reach-Guarded (next a r may st) g = Step-Guarded st (Reach-Guarded r g)

passes :
    (s u : Waiting)
    → Reach undisturbed s u
    → u.client ≡ checking
    → u.almost_full ≡ 1
    → (t : Waiting) × Reach undisturbed s t × (t.client ≡ leaving true)
passes s u r c f = (check_ring u, next by_client r refl (checks c), ground arith)

notified :
    (s u : Waiting)
    → Reach undisturbed s u
    → u.notifier ≡ swapped
    → u.client ≡ asleep
    → u.almost_full ≡ 1
    → (t : Waiting) × Reach undisturbed s t × (t.client ≡ leaving true)
notified s u r n c f =
    passes s (record u { notifier = quiet; client = wake u.client })
      (next by_notifier r refl (notifies n)) (ap wake c) f

swap_full :
    (s u : Waiting)
    → Reach undisturbed s u
    → u.notifier ≡ saw_full
    → u.client ≡ asleep
    → u.waiting_for_trace ≡ 1
    → u.almost_full ≡ 1
    → (t : Waiting) × Reach undisturbed s t × (t.client ≡ leaving true)
swap_full s u r n c w f =
    notified s (swap_waiting u) (next by_notifier r refl (swaps n)) (ground arith) (ground arith)
      (ground arith)

flag_set :
    (s : Waiting)
    → (n : Notifier) → s.notifier ≡ n
    → s.client ≡ asleep
    → s.waiting_for_trace ≡ 1
    → s.almost_full ≡ 1
    → (t : Waiting) × Reach undisturbed s t × (t.client ≡ leaving true)
flag_set s quiet n c w f =
    swap_full s (record s { notifier = saw_full }) (next by_notifier here refl (sees n f)) refl c w
      f
flag_set s saw_full n c w f = swap_full s s here n c w f
flag_set s swapped n c w f = notified s s here n c f

sleeper_leaves :
    (s : Waiting)
    → Guarded s
    → s.client ≡ asleep
    → s.almost_full ≡ 1
    → (t : Waiting) × Reach undisturbed s t × (t.client ≡ leaving true)
sleeper_leaves s g c f = elim (g.sleeper c) [
  | inl w ↦ flag_set s s.notifier refl c w f
  | inr (inl w) ↦
      passes s (record s { stopper = finished; client = wake s.client })
        (next by_stopper here refl (wakes w)) (ap wake c) f
  | inr (inr w) ↦ notified s s here w c f
]

-- However one client's thread that waits, a thread that stops it, the events and the ring are
-- interleaved, from a state where the flag is at most 1 and the client does not sleep unguarded:
-- when the client sleeps and the ring is almost full, an event or the stopper can wake it, and its
-- wait then succeeds, without a signal and without a change of the ring.
pub Reach-leaves :
    {s t : Waiting}
    → Reach everyone s t
    → Guarded s
    → t.client ≡ asleep
    → t.almost_full ≡ 1
    → (u : Waiting) × Reach undisturbed t u × (u.client ≡ leaving true)
Reach-leaves {t} r g c f = sleeper_leaves t (Reach-Guarded r g) c f
