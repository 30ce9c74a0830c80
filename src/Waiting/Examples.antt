-- ===== src/Waiting/Examples.antt =====
-- A client that waits on a ring that is not almost full, and a stop at different times.
use standalone_linux_io_trac.Base.{◌≡◌, ◌≢◌, refl, true, false, arith}
use standalone_linux_io_trac.Waiting.{
  Waiting, Actor, asleep, leaving, returned, finished, by_client, by_stopper, by_ring, Step, test,
  arms, checks, clears, wakes, fills, Reach, here, next, everyone, undisturbed, at_rest,
  test_stopped, arm, check_ring, mark_stopped, clear_waiting, wake,
}
use standalone_linux_io_trac.Waiting.Guarded.{Guarded, Reach-leaves}
use standalone_linux_io_trac.Waiting.TwoClients.{
  Pair, PairReach, first_killed, only_events, second_forgotten,
}
use standalone_linux_io_trac.Waiting.Stop.{stop_lost, stop_kept, Returns}

at_rest-Guarded : Guarded at_rest
at_rest-Guarded = record { flag = omega arith; sleeper = λ e. cc }

abbrev sleeping : Waiting
sleeping = check_ring (arm (test_stopped at_rest))

sleeping-Reach : Reach everyone at_rest sleeping
sleeping-Reach =
    next by_client (next by_client (next by_client here refl (test refl)) refl (arms refl)) refl
      (checks refl)

Reach-leaves_example :
    (u : Waiting) × Reach undisturbed (record sleeping { almost_full = 1 }) u
    × (u.client ≡ leaving true)
Reach-leaves_example =
    Reach-leaves (next by_ring sleeping-Reach refl (fills 1)) at_rest-Guarded refl refl

stop_lost_example :
    (t : Waiting) × Reach undisturbed (test_stopped at_rest) t
    × (t.client ≡ asleep)
    × (t.stopper ≡ finished)
    × (t.stopped ≡ true)
    × ((a : Actor) (u : Waiting) → undisturbed a ≡ true → ¬ (Step t a u))
stop_lost_example = stop_lost (test_stopped at_rest) refl refl refl (λ e. omega arith)

-- The stop of a client that sleeps.
abbrev woken : Waiting
woken =
    let s = clear_waiting (mark_stopped sleeping) in
    record s { stopper = finished; client = wake s.client }

woken-Reach : Reach everyone (mark_stopped sleeping) woken
woken-Reach = next by_stopper (next by_stopper here refl (clears refl)) refl (wakes refl)

stop_kept_example : (woken.client ≢ asleep) × Returns woken true
stop_kept_example = stop_kept sleeping woken (λ e. cc) refl woken-Reach refl

abbrev both_sleep : Pair
both_sleep = record { shared = sleeping; second = asleep }

second_forgotten_example :
    (q : Pair) × PairReach first_killed both_sleep q
    × (q.shared.client ≡ returned false)
    × ((r : Pair) → PairReach only_events q r → r.second ≡ asleep)
second_forgotten_example = second_forgotten both_sleep refl refl (λ e. cc)
