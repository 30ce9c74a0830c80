-- ===== src/Waiting/TwoClients.antt =====
-- Two clients that wait on the ring of one CPU: they share its flag.
use standalone_linux_io_trac.Base.{◌≡◌, ◌≢◌, refl, Bool, true, false, ◌||◌, if◌then◌else◌}
use standalone_linux_io_trac.Waiting.{
  Waiting, Client, asleep, leaving, returned, Stopper, idle, marked, cleared, finished, Notifier,
  quiet, saw_full, swapped, Actor, by_client, by_signal, by_stopper, by_notifier, by_ring, wake,
  disarm, Step, test, arms, checks, disarms, again, signal, marks, clears, wakes, sees, swaps,
  notifies, fills,
}

-- What the first client sees, and where the second one stands.
pub record Pair : Type 0 where
  pub shared : Waiting
  pub second : Client

abbrev pub seen_by_second : Pair → Waiting
seen_by_second p = record (p.shared) { client = p.second }

abbrev is_own : Actor → Bool
is_own by_client = true
is_own by_signal = true
is_own by_stopper = false
is_own by_notifier = false
is_own by_ring = false

-- Whether a step of the stopper or of an event is its `wake_up`, which wakes both clients.
abbrev stopper_woke : Stopper → Stopper → Bool
stopper_woke cleared finished = true
stopper_woke _ _ = false

abbrev notifier_woke : Notifier → Notifier → Bool
notifier_woke swapped quiet = true
notifier_woke _ _ = false

abbrev pub woken_by : Waiting → Waiting → Client → Client
woken_by s t c =
    if stopper_woke s.stopper t.stopper || notifier_woke s.notifier t.notifier then wake c else c

pub data PairStep (p : Pair) : Actor → Pair → Type 0 where
  first :
      (a : Actor) (t : Waiting)
      → Step p.shared a t
      → is_own a ≡ true
      → PairStep p a (record { shared = t; second = p.second })
  second :
      (a : Actor) (t : Waiting)
      → Step (seen_by_second p) a t
      → is_own a ≡ true
      → PairStep p a (record { shared = record t { client = p.shared.client }; second = t.client })
  other :
      (a : Actor) (t : Waiting)
      → Step p.shared a t
      → is_own a ≡ false
      → PairStep p a (record { shared = t; second = woken_by p.shared t p.second })

pub data PairReach (may : Actor → Bool) (p : Pair) : Pair → Type 0 where
  here : PairReach may p p
  next :
      {q r : Pair} (a : Actor)
      → PairReach may p q
      → may a ≡ true
      → PairStep q a r
      → PairReach may p r

abbrev pub first_killed : Actor → Bool
first_killed by_client = true
first_killed by_signal = true
first_killed by_stopper = false
first_killed by_notifier = false
first_killed by_ring = false

-- Events, and a ring that fills and is read.
abbrev pub only_events : Actor → Bool
only_events by_client = false
only_events by_signal = false
only_events by_stopper = false
only_events by_notifier = true
only_events by_ring = true

-- The second client sleeps without the flag, and no `wake_up` is on its way.
pub record Forgotten (p : Pair) : Type 0 where
  pub second : p.second ≡ asleep
  pub flag : p.shared.waiting_for_trace ≡ 0
  pub notifier : p.shared.notifier ≢ swapped

same_stopper : (x : Stopper) → stopper_woke x x ≡ false
same_stopper idle = refl
same_stopper marked = refl
same_stopper cleared = refl
same_stopper finished = refl

same_notifier : (x : Notifier) → notifier_woke x x ≡ false
same_notifier quiet = refl
same_notifier saw_full = refl
same_notifier swapped = refl

not_woken_full : (x : Notifier) → notifier_woke x saw_full ≡ false
not_woken_full quiet = refl
not_woken_full saw_full = refl
not_woken_full swapped = refl

Step-Forgotten :
    (s t : Waiting) (a : Actor) (c : Client)
    → Step s a t
    → only_events a ≡ true
    → Forgotten (record { shared = s; second = c })
    → Forgotten (record { shared = t; second = woken_by s t c })
Step-Forgotten s t a c (test e) o f = cc
Step-Forgotten s t a c (arms e) o f = cc
Step-Forgotten s t a c (checks e) o f = cc
Step-Forgotten s t a c (disarms r e) o f = cc
Step-Forgotten s t a c (again r e) o f = cc
Step-Forgotten s t a c (signal e) o f = cc
Step-Forgotten s t a c (marks e) o f = cc
Step-Forgotten s t a c (clears e) o f = cc
Step-Forgotten s t a c (wakes e) o f = cc
Step-Forgotten s t a c (sees e full) o f = rw (same_stopper s.stopper) (
    rw (not_woken_full s.notifier)
      (record { second = f.second; flag = f.flag; notifier = λ q. cc }))
Step-Forgotten s t a c (swaps e) o f = rw (f.flag) (
    rw (same_stopper s.stopper)
      (rw e (record { second = f.second; flag = refl; notifier = λ q. cc })))
Step-Forgotten s t a c (notifies e) o f = absurd (f.notifier e)
Step-Forgotten s t a c (fills n) o f = rw (same_stopper s.stopper) (
    rw (same_notifier s.notifier)
      (record { second = f.second; flag = f.flag; notifier = f.notifier }))

not_both : (a : Actor) → is_own a ≡ true → ¬ (only_events a ≡ true)
not_both by_client p q = cc
not_both by_signal p q = cc
not_both by_stopper p q = cc
not_both by_notifier p q = cc
not_both by_ring p q = cc

PairStep-Forgotten :
    (p q : Pair) (a : Actor) → PairStep p a q → only_events a ≡ true → Forgotten p → Forgotten q
PairStep-Forgotten p q a (first a' t st own) o f = absurd (not_both a' own o)
PairStep-Forgotten p q a (second a' t st own) o f = absurd (not_both a' own o)
PairStep-Forgotten p q a (other a' t st own) o f = Step-Forgotten p.shared t a' p.second st o f

PairReach-Forgotten : (p q : Pair) → PairReach only_events p q → Forgotten p → Forgotten q
PairReach-Forgotten p q here f = f
PairReach-Forgotten p q (next {q = x} a r may st) f =
    PairStep-Forgotten x q a st may (PairReach-Forgotten p x r f)

-- The first client gets a signal and leaves.
killed : Pair → Pair
killed p = record {
  shared = disarm false (record (p.shared) { client = leaving false });
  second = p.second;
}

killed-Reach : (p : Pair) → p.shared.client ≡ asleep → PairReach first_killed p (killed p)
unfolding killed
killed-Reach p c =
    let s = record (p.shared) { client = leaving false } in
    next by_client (next by_signal here refl (first by_signal s (signal c) refl)) refl
      (first by_client (disarm false s) (disarms false refl) refl)

-- When two clients sleep in their wait for the ring of one CPU and no event is about to wake them,
-- a signal to the first one can make the second one miss its notifications: the first one clears
-- the flag that both share as it leaves, and from then on the second one sleeps on, however the
-- ring fills and whatever events notify, as long as neither client acts, no signal comes and
-- nobody stops them.
pub second_forgotten :
    (p : Pair)
    → p.shared.client ≡ asleep
    → p.second ≡ asleep
    → p.shared.notifier ≢ swapped
    → (q : Pair) × PairReach first_killed p q
      × (q.shared.client ≡ returned false)
      × ((r : Pair) → PairReach only_events q r → r.second ≡ asleep)
unfolding killed
second_forgotten p c d n =
    let f : Forgotten (killed p) = record { second = d; flag = refl; notifier = n } in
    (killed p, killed-Reach p c, refl, λ r run. (PairReach-Forgotten (killed p) r run f).second)
