-- ===== src/Waiting/Stop.antt =====
-- What a stop does to a client that waits: when it is lost, and when not.
use standalone_linux_io_trac.Base.{◌≡◌, ◌≢◌, refl, ap, Bool, true, false, arith, ==_false}
use standalone_linux_io_trac.Waiting.{
  Waiting, Client, outside, tested, checking, asleep, leaving, returned, idle, marked, finished,
  quiet, Actor, by_client, by_stopper, Step, test, arms, checks, disarms, again, signal, marks,
  clears, wakes, sees, swaps, notifies, fills, Reach, here, next, everyone, undisturbed,
  only_client, mark_stopped, clear_waiting, wake, arm, check_ring, disarm, test_stopped,
}

-- The client sleeps, the stop is over, and no event is at work on a ring that is not almost full.
pub record Stranded (s : Waiting) : Type 0 where
  pub client : s.client ≡ asleep
  pub stopper : s.stopper ≡ finished
  pub notifier : s.notifier ≡ quiet
  pub ring : s.almost_full ≢ 1

Stranded-still : {s t : Waiting} {a : Actor} → Stranded s → undisturbed a ≡ true → ¬ (Step s a t)
Stranded-still v may (test e) = ground (arith, v.client)
Stranded-still v may (arms e) = ground (arith, v.client)
Stranded-still v may (checks e) = ground (arith, v.client)
Stranded-still v may (disarms r e) = ground (arith, v.client)
Stranded-still v may (again r e) = ground (arith, v.client)
Stranded-still v may (signal e) = cc
Stranded-still v may (marks e) = ground (arith, v.stopper)
Stranded-still v may (clears e) = ground (arith, v.stopper)
Stranded-still v may (wakes e) = ground (arith, v.stopper)
Stranded-still v may (sees e f) = absurd (v.ring f)
Stranded-still v may (swaps e) = ground (arith, v.notifier)
Stranded-still v may (notifies e) = ground (arith, v.notifier)
Stranded-still v may (fills n) = cc

-- The stop between the client's test of `m_stopped` and its ioctl.
stopped_between : Waiting → Waiting
stopped_between s =
    check_ring
      (arm (record (clear_waiting (mark_stopped s)) { stopper = finished; client = wake s.client }))

lost :
    (s : Waiting) → s.client ≡ tested → s.stopper ≡ idle → Reach undisturbed s (stopped_between s)
unfolding stopped_between
lost s c i =
    next by_client
      (next by_client
        (next by_stopper (next by_stopper (next by_stopper here refl (marks i)) refl (clears refl))
          refl (wakes refl))
        refl (arms (ap wake c)))
      refl (checks refl)

stopped_between-Stranded :
    (s : Waiting)
    → s.client ≡ tested
    → s.notifier ≡ quiet
    → s.almost_full ≢ 1
    → Stranded (stopped_between s)
unfolding stopped_between
stopped_between-Stranded s c n f = record {
  client = rw (==_false s.almost_full 1 f) refl;
  stopper = refl;
  notifier = n;
  ring = f;
}

-- When a stop begins while the client stands between its test of `m_stopped` and its ioctl, no
-- event is at work and the ring is not almost full, the stop can be lost: the client can come to
-- sleep with the stop over, and then nobody can take a step any more, but for a signal or a change
-- of the ring.
pub stop_lost :
    (s : Waiting)
    → s.client ≡ tested
    → s.stopper ≡ idle
    → s.notifier ≡ quiet
    → s.almost_full ≢ 1
    → (t : Waiting) × Reach undisturbed s t
      × (t.client ≡ asleep)
      × (t.stopper ≡ finished)
      × (t.stopped ≡ true)
      × ((a : Actor) (u : Waiting) → undisturbed a ≡ true → ¬ (Step t a u))
unfolding stopped_between
stop_lost s c i n f =
    let v = stopped_between-Stranded s c n f in
    (stopped_between s, lost s c i, v.client, refl, refl, λ a u may. Stranded-still v may)

-- What a stop that begins elsewhere keeps.
pub record Kept (s : Waiting) : Type 0 where
  pub stopped : s.stopped ≡ true
  pub begun : s.stopper ≢ idle
  pub not_tested : s.client ≢ tested
  pub cleared_flag : s.stopper ≢ marked → s.waiting_for_trace ≡ 0
  pub awake : s.stopper ≡ finished → s.client ≢ asleep

Step-Kept : {s t : Waiting} {a : Actor} → Step s a t → Kept s → Kept t
Step-Kept (test e) k = ground (arith, k.stopped, k.begun, k.not_tested, k.cleared_flag, k.awake)
Step-Kept (arms e) k = absurd (k.not_tested e)
Step-Kept (checks e) k = ground (arith, k.stopped, k.begun, k.cleared_flag, k.awake)
Step-Kept (disarms r e) k = ground (arith, k.stopped, k.begun, k.cleared_flag, k.awake)
Step-Kept (again r e) k = ground (arith, k.stopped, k.begun, k.cleared_flag, k.awake)
Step-Kept (signal e) k = ground (arith, k.stopped, k.begun, k.cleared_flag, k.awake)
Step-Kept (marks e) k = absurd (k.begun e)
Step-Kept (clears e) k = ground (arith, k.stopped, k.begun, k.not_tested, k.cleared_flag, k.awake)
Step-Kept (wakes e) k = ground (arith, k.stopped, k.begun, k.not_tested, k.cleared_flag, k.awake)
Step-Kept (sees e f) k = ground (arith, k.stopped, k.begun, k.not_tested, k.cleared_flag, k.awake)
Step-Kept (swaps e) k = ground (arith, k.stopped, k.begun, k.not_tested, k.cleared_flag, k.awake)
Step-Kept (notifies e) k = ground (arith, k.stopped, k.begun, k.not_tested, k.cleared_flag, k.awake)
Step-Kept (fills n) k = ground (arith, k.stopped, k.begun, k.not_tested, k.cleared_flag, k.awake)

Reach-Kept : {s t : Waiting} → Reach everyone s t → Kept s → Kept t
Reach-Kept here k = k
Reach-Kept (next a r may st) k = Step-Kept st (Reach-Kept r k)

-- What `wait` returns to a client that stands there when the stop is over.
abbrev pub result_at : Client → Bool
result_at outside = false
result_at tested = true
result_at checking = true
result_at asleep = true
result_at (leaving r) = r
result_at (returned r) = r

-- The client's own steps take it out of `wait` with the result `r`, and out of its next call with
-- false.
abbrev pub Returns : Waiting → Bool → Type 0
Returns s r =
    (u : Waiting) × Reach only_client s u
    × (u.client ≡ returned r)
    × (v : Waiting) × Reach only_client u v
    × (v.client ≡ returned false)

-- A call that begins with `m_stopped` set.
refused :
    (u : Waiting) (r : Bool)
    → u.client ≡ returned r
    → u.stopped ≡ true
    → (v : Waiting) × Reach only_client u v × (v.client ≡ returned false)
refused u r c h =
    let w = record u { client = outside } in
    (
      test_stopped w,
      next by_client (next by_client here refl (again r c)) refl (test refl),
      rw (h) refl,
    )

left :
    (s u : Waiting) (r : Bool)
    → Reach only_client s u
    → u.client ≡ leaving r
    → u.stopped ≡ true
    → Returns s r
left s u r p c h =
    let (v, more, e) = refused (disarm r u) r refl h in
    (disarm r u, next by_client p refl (disarms r c), refl, v, more, e)

Kept-Returns :
    (s : Waiting)
    → Kept s
    → s.stopper ≡ finished
    → (c : Client) → s.client ≡ c
    → Returns s (result_at c)
Kept-Returns s k f outside c =
    let back : (test_stopped s).client ≡ returned false = rw (k.stopped) refl in
    let (v, more, e) = refused (test_stopped s) false back k.stopped in
    (test_stopped s, next by_client here refl (test c), back, v, more, e)
Kept-Returns s k f tested c = absurd (k.not_tested c)
Kept-Returns s k f checking c =
    left s (check_ring s) true (next by_client here refl (checks c))
      (ground (arith, k.cleared_flag (ground arith))) k.stopped
Kept-Returns s k f asleep c = absurd (k.awake f c)
Kept-Returns s k f (leaving r) c = left s s r here c k.stopped
Kept-Returns s k f (returned r) c =
    let (v, more, e) = refused s r c k.stopped in (s, here, c, v, more, e)

-- When a stop begins while the client is anywhere but between its test of `m_stopped` and its
-- ioctl, it is never lost, whatever all do: as soon as it is over, the client does not sleep, and
-- its own next steps, no other's, take it out of `wait`. A call that stands in the ioctl then, as
-- one that the stop has woken, returns true, not false; one that has its result already keeps it;
-- and the first call that begins behind the stop returns false.
pub stop_kept :
    (s t : Waiting)
    → s.client ≢ tested
    → s.stopper ≡ idle
    → Reach everyone (mark_stopped s) t
    → t.stopper ≡ finished
    → (t.client ≢ asleep) × Returns t (result_at t.client)
stop_kept s t c i r f =
    let k = Reach-Kept r (record {
      stopped = refl;
      begun = λ e. cc;
      not_tested = c;
      cleared_flag = λ n. absurd (n refl);
      awake = λ e. cc;
    }) in
    (k.awake f, Kept-Returns t k f t.client refl)
