-- ===== src/Waiting.antt =====
-- Waiting for traces, with its threads interleaved: a client's thread in `wait` of
-- source/userspace/KernelRingTraceProducer.cpp and the ioctl of source/kernel/procfs.c behind it,
-- the thread that calls `stop`, and the events that notify the client (source/kernel/io_trace.c).
-- Every access to what they share is one step. `wait_event_interruptible` tests its condition,
-- sleeps if it fails, and tests it again after a `wake_up`; no `wake_up` gets lost between the test
-- and the sleep, which makes the two one step.
pub mod Guarded
pub mod Stop
pub mod TwoClients
pub mod Examples
use standalone_linux_io_trac.Base.{ℕ, ◌≡◌, Bool, true, false, ◌==◌, ◌||◌, not, if◌then◌else◌}

-- The client's thread: outside `wait`, behind the test of `m_stopped`, in
-- `wait_event_interruptible` before its test or asleep, behind it with the result's success, and
-- returned from `wait`.
pub data Client : Type 0 where
  outside tested checking asleep : Client
  leaving returned : Bool → Client

-- The thread that calls `stop`: before it, behind the write to `m_stopped`, behind the write of the
-- ioctl that interrupts, and behind its `wake_up`.
pub data Stopper : Type 0 where
  idle marked cleared finished : Stopper

-- An event that calls `iotrace_notify_of_new_events`: none, behind the test of the ring, and
-- behind the exchange of the flag that found 1.
pub data Notifier : Type 0 where
  quiet saw_full swapped : Notifier

pub data Actor : Type 0 where
  by_client by_signal by_stopper by_notifier by_ring : Actor

pub record Waiting : Type 0 where
  pub client : Client
  pub stopper : Stopper
  pub notifier : Notifier
  pub stopped : Bool
  pub waiting_for_trace : ℕ
  pub almost_full : ℕ

-- `wake_up`.
abbrev pub wake : Client → Client
wake asleep = checking
wake outside = outside
wake tested = tested
wake checking = checking
wake (leaving r) = leaving r
wake (returned r) = returned r

-- The condition of `wait_event_interruptible`.
abbrev pub may_go : Waiting → Bool
may_go s = s.almost_full == 1 || s.waiting_for_trace == 0

-- The test of `wait`.
abbrev pub test_stopped : Waiting → Waiting
test_stopped s = record s { client = if not s.stopped then tested else returned false }

-- The ioctl that waits: the flag set, the condition tested, a signal, and the flag cleared.
abbrev pub arm : Waiting → Waiting
arm s = record s { client = checking; waiting_for_trace = 1 }

abbrev pub check_ring : Waiting → Waiting
check_ring s = record s { client = if may_go s then leaving true else asleep }

abbrev pub disarm : Bool → Waiting → Waiting
disarm r s = record s { client = returned r; waiting_for_trace = 0 }

-- `stop`, and the ioctl that interrupts.
abbrev pub mark_stopped : Waiting → Waiting
mark_stopped s = record s { stopper = marked; stopped = true }

abbrev pub clear_waiting : Waiting → Waiting
clear_waiting s = record s { stopper = cleared; waiting_for_trace = 0 }

-- `atomic_cmpxchg` of the flag from 1 to 0, and whether it goes on to the `wake_up`.
abbrev pub swap_waiting : Waiting → Waiting
swap_waiting s =
    if s.waiting_for_trace == 1
    then record s { notifier = swapped; waiting_for_trace = 0 }
    else record s { notifier = quiet }

pub data Step (s : Waiting) : Actor → Waiting → Type 0 where
  test : s.client ≡ outside → Step s by_client (test_stopped s)
  arms : s.client ≡ tested → Step s by_client (arm s)
  checks : s.client ≡ checking → Step s by_client (check_ring s)
  disarms : (r : Bool) → s.client ≡ leaving r → Step s by_client (disarm r s)
  again : (r : Bool) → s.client ≡ returned r → Step s by_client (record s { client = outside })
  signal : s.client ≡ asleep → Step s by_signal (record s { client = leaving false })
  marks : s.stopper ≡ idle → Step s by_stopper (mark_stopped s)
  clears : s.stopper ≡ marked → Step s by_stopper (clear_waiting s)
  wakes :
      s.stopper ≡ cleared
      → Step s by_stopper (record s { stopper = finished; client = wake s.client })
  sees :
      s.notifier ≡ quiet → s.almost_full ≡ 1 → Step s by_notifier (record s { notifier = saw_full })
  swaps : s.notifier ≡ saw_full → Step s by_notifier (swap_waiting s)
  notifies :
      s.notifier ≡ swapped
      → Step s by_notifier (record s { notifier = quiet; client = wake s.client })
  -- The ring takes an event, or the client has read some.
  fills : (n : ℕ) → Step s by_ring (record s { almost_full = n })

-- Steps of those that may act.
pub data Reach (may : Actor → Bool) (s : Waiting) : Waiting → Type 0 where
  here : Reach may s s
  next : {t u : Waiting} (a : Actor) → Reach may s t → may a ≡ true → Step t a u → Reach may s u

abbrev pub everyone : Actor → Bool
everyone a = true

-- All but a signal and a change of the ring.
abbrev pub undisturbed : Actor → Bool
undisturbed by_signal = false
undisturbed by_ring = false
undisturbed by_client = true
undisturbed by_stopper = true
undisturbed by_notifier = true

abbrev pub only_client : Actor → Bool
only_client by_client = true
only_client by_signal = false
only_client by_ring = false
only_client by_stopper = false
only_client by_notifier = false

-- Nobody waits, stops or notifies.
abbrev pub at_rest : Waiting
at_rest = record {
  client = outside;
  stopper = idle;
  notifier = quiet;
  stopped = false;
  waiting_for_trace = 0;
  almost_full = 0;
}
