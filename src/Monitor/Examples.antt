-- ===== src/Monitor/Examples.antt =====
-- Two CPUs that come to share a monitor, and a full ring.
use standalone_linux_io_trac.Base.{
  ◌+◌, ◌≡◌, ◌↔◌, ◌≢◌, ℕ, refl, true, false, List, [], ◌∷◌, none, some, arith, none_is_not,
}
use standalone_linux_io_trac.Trace.Events.{Event}
use standalone_linux_io_trac.Bdev.Examples.{ring, cpus, cpus-Distinct}
use standalone_linux_io_trac.Inode.{reg}
use standalone_linux_io_trac.InodeTracer.Examples.{
  full_ring, full_ring-StaysFull, Always, tree, inode_of,
}
use standalone_linux_io_trac.Monitor.Marks.{
  Group, Marked, marks_inode, drops_mark, puts, alloc_mark, put_group, destroy_mark,
}
use standalone_linux_io_trac.Monitor.MarksOwned.{state, Reach, here, next, Reach-frees}
use standalone_linux_io_trac.Strings.{codes}
use standalone_linux_io_trac.Monitor.Release.{is_compatible_kernel, running, fsm_init-running}
use standalone_linux_io_trac.Monitor.{Monitors, Backend, fsm_init}
use standalone_linux_io_trac.Monitor.Init.{OneMonitor}
use standalone_linux_io_trac.Monitor.Lives.{Call, creates, destroys, run, run-OneMonitor}
use standalone_linux_io_trac.Monitor.Events.{
  Watch, Mask, event_path, event_inode, fs_handle_event, handle_inode, trace_file_event,
  fs_handle_event-Disabled,
}

abbrev no_monitor : Monitors
no_monitor = record { heap = λ i. none; free = 1; tracers = λ c. none }

no_monitor-OneMonitor : OneMonitor cpus no_monitor
no_monitor-OneMonitor = record {
  place = 1;
  heap = λ i. ground arith;
  same = λ c q m e. absurd (none_is_not e);
}

abbrev backend : Backend
backend = record {
  compatible = true;
  symbols = true;
  kzalloc_fsm = true;
  alloc_group = true;
  kzalloc_priv = true;
  vzalloc_tracer = λ cpu. true;
}

abbrev calls : List Call
calls = creates backend 0 ∷ creates backend 1 ∷ destroys 0 ∷ []

run-OneMonitor_example :
    (w' : Monitors) × (run cpus calls no_monitor ≡ some w') × OneMonitor cpus w'
run-OneMonitor_example =
    run-OneMonitor cpus cpus-Distinct calls no_monitor no_monitor-OneMonitor
      ((refl, refl, refl), ((refl, refl, refl), (refl, tt)))

abbrev quiet : Watch (List Event)
quiet = record { trace = []; sid = 5; marks = []; preempt_count = 0 }

abbrev made_and_opened : Mask
made_and_opened = record {
  moved_from = false;
  moved_to = false;
  created = true;
  delete_self = false;
  opened = true;
}

fs_handle_event-Disabled_example :
    (s' : Watch (List Event)) × (fs_handle_event full_ring tree
        (event_path (inode_of 12 reg))
        made_and_opened
        quiet
      ≡ some s')
    × (fs_handle_event full_ring tree (event_inode (inode_of 12 reg)) made_and_opened quiet
        ≡ some s')
    × (s'.preempt_count ≡ 0 + 1)
    × Always s'.trace
fs_handle_event-Disabled_example =
    fs_handle_event-Disabled full_ring tree Always full_ring-StaysFull (inode_of 12 reg)
      made_and_opened quiet tt

-- With room in the ring preemption is enabled again.
room_test : (handle_inode ring tree (inode_of 12 reg) made_and_opened quiet).preempt_count ≡ 0
unfolding handle_inode trace_file_event
room_test = refl

-- A group with one user, and the same with the mark of an inode that outlives the user.
abbrev one_user : Marked
one_user = state (record { refs = 1; private_marks = some 0 }) 1 0

abbrev marked : Marked
marked = state (record { refs = 2; private_marks = some 1 }) 1 1

abbrev unused : Marked
unused = state (record { refs = 1; private_marks = some 1 }) 0 1

unused-Reach : Reach one_user unused
unfolding alloc_mark
unused-Reach =
    next (put_group marked.group) unused.group 0 1
      (next (alloc_mark one_user.group) marked.group 1 1 here (marks_inode (omega arith)) refl)
      (puts (omega arith)) refl

Reach-frees_example :
    (g : Group) × (destroy_mark unused.group ≡ some g)
    × (g.refs ≡ 0)
    × ((g.private_marks ≡ none) ↔ (◌≡◌ {A = ℕ} 0 0))
Reach-frees_example =
    Reach-frees one_user unused (destroy_mark unused.group) 0 0
      (record { refs = refl; private_marks = refl }) unused-Reach (drops_mark (omega arith))

-- A kernel whose release starts with the one that the module was built for.
fsm_init-running_example :
    (codes "5.4.0-42-generic" ≢ codes "5.4.0-42"
      → fsm_init (running backend (codes "5.4.0-42") (codes "5.4.0-42-generic") 65) cpus no_monitor
        ≡ some (no_monitor, none))
    × (codes "5.4.0-42-generic" ≡ codes "5.4.0-42"
        → fsm_init
            (running backend (codes "5.4.0-42") (codes "5.4.0-42-generic") 65)
            cpus
            no_monitor
          ≡ fsm_init (record backend { compatible = true }) cpus no_monitor)
fsm_init-running_example =
    fsm_init-running backend (codes "5.4.0-42") (codes "5.4.0-42-generic") 65 cpus no_monitor
      (omega arith)

release_test : is_compatible_kernel (codes "5.4.0-42") (codes "5.4.0-43") 65 ≡ false
unfolding is_compatible_kernel
release_test = refl
