-- ===== src/Ring/Examples.antt =====
-- One client that has opened the ring of CPU 0 and releases it.
use standalone_linux_io_trac.Base.{◌≡◌, refl, true, List, [], ◌∷◌, some, arith, ◌==◌, if◌then◌else◌}
use standalone_linux_io_trac.Kernel.{ok, err, eacces, einval}
use standalone_linux_io_trac.Trace.Events.{Event}
use standalone_linux_io_trac.Bdev.Examples.{disk, cpus, cpus-Distinct}
use standalone_linux_io_trac.Client.Examples.{attached, attached-Session, platform}
use standalone_linux_io_trac.Ring.{
  Files, release, open_ring, iotrace_open, ioctl, other_command, interrupt_wait_for_traces,
  wait_ends,
}
use standalone_linux_io_trac.Ring.Held.{System, Consistent}
use standalone_linux_io_trac.Ring.Opens.{
  releases, Reach, here, next, Reach-Consistent, Reach-release, release-Consistent,
}

abbrev ring_opened : System (List Event)
ring_opened = record {
  files = record {
    client = attached;
    refs = λ c. if c == 0 then 2 else 1;
    consumer_hdr = λ c. true;
    inited = λ c. true;
    module_refs = 1;
  };
  open_files = 0 ∷ [];
}

ring_opened-Consistent : Consistent disk cpus ring_opened
ring_opened-Consistent = record {
  session = (7 ∷ [], attached-Session);
  bounded = omega arith;
  clients = refl;
  module_refs = refl;
  refs = λ c m. ground arith;
  inited = λ c m. refl;
  consumer_hdr = λ c m. refl;
  online = λ c m. ground arith;
}

abbrev closed : System (List Event)
closed = record {
  files =
      (release-Consistent disk cpus cpus-Distinct ring_opened.files 0 1 [] [] ring_opened-Consistent
        refl).0;
  open_files = [];
}

closed-Reach : Reach disk cpus cpus-Distinct ring_opened closed
closed-Reach = next here (
    releases ring_opened.files closed.files 0 1 [] [] refl
      (release-Consistent disk cpus cpus-Distinct ring_opened.files 0 1 [] [] ring_opened-Consistent
        refl).1)

Reach-Consistent_example : Consistent disk cpus closed
Reach-Consistent_example =
    Reach-Consistent disk cpus cpus-Distinct closed-Reach ring_opened-Consistent

Reach-release_example :
    (s' : Files (List Event)) × (release cpus 0 1 ring_opened.files ≡ some s')
    × Consistent disk cpus (record { files = s'; open_files = [] })
Reach-release_example =
    Reach-release disk cpus cpus-Distinct ring_opened ring_opened 0 1 [] [] here
      ring_opened-Consistent refl refl

-- The ring cannot be opened for writing, and an unknown command is refused.
open_ring_test :
    open_ring platform true cpus 0 true ring_opened.files ≡ some (ring_opened.files, err eacces)
unfolding iotrace_open
open_ring_test = refl

ioctl_test :
    ioctl (λ s. (s, ok tt)) 0 other_command ring_opened.files ≡ (ring_opened.files, err einval)
unfolding ioctl
ioctl_test = refl

interrupt_test :
    wait_ends 0 0 (ioctl (λ s. (s, ok tt)) 0 interrupt_wait_for_traces ring_opened.files).0 ≡ true
unfolding ioctl
interrupt_test = refl
