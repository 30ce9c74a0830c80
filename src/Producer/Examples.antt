-- ===== src/Producer/Examples.antt =====
-- A header file that cannot be mapped.
use standalone_linux_io_trac.Base.{◌≡◌, refl, true, false, arith}
use standalone_linux_io_trac.Producer.{
  Process, Answers, init_ring, new_mapped_file, new_producer, deinit_ring, stop, wait,
}
use standalone_linux_io_trac.Producer.Owned.{Ringed, init_ring-Ringed}

abbrev process : Process
process = record { fds = 3; maps = 10 }

abbrev ring_answers : Answers
ring_answers = record { opens = true; stats = true; st_size = 4096; maps_it = true }

abbrev hdr_answers : Answers
hdr_answers = record { opens = true; stats = true; st_size = 128; maps_it = false }

init_ring-Ringed_example :
    Ringed process 128 4224 new_producer
      (init_ring ring_answers hdr_answers 128 4224 new_producer process)
init_ring-Ringed_example =
    init_ring-Ringed process process new_producer ring_answers hdr_answers 128 4224
      (omega arith, omega arith)

-- With both files there are two descriptors more, and none once the ring is gone.
deinit_test :
    let out =
      init_ring ring_answers
        (record hdr_answers { maps_it = true })
        128
        4224
        new_producer
        process in
    ((out.1).fds ≡ 5) × ((deinit_ring out.0 out.1).1 ≡ process)
unfolding init_ring new_mapped_file deinit_ring
deinit_test = (refl, refl)

stop_test : wait true (stop new_producer) ≡ false
stop_test = refl
