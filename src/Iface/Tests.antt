-- ===== src/Iface/Tests.antt =====
-- src/core/iface/xdp_interface.c: a ring of two slots whose counters are about to wrap, and a pool.
use ne_encryptor.Prelude.{
  ◌++◌, length, ℕ, ◌-◌, ◌^◌, ◌≡◌, refl, true, false, some, List, [], ◌∷◌, arith,
}
use ne_encryptor.Iface.Ring.{
  Packet, zero_packet, Ring, ring_init, ring_count, try_push, try_push_pair, try_pop,
}
use ne_encryptor.Iface.Ring.Shape.{IsValid, ring_init-IsValid}
use ne_encryptor.Iface.Ring.Queue.{
  Op, push, push_pair, pop, done, got, run_ring, step_ring, run_queue, contents, run_ring-run_queue,
}
use ne_encryptor.Iface.Pool.{Pool, pool_push, pool_pop}
use ne_encryptor.Iface.Pool.Queue.{IsPool, frames, pool_push-frames, pool_pop-frames}

abbrev frame : ℕ → Packet
frame a = record zero_packet { addr = a; len = 60 }

abbrev two_slots : Ring
two_slots = record {
  buf = frame 1 ∷ frame 2 ∷ [];
  cap = 2;
  mask = 1;
  head = 0;
  tail = 2 ^ 32 - 1;
  mpsc_pop = false;
}

two_slots-IsValid : IsValid two_slots
two_slots-IsValid = record {
  exponent = 1;
  small = omega arith;
  cap_eq = refl;
  mask_eq = refl;
  storage = refl;
  head_in = omega arith;
  tail_in = omega arith;
  filled = omega arith;
}

abbrev script : List Op
script = push_pair (frame 3) (frame 4) ∷ pop ∷ push_pair (frame 5) (frame 6) ∷ push (frame 7) ∷ []

run_ring_run :
    run_ring two_slots script ≡ done false ∷ got (some (frame 2)) ∷ done true ∷ done false ∷ []
unfolding run_ring step_ring try_push try_push_pair try_pop
run_ring_run = refl

run_ring-run_queue_example : run_ring two_slots script ≡ run_queue 2 (contents two_slots) script
run_ring-run_queue_example = run_ring-run_queue script two_slots two_slots-IsValid (omega arith)

abbrev four_slots : Ring
four_slots = record {
  buf = zero_packet ∷ zero_packet ∷ zero_packet ∷ zero_packet ∷ [];
  cap = 4;
  mask = 3;
  head = 0;
  tail = 0;
  mpsc_pop = true;
}

ring_init_run : ring_init 4 true true true true ≡ some four_slots
unfolding ring_init
ring_init_run = refl

ring_init-IsValid_example : IsValid four_slots × (four_slots.cap ≡ 4) × (ring_count four_slots ≡ 0)
ring_init-IsValid_example = ring_init-IsValid 4 true true true true (omega arith) ring_init_run

-- A pool whose head has just wrapped around.
abbrev pool : Pool
pool = record { buf = 100 ∷ 0 ∷ 200 ∷ 300 ∷ []; cap = 4; mask = 3; head = 1; tail = 2 ^ 32 - 2 }

pool-IsPool : IsPool pool
pool-IsPool = record {
  exponent = 2;
  small = omega arith;
  cap_eq = refl;
  mask_eq = refl;
  storage = refl;
  head_in = omega arith;
  tail_in = omega arith;
  filled = omega arith;
}

frames_run : frames pool ≡ 200 ∷ 300 ∷ 100 ∷ []
frames_run = refl

pool_push-frames_example :
    (frames ((pool_push pool (400 ∷ [])).0) ≡ frames pool ++ 400 ∷ [])
    × ((pool_push pool (400 ∷ [])).1 ≡ 1)
pool_push-frames_example = pool_push-frames pool (400 ∷ []) pool-IsPool (omega arith)

pool_pop-frames_example :
    (frames pool ≡ (pool_pop pool 2).1 ++ frames ((pool_pop pool 2).0))
    × (length ((pool_pop pool 2).1) ≡ 2)
pool_pop-frames_example = pool_pop-frames pool 2 pool-IsPool
