-- ===== src/Reorder/Life.antt =====
-- src/core/dataplane/udp_reorder.c: a worker from its start, under any sequence of calls.
use ne_encryptor.Prelude.{
  ℕ, zero, suc, ◌+◌, ◌<◌, ◌≡◌, refl, ap, Bool, List, [], ◌∷◌, arith, length, get_or, replicate,
}
use ne_encryptor.Prelude.Int.{ℤ}
use ne_encryptor.Reorder.{Key, Item, Slot, zero_slot, reorder_window}
use ne_encryptor.Reorder.Slots.{waiting, sent}
use ne_encryptor.Reorder.Worker.{Worker, zero_flow, submit, gc, reset_worker, flow_cap}
use ne_encryptor.Reorder.Conserve.{
  IsSized, Keeps, Keeps-trans, Keeps-refl, waiting_all, submit-Keeps, gc-Keeps, reset_worker-Keeps,
}

-- The static arrays as the program starts.
abbrev pub zero_worker : Worker
zero_worker = record {
  flows = replicate flow_cap zero_flow;
  windows = replicate flow_cap (replicate reorder_window zero_slot);
  held_by_worker = 0;
  gc_cursor = 0;
  clock = 0;
  stats = record {
    held = 0;
    released = 0;
    late = 0;
    gap = 0;
    overflow = 0;
    evicted = 0;
    high_water = 0;
  };
  out = [];
}

pub data Call : Type 0 where
  offer : ℤ → Key → ℕ → ℕ → Item → ℕ → Call
  collect : ℕ → Call
  restart : Call

unfoldable pub step : (Item → Bool) → Bool → ℕ → Call → Worker → Worker
step emit_ok enabled hold_ns (offer worker_idx key epoch seq item now) w =
    submit emit_ok enabled hold_ns worker_idx key epoch seq item now w
step emit_ok enabled hold_ns (collect now) w = gc emit_ok hold_ns now w
step emit_ok enabled hold_ns restart w = reset_worker w

unfoldable pub run : (Item → Bool) → Bool → ℕ → List Call → Worker → Worker
run emit_ok enabled hold_ns [] w = w
run emit_ok enabled hold_ns (call ∷ calls) w =
    run emit_ok enabled hold_ns calls (step emit_ok enabled hold_ns call w)

module _ (f : Item → ℕ) where
  abbrev pub call_weight : Call → ℕ
  call_weight (offer worker_idx key epoch seq item now) = f item
  call_weight (collect now) = 0
  call_weight restart = 0

  -- The weight of the items that the calls hand over.
  abbrev pub offered : List Call → ℕ
  offered [] = 0
  offered (call ∷ calls) = call_weight call + offered calls

  step-Keeps :
      (emit_ok : Item → Bool) (enabled : Bool) (hold_ns : ℕ) (call : Call) (w : Worker)
      → IsSized w
      → Keeps f (call_weight call) w (step emit_ok enabled hold_ns call w)
  unfolding step
  step-Keeps emit_ok enabled hold_ns (offer worker_idx key epoch seq item now) w h =
      submit-Keeps f emit_ok enabled hold_ns worker_idx key epoch seq item now w h
  step-Keeps emit_ok enabled hold_ns (collect now) w h = gc-Keeps f emit_ok hold_ns now w h
  step-Keeps emit_ok enabled hold_ns restart w h = reset_worker-Keeps f w h

  run-Keeps :
      (emit_ok : Item → Bool) (enabled : Bool) (hold_ns : ℕ) (calls : List Call) (w : Worker)
      → IsSized w
      → Keeps f (offered calls) w (run emit_ok enabled hold_ns calls w)
  unfolding run
  run-Keeps emit_ok enabled hold_ns [] w h = Keeps-refl f w h
  run-Keeps emit_ok enabled hold_ns (call ∷ calls) w h =
      Keeps-trans f (call_weight call) (offered calls) _ w (step emit_ok enabled hold_ns call w) _
        refl (step-Keeps emit_ok enabled hold_ns call w h)
        (run-Keeps emit_ok enabled hold_ns calls (step emit_ok enabled hold_ns call w))

  waiting-replicate : (n : ℕ) → waiting f (replicate n zero_slot) ≡ 0
  waiting-replicate zero = refl
  waiting-replicate (suc n) = omega (arith, waiting-replicate n)

  waiting_all-replicate : (n m : ℕ) → waiting_all f (replicate n (replicate m zero_slot)) ≡ 0
  waiting_all-replicate zero m = refl
  waiting_all-replicate (suc n) m = omega (arith, waiting_all-replicate n m, waiting-replicate m)

get_or-replicate_below :
    (n i : ℕ) (slots : List Slot) → i < n → get_or (replicate n slots) i [] ≡ slots
get_or-replicate_below zero i slots h = elim h [ ]
get_or-replicate_below (suc n) zero slots h = refl
get_or-replicate_below (suc n) (suc i) slots h = get_or-replicate_below n i slots (omega (arith, h))

zero_worker-IsSized : IsSized zero_worker
zero_worker-IsSized = record {
  windows_in = refl;
  slots_in =
      λ i h. ap length (get_or-replicate_below flow_cap i (replicate reorder_window zero_slot) h);
}

-- With `f` any weight of the items: after any sequence of submits, collections and resets of a
-- worker from its start, what waits in the windows and what went to the callbacks weigh together
-- what was submitted. So every item is emitted, dropped or held, and only once.
pub run_accounts :
    (f : Item → ℕ) (emit_ok : Item → Bool) (enabled : Bool) (hold_ns : ℕ) (calls : List Call)
    → waiting_all f (run emit_ok enabled hold_ns calls zero_worker).windows
        + sent f (run emit_ok enabled hold_ns calls zero_worker).out
      ≡ offered f calls
run_accounts f emit_ok enabled hold_ns calls =
    let kept = run-Keeps f emit_ok enabled hold_ns calls zero_worker zero_worker-IsSized in
    omega (arith, kept.balance, waiting_all-replicate f flow_cap reorder_window)
