-- ===== src/Flow/Swrr.antt =====
-- src/core/flow/flow_table.c: the smooth weighted round-robin state of one flow, and one pick.
-- `int` and `int64_t` values are integers; the range of the 64-bit credits is the matter of
-- `Flow.Swrr.Range`.
pub mod Credits
pub mod Pick
pub mod Step
pub mod Balance
pub mod Fair
pub mod Range
use ne_encryptor.Prelude.{
  ℕ, zero, suc, ◌+◌, ◌%◌, Bool, true, false, Option, none, some, List, ltb, ◌==◌, ◌&&◌,
  if◌then◌else◌, get_or, set, replicate,
}
use ne_encryptor.Prelude.Int.{ℤ, pos, negsuc, ◌+ℤ◌, ◌-ℤ◌, ltb_ℤ, eqb_ℤ}

abbrev pub max_interfaces : ℕ
max_interfaces = 16

pub record FlowKey : Type 0 where
  pub src_ip : ℕ
  pub dst_ip : ℕ
  pub src_port : ℕ
  pub dst_port : ℕ
  pub protocol : ℕ

abbrev pub zero_key : FlowKey
zero_key = record { src_ip = 0; dst_ip = 0; src_port = 0; dst_port = 0; protocol = 0 }

-- `struct flow_swrr_state`; both arrays have `max_interfaces` elements.
pub record SwrrState : Type 0 where
  pub key : FlowKey
  pub wans : List ℤ
  pub current : List ℤ
  pub stamp : ℕ
  pub wan_count : ℕ
  pub tie_start : ℕ
  pub valid : Bool

abbrev pub zero_state : SwrrState
zero_state = record {
  key = zero_key;
  wans = replicate max_interfaces (pos 0);
  current = replicate max_interfaces (pos 0);
  stamp = 0;
  wan_count = 0;
  tie_start = 0;
  valid = false;
}

-- The first `n` WANs of the state and of the pool agree.
unfoldable pub wans_same : List ℤ → List ℤ → ℕ → ℕ → Bool
wans_same ws allowed zero i = true
wans_same ws allowed (suc n) i =
    eqb_ℤ (get_or ws i (pos 0)) (get_or allowed i (pos 0)) && wans_same ws allowed n (i + 1)

unfoldable pub flow_swrr_pool_same : SwrrState → List ℤ → ℕ → Bool
flow_swrr_pool_same s allowed_wans allowed_count =
    s.valid && s.wan_count == allowed_count % 256 && wans_same s.wans allowed_wans allowed_count 0

copy_wans : List ℤ → ℕ → ℕ → List ℤ → List ℤ
copy_wans allowed zero i out = out
copy_wans allowed (suc n) i out = copy_wans allowed n (i + 1) (set out i (get_or allowed i (pos 0)))

-- The reset clears the state first, the time stamp and every credit included.
unfoldable pub flow_swrr_reset : FlowKey → ℕ → List ℤ → ℕ → SwrrState
unfolding copy_wans
flow_swrr_reset key hash allowed_wans allowed_count = record zero_state {
  key = key;
  wans = copy_wans allowed_wans allowed_count 0 (replicate max_interfaces (pos 0));
  wan_count = allowed_count % 256;
  tie_start = if ltb 0 allowed_count then (hash % allowed_count) % 256 else 0;
  valid = true;
}

-- `allowed_weights ? allowed_weights[i] : 1`
abbrev pub weight_at : Option (List ℤ) → ℕ → ℤ
weight_at none i = pos 1
weight_at (some ws) i = get_or ws i (pos 0)

-- The body of the first loop of a pick: an eligible WAN earns its weight, and so does the total.
unfoldable pub earn_credit : ℤ → List ℤ → ℕ → List ℤ
earn_credit w current i =
    if ltb_ℤ (pos 0) w then set current i (get_or current i (pos 0) +ℤ w) else current

unfoldable pub earn_total : ℤ → ℤ → ℤ
earn_total w total = if ltb_ℤ (pos 0) w then total +ℤ w else total

-- The loop, over the `n` WANs from `i` on; the total is the second part.
unfoldable pub earn : Option (List ℤ) → ℕ → ℕ → List ℤ → ℤ → List ℤ × ℤ
earn weights zero i current total = (current, total)
earn weights (suc n) i current total =
    earn weights n (i + 1) (earn_credit (weight_at weights i) current i)
      (earn_total (weight_at weights i) total)

-- The body of the second loop, at the index `i`: the best so far (`none` for -1) and its credit.
unfoldable pub better : Option (List ℤ) → List ℤ → ℕ → Option ℕ × ℤ → Option ℕ × ℤ
better weights current i (none, best_current) =
    if ltb_ℤ (pos 0) (weight_at weights i)
    then (some i, get_or current i (pos 0))
    else (none, best_current)
better weights current i (some best, best_current) =
    if ltb_ℤ (pos 0) (weight_at weights i) && ltb_ℤ best_current (get_or current i (pos 0))
    then (some i, get_or current i (pos 0))
    else (some best, best_current)

unfoldable pub richest : Option (List ℤ) → List ℤ → ℕ → ℕ → ℕ → ℕ → Option ℕ × ℤ → Option ℕ × ℤ
richest weights current count tie_start zero off best = best
richest weights current count tie_start (suc n) off best =
    richest weights current count tie_start n (off + 1)
      (better weights current ((tie_start + off) % count) best)

abbrev int64_min : ℤ
int64_min = negsuc 9223372036854775807

abbrev pub or_zero : Option ℕ → ℕ
or_zero none = 0
or_zero (some i) = i

-- The winner pays the total.
unfoldable pub settle : SwrrState → List ℤ → List ℤ → ℤ → ℕ → ℕ → SwrrState × ℤ
settle s allowed_wans current total allowed_count best = (
  record s {
    current = set current best (get_or current best (pos 0) -ℤ total);
    tie_start = ((best + 1) % allowed_count) % 256;
  },
  get_or allowed_wans best (pos 0),
)

-- What follows the first loop.
unfoldable pub pick_earned : SwrrState → List ℤ → Option (List ℤ) → ℕ → List ℤ × ℤ → SwrrState × ℤ
pick_earned s allowed_wans weights allowed_count (current, total) =
    if ltb_ℤ (pos 0) total
    then settle s allowed_wans current total allowed_count (
        or_zero
          (richest weights current allowed_count s.tie_start allowed_count 0 (none, int64_min)).0)
    else (
      record s { current = current; tie_start = (s.tie_start + 1) % 256 },
      get_or allowed_wans (s.tie_start % allowed_count) (pos 0),
    )

unfoldable pub flow_swrr_pick : SwrrState → List ℤ → Option (List ℤ) → ℕ → SwrrState × ℤ
flow_swrr_pick s allowed_wans weights allowed_count =
    if allowed_count == 0
    then (s, pos 0)
    else if allowed_count == 1
    then (s, get_or allowed_wans 0 (pos 0))
    else pick_earned s allowed_wans weights allowed_count
        (earn weights allowed_count 0 s.current (pos 0))
