-- ===== src/Iface/Pool.antt =====
-- src/core/iface/xdp_interface.c: the pool of free frames (`pool_*`, `ne_frame_*`). The spin lock
-- makes each operation one step.
pub mod Queue
use ne_encryptor.Prelude.{
  ℕ, zero, suc, ◌+◌, ◌-◌, ◌^◌, bit_and, Bool, true, false, Option, none, some, List, [], ◌∷◌, ltb,
  ◌==◌, ◌&&◌, ◌||◌, not, if◌then◌else◌, get_or, set, replicate, length,
}
use ne_encryptor.Iface.Window.{u32, sub32}

-- `struct ne_pool` of inc/core/iface/interface.h, without its lock
pub record Pool : Type 0 where
  pub buf : List ℕ
  pub cap : ℕ
  pub mask : ℕ
  pub head : ℕ
  pub tail : ℕ

unfoldable pub pool_init : ℕ → Bool → Bool → Option Pool
pool_init cap alloc_ok lock_ok =
    if cap == 0 || not (bit_and cap (cap - 1) == 0)
    then none
    else if not alloc_ok
    then none
    else if not lock_ok
    then none
    else some (record { buf = replicate cap 0; cap = cap; mask = cap - 1; head = 0; tail = 0 })

-- The loop of `pool_push`, over the first `n` addresses.
unfoldable pub fill_slots : ℕ → ℕ → List ℕ → ℕ → List ℕ → List ℕ
fill_slots zero mask buf head addrs = buf
fill_slots (suc n) mask buf head [] = buf
fill_slots (suc n) mask buf head (a ∷ addrs) =
    fill_slots n mask (set buf (bit_and head mask) a) (u32 (head + 1)) addrs

abbrev pub at_most : ℕ → ℕ → ℕ
at_most n limit = if ltb n limit then n else limit

-- The second part is how many addresses were taken in.
unfoldable pub pool_push : Pool → List ℕ → Pool × ℕ
pool_push p addrs =
    let put = at_most (length addrs) (sub32 p.cap (sub32 p.head p.tail)) in
    (record p { buf = fill_slots put p.mask p.buf p.head addrs; head = u32 (p.head + put) }, put)

-- The loop of `pool_pop`, over `n` slots.
unfoldable pub read_slots : ℕ → ℕ → List ℕ → ℕ → List ℕ
read_slots zero mask buf tail = []
read_slots (suc n) mask buf tail =
    get_or buf (bit_and tail mask) 0 ∷ read_slots n mask buf (u32 (tail + 1))

unfoldable pub pool_pop : Pool → ℕ → Pool × List ℕ
pool_pop p n =
    let got = at_most n (sub32 p.head p.tail) in
    (record p { tail = u32 (p.tail + got) }, read_slots got p.mask p.buf p.tail)

unfoldable pub frame_alloc : Pool → Pool × Option ℕ
frame_alloc p = ((pool_pop p 1).0, elim ((pool_pop p 1).1) [ [] ↦ none | a ∷ addrs ↦ some a ])

unfoldable pub frame_alloc_batch : Pool → ℕ → Pool × List ℕ
frame_alloc_batch p max_n = if max_n == 0 then (p, []) else pool_pop p max_n

unfoldable pub frame_free : Pool → ℕ → Pool
frame_free p addr = (pool_push p (addr ∷ [])).0

unfoldable pub pool_free_count : Pool → ℕ
pool_free_count p = sub32 p.head p.tail
