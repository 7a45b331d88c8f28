-- ===== src/Pool/Counts.antt =====
-- crates/mq/src/pool.rs: the count of live values along the steps of a `PoolState`.
use minibot_rust.Base.{ℕ, ◌+◌, ◌-◌, ◌^◌, ◌<◌, ◌≤◌, Bool, [], length, ◌≡◌, refl, arith}
use minibot_rust.Pool.{
  Pool, take_value, pooled, create_new, wait_for_return, return_value, dropped, given, kept,
}

-- A pool and what is outside it: the values in use, the connections on their way, and how many have
-- failed so far, which the pool itself keeps no record of.
pub record World : Type 0 where
  pub pool : Pool
  pub in_use : ℕ
  pub connecting : ℕ
  pub failed : ℕ

-- What may happen: a value is wanted, a connection comes to its end, a value in use comes back.
pub data Step : World → World → Type 0 where
  take :
      {w : World} (waiter : ℕ) (v : ℕ)
      → (take_value waiter w.pool).1 ≡ pooled v
      → Step w (record w { pool = (take_value waiter w.pool).0; in_use = w.in_use + 1 })
  create :
      {w : World} (waiter : ℕ)
      → (take_value waiter w.pool).1 ≡ create_new
      → Step w (record w { pool = (take_value waiter w.pool).0; connecting = w.connecting + 1 })
  wait :
      {w : World} (waiter : ℕ)
      → (take_value waiter w.pool).1 ≡ wait_for_return
      → Step w (record w { pool = (take_value waiter w.pool).0 })
  connected :
      {w : World}
      → 0 < w.connecting
      → Step w (record w { in_use = w.in_use + 1; connecting = w.connecting - 1 })
  failed_connect :
      {w : World}
      → 0 < w.connecting
      → Step w (record w { connecting = w.connecting - 1; failed = w.failed + 1 })
  drop_value :
      {w : World} (alive : ℕ → Bool) (v : ℕ)
      → 0 < w.in_use
      → (return_value alive v w.pool).1 ≡ dropped
      → Step w (record w { pool = (return_value alive v w.pool).0; in_use = w.in_use - 1 })
  keep_value :
      {w : World} (alive : ℕ → Bool) (v : ℕ)
      → 0 < w.in_use
      → (return_value alive v w.pool).1 ≡ kept
      → Step w (record w { pool = (return_value alive v w.pool).0; in_use = w.in_use - 1 })
  give_value :
      {w : World} (alive : ℕ → Bool) (v waiter : ℕ)
      → 0 < w.in_use
      → (return_value alive v w.pool).1 ≡ given waiter
      → Step w (record w { pool = (return_value alive v w.pool).0 })

pub data Reaches : World → World → Type 0 where
  here : {w : World} → Reaches w w
  later : {w next last : World} → Step w next → Reaches next last → Reaches w last

-- The count is the number of values that are pooled, in use or being connected, plus one for every
-- connection that has failed, though nothing is there for it; and it is within the maximum.
abbrev pub IsCounted : World → Type 0
IsCounted w =
    (w.pool.num_live_values ≡ length w.pool.pooled_values + w.in_use + w.connecting + w.failed)
    × (w.pool.num_live_values ≤ w.pool.max_values)
    × (w.pool.max_values < 2 ^ 64)

abbrev Keeps : World → World → Type 0
Keeps w next =
    IsCounted next × (next.pool.max_values ≡ w.pool.max_values) × (w.failed ≤ next.failed)

step-Keeps : {w next : World} → Step w next → IsCounted w → Keeps w next
unfolding take_value return_value
step-Keeps (take waiter v e) h = ground (arith, e, h)
step-Keeps (create waiter e) h = ground (arith, e, h)
step-Keeps (wait waiter e) h = ground (arith, e, h)
step-Keeps (connected p) h = ground (arith, p, h)
step-Keeps (failed_connect p) h = ground (arith, p, h)
step-Keeps (drop_value alive v p e) h = ground (arith, p, e, h)
step-Keeps (keep_value alive v p e) h = ground (arith, p, e, h)
step-Keeps (give_value alive v waiter p e) h = ground (arith, p, e, h)

Reaches-Keeps : {w last : World} → Reaches w last → IsCounted w → Keeps w last
Reaches-Keeps here h = (h, refl, omega arith)
Reaches-Keeps (later s rest) h =
    let (h', m, f) = step-Keeps s h in
    let (h'', m', f') = Reaches-Keeps rest h' in (h'', omega (arith, m, m'), omega (arith, f, f'))

-- In every world that steps of the pool reach from one where this holds, num_live_values is the
-- number of values that are pooled, in use or being connected, plus one for every connection that
-- has failed, as a failure is never taken off the count: it overstates what is there by the
-- failures. So values and failures are together no more than the maximum.
pub Reaches-bounded :
    {w last : World}
    → Reaches w last
    → IsCounted w
    → IsCounted last
      × (length last.pool.pooled_values + last.in_use + last.connecting + last.failed
          ≤ w.pool.max_values)
Reaches-bounded r h = let (h', m, f) = Reaches-Keeps r h in (h', omega (arith, h', m))

-- Where the count is so and as many connections have failed as the maximum, then in every world
-- that is reached a call waits, and no value is pooled, in use or being connected.
pub failures_exhaust :
    {w last : World} (waiter : ℕ)
    → Reaches w last
    → IsCounted w
    → w.failed ≡ w.pool.max_values
    → ((take_value waiter last.pool).1 ≡ wait_for_return)
      × (last.pool.pooled_values ≡ [])
      × (last.in_use ≡ 0)
      × (last.connecting ≡ 0)
unfolding take_value
failures_exhaust {w} {last} waiter r h all_failed =
    let (h', m, f) = Reaches-Keeps r h in ground (arith, h', m, f, all_failed)
