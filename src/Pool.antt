-- ===== src/Pool.antt =====
-- crates/mq/src/pool.rs: `PoolState`, which hands out values and makes new ones up to a maximum.
-- Values and waiters are numbers; a waiter may be dropped, so its `send` may fail. An operation
-- holds the lock to its end, and a connection is made outside it, so that is a step of its own.
pub mod Fairness
pub mod Counts
mod Tests
use minibot_rust.Base.{
  ℕ, zero, suc, ◌+◌, ◌-◌, ◌%◌, ◌^◌, Bool, true, false, List, [], ◌∷◌, ◌++◌, Option, none, some, ltb,
  leb, if◌then◌else◌, length,
}

-- The last value of `pooled_values` stands first in the list.
pub record Pool : Type 0 where
  pub max_values : ℕ
  pub min_values : ℕ
  pub max_pooled_values : ℕ
  pub num_live_values : ℕ
  pub pooled_values : List ℕ
  pub waiters : List ℕ

abbrev usize_mod : ℕ
usize_mod = 2 ^ 64

-- `new`, from the outcomes of its connections: the first that fails ends it.
unfoldable pub connect_all : List (Option ℕ) → List ℕ → Option (List ℕ)
connect_all [] pooled = some pooled
connect_all (none ∷ rest) pooled = none
connect_all (some v ∷ rest) pooled = connect_all rest (v ∷ pooled)

unfoldable pub new : ℕ → ℕ → List (Option ℕ) → Option Pool
unfolding connect_all
new max_values max_pooled_values connections = elim (connect_all connections []) [
  | none ↦ none
  | some pooled ↦ some (record {
    max_values = max_values;
    min_values = length connections;
    max_pooled_values = max_pooled_values;
    num_live_values = length connections;
    pooled_values = pooled;
    waiters = [];
  })
]

-- What a call of `take_value` goes on with: a pooled value, a new connection, or a wait.
pub data TakeResult : Type 0 where
  pooled : ℕ → TakeResult
  create_new : TakeResult
  wait_for_return : TakeResult

unfoldable pub take_value : ℕ → Pool → Pool × TakeResult
take_value waiter p = elim p.pooled_values [
  | value ∷ rest ↦ (record p { pooled_values = rest }, pooled value)
  | [] ↦
      if ltb p.num_live_values p.max_values
      then (record p { num_live_values = (p.num_live_values + 1) % usize_mod }, create_new)
      else (record p { waiters = p.waiters ++ waiter ∷ [] }, wait_for_return)
]

-- What becomes of a value that comes back.
pub data ReturnResult : Type 0 where
  dropped : ReturnResult
  given : ℕ → ReturnResult
  kept : ReturnResult

-- The loop: waiters whose receiver is gone are passed over.
unfoldable pub offer : (ℕ → Bool) → List ℕ → List ℕ × Option ℕ
offer alive [] = ([], none)
offer alive (w ∷ rest) = let later = offer alive rest in if alive w then (rest, some w) else later

unfoldable pub return_value : (ℕ → Bool) → ℕ → Pool → Pool × ReturnResult
unfolding offer
return_value alive value p =
    let (waiters, taker) = offer alive p.waiters in
    if leb p.max_pooled_values (length p.pooled_values)
    then (record p { num_live_values = (p.num_live_values + usize_mod - 1) % usize_mod }, dropped)
    else elim taker [
      | some w ↦ (record p { waiters = waiters }, given w)
      | none ↦ (record p { waiters = waiters; pooled_values = value ∷ p.pooled_values }, kept)
    ]
