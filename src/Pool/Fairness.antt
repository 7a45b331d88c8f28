-- ===== src/Pool/Fairness.antt =====
-- crates/mq/src/pool.rs: the waiters of a `PoolState`.
use minibot_rust.Base.{
  ℕ, ◌<◌, Bool, List, [], ◌∷◌, Option, none, some, leb, if◌then◌else◌, length, ◌≡◌, ◌⊎◌, refl,
  arith,
}
use minibot_rust.Pool.{Pool, take_value, offer, return_value, dropped, given, kept}

-- Nobody waits while a value is pooled.
abbrev pub IsFair : Pool → Type 0
IsFair p = (p.pooled_values ≡ []) ⊎ (p.waiters ≡ [])

offer-none : (alive : ℕ → Bool) (ws : List ℕ) → (offer alive ws).1 ≡ none → (offer alive ws).0 ≡ []
unfolding offer
offer-none alive [] h = refl
offer-none alive (w ∷ rest) h = ground (arith, offer-none alive rest)

offer-nil : (alive : ℕ → Bool) (ws : List ℕ) → ws ≡ [] → (offer alive ws).0 ≡ []
unfolding offer
offer-nil alive [] h = refl
offer-nil alive (w ∷ rest) h = ground arith

-- Taking a value keeps it so.
pub take_value-IsFair : (waiter : ℕ) (p : Pool) → IsFair p → IsFair (take_value waiter p).0
unfolding take_value
take_value-IsFair waiter p h = ground arith

-- When nobody waits while a value is pooled, that stays so when a value comes back.
pub return_value-IsFair :
    (alive : ℕ → Bool) (value : ℕ) (p : Pool) → IsFair p → IsFair (return_value alive value p).0
unfolding return_value
return_value-IsFair alive value p h =
    ground (arith, offer-none alive p.waiters, offer-nil alive p.waiters)

-- The first waiter that is still there.
abbrev pub first_live : (ℕ → Bool) → List ℕ → Option ℕ
first_live alive [] = none
first_live alive (w ∷ rest) = if alive w then some w else first_live alive rest

offer-first : (alive : ℕ → Bool) (ws : List ℕ) → (offer alive ws).1 ≡ first_live alive ws
unfolding offer
offer-first alive [] = refl
offer-first alive (w ∷ rest) = ground (arith, offer-first alive rest)

-- In a pool where nobody waits while a value is pooled, and that may keep a value at all, a value
-- that comes back goes to the first waiter that is still there; with no such waiter it is pooled,
-- unless the pool is full.
pub return_value-first :
    (alive : ℕ → Bool) (value : ℕ) (p : Pool)
    → IsFair p
    → 0 < p.max_pooled_values
    → (return_value alive value p).1 ≡ elim (first_live alive p.waiters) [
      | some w ↦ given w
      | none ↦ if leb p.max_pooled_values (length p.pooled_values) then dropped else kept
    ]
unfolding return_value
return_value-first alive value p h m = ground (arith, offer-first alive p.waiters)
