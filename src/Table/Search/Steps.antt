-- ===== src/Table/Search/Steps.antt =====
-- crates/server/src/util/table/index_store.rs: single steps of the search of `find_range`.
use minibot_rust.Base.{ℕ, suc, ◌+◌, ◌-◌, ◌/◌, ◌≤◌, ◌<◌, some, ◌≡◌, ◌≢◌, ◌⊎◌, arith}
use minibot_rust.Table.{Finder, found, absent, settle, halve, widen_down, widen_up}

pub order-cases : (a b : ℕ) → (a < b) ⊎ (a ≡ b) ⊎ (b < a)
order-cases a b = ground arith

pub settle-less :
    (f : Finder) (k base c : ℕ)
    → f base ≡ some c
    → c < k
    → settle f k base ≡ some (absent (base + 1))
unfolding settle
settle-less f k base c e h = rw e ground arith

pub settle-same : (f : Finder) (k base : ℕ) → f base ≡ some k → settle f k base ≡ some (found base)
unfolding settle
settle-same f k base e = rw e ground arith

pub settle-more :
    (f : Finder) (k base c : ℕ) → f base ≡ some c → k < c → settle f k base ≡ some (absent base)
unfolding settle
settle-more f k base c e h = rw e ground arith

module _ (fuel : ℕ) (f : Finder) (k base size : ℕ) where
  pub halve-one : size ≤ 1 → halve (suc fuel) f k base size ≡ settle f k base
  unfolding halve
  halve-one h = ground arith

  pub halve-left :
      (c : ℕ)
      → 1 < size
      → f (base + size / 2) ≡ some c
      → k < c
      → halve (suc fuel) f k base size ≡ halve fuel f k base (size - size / 2)
  unfolding halve
  halve-left c h e l = rw e ground arith

  pub halve-right :
      (c : ℕ)
      → 1 < size
      → f (base + size / 2) ≡ some c
      → c ≤ k
      → halve (suc fuel) f k base size ≡ halve fuel f k (base + size / 2) (size - size / 2)
  unfolding halve
  halve-right c h e l = rw e ground arith

module _ (f : Finder) (k : ℕ) where
  pub widen_down-same : (s : ℕ) → f s ≡ some k → widen_down f k (suc s) ≡ widen_down f k s
  unfolding widen_down
  widen_down-same s e = rw e ground arith

  pub widen_down-other : (s c : ℕ) → f s ≡ some c → c ≢ k → widen_down f k (suc s) ≡ some (suc s)
  unfolding widen_down
  widen_down-other s c e h = rw e ground arith

  pub widen_up-same :
      (left e : ℕ) → f e ≡ some k → widen_up (suc left) f k e ≡ widen_up left f k (e + 1)
  unfolding widen_up
  widen_up-same left e h = rw h ground arith

  pub widen_up-other : (left e c : ℕ) → f e ≡ some c → c ≢ k → widen_up (suc left) f k e ≡ some e
  unfolding widen_up
  widen_up-other left e c h d = rw h ground arith
