-- ===== src/Pool/Tests.antt =====
-- Concrete runs of the pool.
use minibot_rust.Base.{◌+◌, ◌≤◌, [], ◌∷◌, length, ◌≡◌, refl, arith}
use minibot_rust.Pool.{Pool, take_value, create_new}
use minibot_rust.Pool.Counts.{World, Reaches, here, later, create, IsCounted, Reaches-bounded}

abbrev small : Pool
small = record {
  max_values = 1;
  min_values = 0;
  max_pooled_values = 1;
  num_live_values = 0;
  pooled_values = [];
  waiters = [];
}

abbrev waited_for : Pool
waited_for = record {
  max_values = 1;
  min_values = 0;
  max_pooled_values = 1;
  num_live_values = 1;
  pooled_values = [];
  waiters = 7 ∷ 8 ∷ [];
}

abbrev initial : World
initial = record { pool = small; in_use = 0; connecting = 0; failed = 0 }

-- The only connection failed.
abbrev broken : World
broken = record {
  pool = record small { num_live_values = 1 };
  in_use = 0;
  connecting = 0;
  failed = 1;
}

takes : (take_value 7 small).1 ≡ create_new
unfolding take_value
takes = refl

abbrev one_step : World
one_step = record initial { pool = (take_value 7 small).0; connecting = 1 }

one_step-Reaches : Reaches initial one_step
one_step-Reaches = later (create 7 takes) here

Reaches-bounded_example : IsCounted one_step × (length one_step.pool.pooled_values + 0 + 1 + 0 ≤ 1)
Reaches-bounded_example = Reaches-bounded one_step-Reaches (ground arith)
