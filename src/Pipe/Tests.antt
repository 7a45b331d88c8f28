-- ===== src/Pipe/Tests.antt =====
-- Concrete runs of the pipes.
use minibot_rust.Base.{ℕ, ◌≡◌, refl, Bool, true, false, List, [], ◌∷◌, Option, none, some}
use minibot_rust.Pipe.{Either, left, right, Sink, try_map_pipe, in_stream}
use minibot_rust.Pipe.Results.{try_map_pipe-oks, results, oks, first_error}
use minibot_rust.Pipe.Cloner.{Event, item, next_sender, run_cloner}
use minibot_rust.Pipe.Cloner.FanOut.{run_cloner-each, cloner, fresh}

abbrev empty : ℕ → Sink ℕ
empty room = record { taken = []; room = room }

-- The even positions are dropped; the state is the position.
abbrev odd_places : Bool → ℕ → Option ℕ × Bool
odd_places true n = (some n, false)
odd_places false n = (none, true)

abbrev by_parity : Bool → ℕ → Either ℕ ℕ × Bool
by_parity true n = (left n, false)
by_parity false n = (right n, true)

try_map_pipe-oks_example :
    try_map_pipe by_parity true (7 ∷ 8 ∷ 9 ∷ []) (empty 2)
    ≡ (some (in_stream 8), record { taken = 7 ∷ []; room = 1 })
unfolding results oks first_error
try_map_pipe-oks_example = try_map_pipe-oks by_parity true (7 ∷ 8 ∷ 9 ∷ []) (empty 2)

abbrev one_bad : List (Either ℕ ℕ)
one_bad = left 7 ∷ right 8 ∷ []

abbrev events : List (Event ℕ)
events = item (some 7) ∷ next_sender (some (fresh [])) ∷ item (some 8) ∷ []

abbrev got_before : List (List ℕ)
got_before = (1 ∷ []) ∷ []

abbrev got_after : List (List ℕ)
got_after = (1 ∷ 7 ∷ 8 ∷ []) ∷ (8 ∷ []) ∷ []

run_cloner-each_example : run_cloner events (cloner got_before) ≡ cloner got_after
run_cloner-each_example = run_cloner-each events got_before (tt, (refl, (tt, tt)))
