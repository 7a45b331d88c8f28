-- ===== src/TokenSource/Tests.antt =====
-- Concrete runs of the token source.
use minibot_rust.Base.{◌+◌, ◌-◌, ◌≤◌, ◌^◌, min, true, [], ◌∷◌, length, ◌≡◌, refl, arith}
use minibot_rust.TokenSource.{State, add_tokens}
use minibot_rust.TokenSource.Fairness.{live, add_tokens_conserves}
use minibot_rust.TokenSource.Overrun.{add_tokens_overrun}

-- One runs of two, and three wait.
abbrev busy : State
busy = record { curr_tokens = 0; curr_running = 1; notifiers = 7 ∷ 8 ∷ 9 ∷ [] }

abbrev full : State
full = record { curr_tokens = 0; curr_running = 2; notifiers = 7 ∷ 8 ∷ [] }

add_tokens_conserves_example :
    ((add_tokens 2 (λ _. true) 3 busy).0.curr_tokens
        + (add_tokens 2 (λ _. true) 3 busy).0.curr_running
      ≡ 0 + 1 + min 3 (2 - 1))
    × ((add_tokens 2 (λ _. true) 3 busy).0.curr_running
        ≡ 1 + length (add_tokens 2 (λ _. true) 3 busy).1)
add_tokens_conserves_example =
    add_tokens_conserves 2 3 (λ _. true) busy (omega arith) (omega arith) (omega arith)

add_tokens_overrun_example :
    ((add_tokens 2 (λ _. true) 1 full).1 ≡ live (λ _. true) (7 ∷ 8 ∷ []))
    × (2 ^ 63 ≤ (add_tokens 2 (λ _. true) 1 full).0.curr_tokens)
add_tokens_overrun_example =
    add_tokens_overrun 2 1 7 (λ _. true) (8 ∷ []) full (omega arith) (omega arith) refl refl refl
      (omega arith)
