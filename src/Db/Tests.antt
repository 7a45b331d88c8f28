-- ===== src/Db/Tests.antt =====
-- Concrete runs of a transaction.
use minibot_rust.Base.{ℕ, ◌≡◌, refl, Bool, true, false, [], ◌∷◌, none, some, ok, err, eq_bytes}
use minibot_rust.Db.{
  DbError, Round, started, called, committed, commit_failed, serialization_failure, with_tx_builder,
  with_tx,
}
use minibot_rust.Db.Rounds.{IsSerialization, Goes, with_tx_builder-Goes}
use minibot_rust.Db.Commits.{effects, Verdict, effects-with_tx}

abbrev conflict : DbError
conflict = record { code = some serialization_failure; number = 1 }

abbrev lost : DbError
lost = record { code = none; number = 2 }

abbrev busy : Round ℕ ℕ
busy = record { start = none; func = ok 7; commit = some conflict; rollback = none }

abbrev good : Round ℕ ℕ
good = record { start = none; func = ok 8; commit = none; rollback = none }

-- The function fails, and the rollback too.
abbrev bad : Round ℕ ℕ
bad = record { start = none; func = err 9; commit = none; rollback = some lost }

abbrev number_of : DbError → ℕ
number_of e = e.number

-- The commit fails as its connection is lost.
abbrev cut : Round ℕ ℕ
cut = record { start = none; func = ok 8; commit = some lost; rollback = none }

with_tx_builder-Goes_example :
    Goes number_of
      (busy ∷ busy ∷ good ∷ bad ∷ [])
      (with_tx_builder number_of (busy ∷ busy ∷ good ∷ bad ∷ [])).0
      (with_tx_builder number_of (busy ∷ busy ∷ good ∷ bad ∷ [])).1
with_tx_builder-Goes_example = with_tx_builder-Goes number_of (busy ∷ busy ∷ good ∷ bad ∷ [])

retried_run :
    with_tx_builder number_of (busy ∷ good ∷ bad ∷ [])
    ≡ (some (ok 8), started ∷ called ∷ commit_failed conflict ∷ started ∷ called ∷ committed ∷ [])
unfolding with_tx_builder eq_bytes
retried_run = refl

-- An error without a code was carried out all the same.
abbrev uncoded : DbError → Bool
uncoded e = elim e.code [ none ↦ true | some code ↦ false ]

coded : (e : DbError) → IsSerialization e → uncoded e ≡ false
coded e h = rw h refl

effects-with_tx_example :
    Verdict number_of uncoded
      (with_tx number_of none (busy ∷ cut ∷ [])).0
      (effects uncoded (with_tx number_of none (busy ∷ cut ∷ [])).1)
effects-with_tx_example = effects-with_tx number_of uncoded none (busy ∷ cut ∷ []) coded

lost_run : with_tx number_of none (busy ∷ cut ∷ []) ≡ (
  some (err 2),
  started ∷ called ∷ commit_failed conflict ∷ started ∷ called ∷ commit_failed lost ∷ [],
)
unfolding with_tx eq_bytes
lost_run = refl

-- The error of the rollback hides that of the function.
hidden_run : with_tx_builder number_of (bad ∷ []) ≡ (some (err 2), started ∷ called ∷ [])
unfolding with_tx_builder
hidden_run = refl

waiting_run : (with_tx_builder number_of (busy ∷ busy ∷ [])).0 ≡ none
unfolding with_tx_builder eq_bytes
waiting_run = refl
