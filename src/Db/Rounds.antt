-- ===== src/Db/Rounds.antt =====
-- crates/db-postgres/src/pool.rs: how the rounds of a transaction end.
use minibot_rust.Base.{
  ℕ, ◌≡◌, ◌≢◌, refl, ap, ◌∙◌, true, false, List, [], ◌∷◌, Option, none, some, ◌⊎◌, inl, inr, codes,
  eq_bytes, eq_bytes_iff, Outcome, ok, err, panic, out_of_fuel, Option-cases, Bool-cases,
}
use minibot_rust.Db.{
  DbError, Round, Step, started, called, committed, rolled_back, commit_failed,
  is_serialization_failure, after_commit, after_rollback, after_call, loop_body, with_tx_builder,
}

-- The SQLSTATE with which PostgreSQL says that it has given a transaction up for another one.
abbrev pub IsSerialization : DbError → Type 0
IsSerialization e = e.code ≡ some (codes "40001")

differs-code :
    (e : DbError) (code : List ℕ)
    → e.code ≡ some code
    → eq_bytes code (codes "40001") ≡ false
    → e.code ≢ some (codes "40001")
differs-code e code coded other h =
    let same : code ≡ codes "40001" = cc in
    let equal = (eq_bytes_iff code (codes "40001")).1 same in cc

IsSerialization-cases :
    (e : DbError)
    → (IsSerialization e × (is_serialization_failure e ≡ true))
      ⊎ ((e.code ≢ some (codes "40001")) × (is_serialization_failure e ≡ false))
unfolding is_serialization_failure
IsSerialization-cases e = elim (Option-cases e.code) [
  | inl uncoded ↦ inr (λ h. cc, rw (uncoded, is_serialization_failure) refl)
  | inr (code, coded) ↦ elim (Bool-cases (eq_bytes code (codes "40001"))) [
    | inl same ↦ inl (
      coded ∙ ap (λ c. some c) ((eq_bytes_iff code (codes "40001")).0 same),
      rw (coded, is_serialization_failure) same,
    )
    | inr other ↦ inr (differs-code e code coded other, rw (coded, is_serialization_failure) other)
  ]
]

module _ {T E : Type 0} (from : DbError → E) where
  -- A round whose transaction the database gives up for another one at the commit.
  abbrev pub Conflict : Round T E → DbError → Type 0
  Conflict round e =
      (v : T) × (round.start ≡ none)
      × (round.func ≡ ok v)
      × (round.commit ≡ some e)
      × IsSerialization e

  -- The other rounds, with the result of the whole and the steps of the round.
  pub data Decides (round : Round T E) : Outcome E T → List Step → Type 0 where
    no_start : (e : DbError) → round.start ≡ some e → Decides round (err (from e)) []
    value :
        (v : T)
        → round.start ≡ none
        → round.func ≡ ok v
        → round.commit ≡ none
        → Decides round (ok v) (started ∷ called ∷ committed ∷ [])
    no_commit :
        (v : T) (e : DbError)
        → round.start ≡ none
        → round.func ≡ ok v
        → round.commit ≡ some e
        → e.code ≢ some (codes "40001")
        → Decides round (err (from e)) (started ∷ called ∷ commit_failed e ∷ [])
    rolled :
        (e : E)
        → round.start ≡ none
        → round.func ≡ err e
        → round.rollback ≡ none
        → Decides round (err e) (started ∷ called ∷ rolled_back ∷ [])
    no_rollback :
        (e : E) (failure : DbError)
        → round.start ≡ none
        → round.func ≡ err e
        → round.rollback ≡ some failure
        → Decides round (err (from failure)) (started ∷ called ∷ [])
    panics : round.start ≡ none → round.func ≡ panic → Decides round panic (started ∷ called ∷ [])
    no_fuel :
        round.start ≡ none
        → round.func ≡ out_of_fuel
        → Decides round out_of_fuel (started ∷ called ∷ [])

  -- What one round comes to.
  abbrev Settled : Round T E → Type 0
  Settled round =
      ((e : DbError) × Conflict round e
        × (loop_body from round ≡ (none, started ∷ called ∷ commit_failed e ∷ [])))
      ⊎ ((r : Outcome E T) × (steps : List Step) × Decides round r steps
          × (loop_body from round ≡ (some r, steps)))

  Outcome-cases :
      (o : Outcome E T)
      → ((v : T) × (o ≡ ok v)) ⊎ (((e : E) × (o ≡ err e)) ⊎ ((o ≡ panic) ⊎ (o ≡ out_of_fuel)))
  Outcome-cases (ok v) = inl (v, refl)
  Outcome-cases (err e) = inr (inl (e, refl))
  Outcome-cases panic = inr (inr (inl refl))
  Outcome-cases out_of_fuel = inr (inr (inr refl))

  commit-Settled :
      (round : Round T E) (v : T) → round.start ≡ none → round.func ≡ ok v → Settled round
  unfolding loop_body after_call after_commit
  commit-Settled round v starts gives = elim (Option-cases round.commit) [
    | inl commits ↦ inr (
      ok v,
      started ∷ called ∷ committed ∷ [],
      value v starts gives commits,
      rw (starts, loop_body, gives, after_call, commits, after_commit) refl,
    )
    | inr (e, fails) ↦ elim (IsSerialization-cases e) [
      | inl (same, again) ↦ inl (
        e,
        (v, starts, gives, fails, same),
        rw (starts, loop_body, gives, after_call, fails, after_commit, again) refl,
      )
      | inr (other, over) ↦ inr (
        err (from e),
        started ∷ called ∷ commit_failed e ∷ [],
        no_commit v e starts gives fails other,
        rw (starts, loop_body, gives, after_call, fails, after_commit, over) refl,
      )
    ]
  ]

  rollback-Settled :
      (round : Round T E) (e : E) → round.start ≡ none → round.func ≡ err e → Settled round
  unfolding loop_body after_call after_rollback
  rollback-Settled round e starts fails = elim (Option-cases round.rollback) [
    | inl rolls ↦ inr (
      err e,
      started ∷ called ∷ rolled_back ∷ [],
      rolled e starts fails rolls,
      rw (starts, loop_body, fails, after_call, rolls, after_rollback) refl,
    )
    | inr (failure, stays) ↦ inr (
      err (from failure),
      started ∷ called ∷ [],
      no_rollback e failure starts fails stays,
      rw (starts, loop_body, fails, after_call, stays, after_rollback) refl,
    )
  ]

  round-Settled : (round : Round T E) → Settled round
  unfolding loop_body after_call
  round-Settled round = elim (Option-cases round.start) [
    | inr (e, fails) ↦ inr (err (from e), [], no_start e fails, rw (fails, loop_body) refl)
    | inl starts ↦ elim (Outcome-cases round.func) [
      | inl (v, gives) ↦ commit-Settled round v starts gives
      | inr (inl (e, fails)) ↦ rollback-Settled round e starts fails
      | inr (inr (inl over)) ↦ inr (
        panic,
        started ∷ called ∷ [],
        panics starts over,
        rw (starts, loop_body, over, after_call) refl,
      )
      | inr (inr (inr over)) ↦ inr (
        out_of_fuel,
        started ∷ called ∷ [],
        no_fuel starts over,
        rw (starts, loop_body, over, after_call) refl,
      )
    ]
  ]

  -- How the loop goes over rounds: conflicts come first, each of which starts a transaction, calls
  -- the function and tries to commit; behind them it has not returned yet, or a round decides.
  pub data Goes : List (Round T E) → Option (Outcome E T) → List Step → Type 0 where
    waiting : Goes [] none []
    again :
        {round : Round T E} {rounds : List (Round T E)} {r : Option (Outcome E T)}
        {steps : List Step} (e : DbError)
        → Conflict round e
        → Goes rounds r steps
        → Goes (round ∷ rounds) r (started ∷ called ∷ commit_failed e ∷ steps)
    decided :
        {round : Round T E} {rounds : List (Round T E)} {r : Outcome E T} {steps : List Step}
        → Decides round r steps
        → Goes (round ∷ rounds) (some r) steps

  -- `with_tx_builder` starts over behind every round whose commit fails with the SQLSTATE 40001, and
  -- behind no other. Any other round ends it: with the value of the function when the commit goes
  -- through, with the error of the start or of the commit, with the error of the function when the
  -- rollback goes through and with that of the rollback when it does not, or with a panic. In each
  -- round whose transaction starts the function is called once, and behind it the commit goes through
  -- or fails when the function has given a value, and the rollback may go through when it has given
  -- an error.
  pub with_tx_builder-Goes :
      (rounds : List (Round T E))
      → Goes rounds (with_tx_builder from rounds).0 (with_tx_builder from rounds).1
  unfolding with_tx_builder
  with_tx_builder-Goes [] = waiting
  with_tx_builder-Goes (round ∷ rounds) = elim (round-Settled round) [
    | inl (e, conflict, step) ↦
        rw (ap (λ r. r.0) step, with_tx_builder, ap (λ r. r.1) step)
          (again e conflict (with_tx_builder-Goes rounds))
    | inr (r, steps, decides, step) ↦
        rw (ap (λ r. r.0) step, with_tx_builder, ap (λ r. r.1) step) (decided decides)
  ]
