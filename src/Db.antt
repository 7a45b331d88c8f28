-- ===== src/Db.antt =====
-- crates/db-postgres/src/pool.rs: a function in a transaction, again and again while the commit fails
-- with a serialization failure. The database is outside: for each round, what it answers to `start`,
-- `commit` and `rollback`, and what the function makes of it. Whether a commit that fails has been
-- carried out all the same is for the theorems to say.
pub mod Rounds
pub mod Commits
mod Tests
use minibot_rust.Base.{
  ℕ, Bool, true, false, List, [], ◌∷◌, ◌++◌, Option, none, some, codes, Outcome, ok, err, panic,
  out_of_fuel, eq_bytes, if◌then◌else◌,
}

-- `tokio_postgres::Error`, by its SQLSTATE if it has one, and a number that tells errors apart.
pub record DbError : Type 0 where
  pub code : Option (List ℕ)
  pub number : ℕ

-- `SqlState::T_R_SERIALIZATION_FAILURE`.
abbrev pub serialization_failure : List ℕ
serialization_failure = codes "40001"

-- What a call of the loop body meets.
pub record Round (T E : Type 0) : Type 0 where
  pub start : Option DbError
  pub func : Outcome E T
  pub commit : Option DbError
  pub rollback : Option DbError

-- What the loop body does to the database, in order. A start or a rollback that fails is no step; a
-- commit that fails is one, as what the database has done by then is left open.
pub data Step : Type 0 where
  started called committed rolled_back : Step
  commit_failed : DbError → Step

-- The test of the error of a commit.
unfoldable pub is_serialization_failure : DbError → Bool
unfolding eq_bytes
is_serialization_failure e = elim e.code [
  | none ↦ false
  | some code ↦ eq_bytes code serialization_failure
]

module _ {T E : Type 0} (from : DbError → E) where
  -- What a call of the loop body gives: the result that it returns, or `none` for `continue`.
  unfoldable pub after_commit : T → Option DbError → Option (Outcome E T) × List Step
  unfolding is_serialization_failure
  after_commit v none = (some (ok v), committed ∷ [])
  after_commit v (some e) =
      if is_serialization_failure e
      then (none, commit_failed e ∷ [])
      else (some (err (from e)), commit_failed e ∷ [])

  unfoldable pub after_rollback : E → Option DbError → Option (Outcome E T) × List Step
  after_rollback e none = (some (err e), rolled_back ∷ [])
  after_rollback e (some failure) = (some (err (from failure)), [])

  unfoldable pub after_call : Round T E → Outcome E T → Option (Outcome E T) × List Step
  unfolding after_commit after_rollback
  after_call round (ok v) = after_commit v round.commit
  after_call round (err e) = after_rollback e round.rollback
  after_call round panic = (some panic, [])
  after_call round out_of_fuel = (some out_of_fuel, [])

  unfoldable pub loop_body : Round T E → Option (Outcome E T) × List Step
  unfolding after_call
  loop_body round = elim round.start [
    | some e ↦ (some (err (from e)), [])
    | none ↦ ((after_call round round.func).0, started ∷ called ∷ (after_call round round.func).1)
  ]

  -- `DbConn::with_tx_builder` over the rounds that come; `none` when it has not returned by then.
  unfoldable pub with_tx_builder : List (Round T E) → Option (Outcome E T) × List Step
  unfolding loop_body
  with_tx_builder [] = (none, [])
  with_tx_builder (round ∷ rounds) = elim ((loop_body round).0) [
    | some result ↦ (some result, (loop_body round).1)
    | none ↦ ((with_tx_builder rounds).0, (loop_body round).1 ++ (with_tx_builder rounds).1)
  ]

  -- `DbHandle::with_tx`, with what `get` of the pool gives.
  unfoldable pub with_tx : Option E → List (Round T E) → Option (Outcome E T) × List Step
  unfolding with_tx_builder
  with_tx (some no_connection) rounds = (some (err no_connection), [])
  with_tx none rounds = with_tx_builder rounds
