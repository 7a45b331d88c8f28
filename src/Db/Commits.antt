-- ===== src/Db/Commits.antt =====
-- crates/db-postgres/src/pool.rs: how many transactions have taken effect when the loop is over.
use minibot_rust.Base.{
  ℕ, ◌+◌, ◌≡◌, refl, Bool, true, false, List, [], ◌∷◌, Option, none, some, ◌⊎◌, inl, inr, Outcome,
  ok, err, panic, out_of_fuel, Bool-cases, if◌then◌else◌,
}
use minibot_rust.Db.{
  DbError, Round, Step, started, called, committed, rolled_back, commit_failed, with_tx,
}
use minibot_rust.Db.Rounds.{
  IsSerialization, Decides, no_start, value, no_commit, rolled, no_rollback, panics, no_fuel, Goes,
  waiting, again, decided, with_tx_builder-Goes,
}

-- How many transactions of the steps have taken effect, when `lost` says which of the commits that
-- failed have been carried out all the same, with only their answer lost.
abbrev pub effects : (DbError → Bool) → List Step → ℕ
effects lost [] = 0
effects lost (started ∷ steps) = effects lost steps
effects lost (called ∷ steps) = effects lost steps
effects lost (committed ∷ steps) = 1 + effects lost steps
effects lost (rolled_back ∷ steps) = effects lost steps
effects lost (commit_failed e ∷ steps) =
    let rest = effects lost steps in if lost e then 1 + rest else rest

module _ {T E : Type 0} (from : DbError → E) (lost : DbError → Bool) where
  -- One for a value, and none for anything else, but for the error of a commit whose answer was lost.
  abbrev pub Verdict : Option (Outcome E T) → ℕ → Type 0
  Verdict none n = n ≡ 0
  Verdict (some (ok v)) n = n ≡ 1
  Verdict (some panic) n = n ≡ 0
  Verdict (some out_of_fuel) n = n ≡ 0
  Verdict (some (err e)) n = (n ≡ 0) ⊎ ((n ≡ 1) × (c : DbError) × (lost c ≡ true) × (e ≡ from c))

  Decides-Verdict :
      {round : Round T E} {r : Outcome E T} {steps : List Step}
      → Decides from round r steps
      → Verdict (some r) (effects lost steps)
  Decides-Verdict (no_start e starts) = inl refl
  Decides-Verdict (value v starts gives commits) = refl
  Decides-Verdict (no_commit v e starts gives fails other) = elim (Bool-cases (lost e)) [
    | inl done ↦ inr (rw done refl, e, done, refl)
    | inr undone ↦ inl (rw undone refl)
  ]
  Decides-Verdict (rolled e starts fails rolls) = inl refl
  Decides-Verdict (no_rollback e failure starts fails stays) = inl refl
  Decides-Verdict (panics starts over) = refl
  Decides-Verdict (no_fuel starts over) = refl

  Goes-Verdict :
      {rounds : List (Round T E)} {r : Option (Outcome E T)} {steps : List Step}
      → ((e : DbError) → IsSerialization e → lost e ≡ false)
      → Goes from rounds r steps
      → Verdict r (effects lost steps)
  Goes-Verdict undone waiting = refl
  Goes-Verdict undone (again {r = r} e conflict goes) =
      rw (undone e conflict.4) (Goes-Verdict undone goes)
  Goes-Verdict undone (decided decides) = Decides-Verdict decides

  -- When a transaction that the database gives up with SQLSTATE 40001 has no effect, as PostgreSQL
  -- has it, then `with_tx`, however often it starts over, leaves the effect of exactly one
  -- transaction when it gives a value, and of none while it has not returned, when it panics, or when
  -- it gives an error; but when this is the error of a commit that was carried out all the same, and
  -- only its answer was lost, it may be one.
  pub effects-with_tx :
      (got : Option E) (rounds : List (Round T E))
      → ((e : DbError) → IsSerialization e → lost e ≡ false)
      → Verdict (with_tx from got rounds).0 (effects lost (with_tx from got rounds).1)
  unfolding with_tx
  effects-with_tx (some no_connection) rounds undone = inl refl
  effects-with_tx none rounds undone = Goes-Verdict undone (with_tx_builder-Goes from rounds)
