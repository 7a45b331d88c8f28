-- ===== src/Pipe/Cloner.antt =====
-- crates/common/src/future/pipe/cloner.rs: `run_cloner`, the task behind a pipe end that has been
-- cloned, with the `SafeSender` of safe_sender.rs. An event is what `select!` picks, or a receiver
-- that goes away, which is outside.
pub mod FanOut
use minibot_rust.Base.{
  ℕ, zero, suc, Bool, true, false, not, List, [], ◌∷◌, ◌++◌, map, Option, none, some, ◌&&◌,
  if◌then◌else◌, is_empty, ◌==◌,
}

-- A sender: its clones share the channel, so they are one. `alive`: its receiver is there.
pub record SafeSender (A : Type 0) : Type 0 where
  pub received : List A
  pub alive : Bool

-- `SafeSender::send`, or nothing for a receiver that is gone.
unfoldable pub send : {A : Type 0} → A → SafeSender A → SafeSender A
send item ss = if ss.alive then record ss { received = ss.received ++ item ∷ [] } else ss

unfoldable pub is_closed : {A : Type 0} → SafeSender A → Bool
is_closed ss = not ss.alive

-- `retain(|ss| !ss.is_closed())`.
unfoldable pub retain : {A : Type 0} → List (SafeSender A) → List (SafeSender A)
unfolding is_closed
retain [] = []
retain (ss ∷ senders) = let rest = retain senders in if is_closed ss then rest else ss ∷ rest

pub data Event (A : Type 0) : Type 0 where
  item : Option A → Event A
  next_sender : Option (SafeSender A) → Event A
  hang_up : ℕ → Event A

-- `terminated`: `sender_stream` has ended.
pub record Cloner (A : Type 0) : Type 0 where
  pub senders : List (SafeSender A)
  pub terminated : Bool

unfoldable pub hang_up_at : {A : Type 0} → ℕ → List (SafeSender A) → List (SafeSender A)
hang_up_at i [] = []
hang_up_at zero (ss ∷ senders) = record ss { alive = false } ∷ senders
hang_up_at (suc i) (ss ∷ senders) = ss ∷ hang_up_at i senders

-- An item for the senders that are there: none is the break.
give : {A : Type 0} → Option A → Cloner A → Option (Cloner A)
unfolding send
give none c = none
give (some a) c = some (record c { senders = map (send a) c.senders })

-- A round of the loop.
unfoldable pub step : {A : Type 0} → Event A → Cloner A → Option (Cloner A)
unfolding retain give hang_up_at
step (item a) c =
    if is_empty (retain c.senders) && c.terminated
    then none
    else give a (record c { senders = retain c.senders })
step (next_sender none) c = some (record c { terminated = true })
step (next_sender (some ss)) c = some (record c { senders = c.senders ++ ss ∷ [] })
step (hang_up i) c = some (record c { senders = hang_up_at i c.senders })

unfoldable pub run_cloner : {A : Type 0} → List (Event A) → Cloner A → Cloner A
run_cloner [] c = c
run_cloner (e ∷ events) c = elim (step e c) [ none ↦ c | some c' ↦ run_cloner events c' ]
