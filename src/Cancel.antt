-- ===== src/Cancel.antt =====
-- crates/common/src/future/cancel.rs: cancel handles and tokens. A handle and its token share a
-- one-shot channel; what the token's receiver gives when it is polled is the signal.
pub mod Polls
mod Tests
use minibot_rust.Base.{Bool, true, false, List, [], ◌∷◌}

-- Pending, `Ok(())` and `Err(Canceled)` of the receiver.
pub data Signal : Type 0 where
  waiting : Signal
  sent : Signal
  closed : Signal

-- What becomes of a handle: `cancel` and a drop are the same, and `ignore` sends.
pub data HandleUse : Type 0 where
  kept : HandleUse
  cancel : HandleUse
  ignore : HandleUse

unfoldable pub signal : HandleUse → Signal
signal kept = waiting
signal cancel = closed
signal ignore = sent

pub data TokenState : Type 0 where
  pending : TokenState
  canceled : TokenState
  ignored : TokenState

unfoldable pub new_token : TokenState
new_token = pending

unfoldable pub ignored_token : TokenState
ignored_token = ignored

-- `poll`: the state behind it, and whether the future is ready. The receiver is polled by a pending
-- token alone.
unfoldable pub poll : Signal → TokenState → TokenState × Bool
poll waiting pending = (pending, false)
poll sent pending = (ignored, false)
poll closed pending = (canceled, true)
poll s ignored = (ignored, false)
poll s canceled = (canceled, true)

unfoldable pub is_terminated : TokenState → Bool
is_terminated canceled = true
is_terminated _ = false

-- `on_canceled`: whether the function is called, once the receiver has an answer; while it waits
-- the future waits.
unfoldable pub on_canceled : Signal → TokenState → Bool
on_canceled closed pending = true
on_canceled sent pending = false
on_canceled waiting pending = false
on_canceled s canceled = true
on_canceled s ignored = false
