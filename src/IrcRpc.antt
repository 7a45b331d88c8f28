-- ===== src/IrcRpc.antt =====
-- crates/irc/src/rpc.rs: `IrcRpcConnection`, one call at a time over an IRC connection. The task
-- that reads the stream and the caller share `stream_state` under a lock; a round of the task's loop
-- and each part of `call` between two waits is a function here. The message handler is outside: what
-- it answers is a function of the messages that it has had before and the message.
pub mod Calls
mod Tests
use minibot_rust.Base.{
  ℕ, Bool, true, false, List, [], ◌∷◌, ◌++◌, Option, none, some, Outcome, ok, err, panic,
  out_of_fuel, if◌then◌else◌,
}
use minibot_rust.IrcRaw.Message.{Message}
use minibot_rust.IrcClient.{StreamError, Incoming, message, failed}

pub data FilterResult : Type 0 where
  next skip end : FilterResult

-- `Error`: a connection error is `codec::Error` here, the stream's.
pub data Error : Type 0 where
  handler_error : ℕ → Error
  irc : StreamError → Error

pub data RpcCallError (E : Type 0) : Type 0 where
  call_error : E → RpcCallError E
  rpc_cancelled_error : RpcCallError E

-- The trait `RpcCall`. That `Box<dyn Any>` is taken back to its type cannot fail, as the caller put
-- it in.
pub record RpcCall (Out E : Type 0) : Type 0 where
  pub send_messages : List Message
  pub msg_filter : Message → Outcome E FilterResult
  pub recv_messages : List Message → Outcome E Out

-- What goes through the channel to the caller.
pub data Reply (E : Type 0) : Type 0 where
  responses : List Message → Reply E
  filter_failed : E → Reply E

-- The pending call with its responses, and what has gone into the channel to the caller.
pub record Pending (Out E : Type 0) : Type 0 where
  pub call : RpcCall Out E
  pub response_messages : List Message

pub record Connection (Out E : Type 0) : Type 0 where
  pub stream_state : Option (Pending Out E)
  pub reply : Option (Reply E)
  pub handled : List Message
  pub handler : List Message → Message → Option ℕ

module _ {Out E : Type 0} where
  -- `msg_handler(m)`.
  handle : Message → Connection Out E → Outcome Error (Connection Out E)
  handle m c = elim (c.handler c.handled m) [
    | none ↦ ok (record c { handled = c.handled ++ m ∷ [] })
    | some e ↦ err (handler_error e)
  ]

  -- What becomes of a message while a call is pending.
  filtered :
      Pending Out E
      → Message
      → Outcome E FilterResult
      → Connection Out E
      → Outcome Error (Connection Out E)
  unfolding handle
  filtered p m (ok next) c = ok (record c {
    stream_state = some (record p { response_messages = p.response_messages ++ m ∷ [] });
  })
  filtered p m (ok skip) c = handle m c
  filtered p m (ok end) c =
      ok
        (record c { stream_state = none; reply = some (responses (p.response_messages ++ m ∷ [])) })
  filtered p m (err e) c = ok (record c { stream_state = none; reply = some (filter_failed e) })
  filtered p m panic c = panic
  filtered p m out_of_fuel c = out_of_fuel

  unfoldable pub handle_message : Message → Connection Out E → Outcome Error (Connection Out E)
  unfolding filtered handle
  handle_message m c = elim c.stream_state [
    | none ↦ handle m c
    | some p ↦ filtered p m (p.call.msg_filter m) c
  ]

  -- The task: how it ends, and the connection that it leaves behind.
  unfoldable pub run_handler :
      List Incoming → Connection Out E → Outcome Error (Unit {0}) × Connection Out E
  run_handler [] c = (ok tt, c)
  run_handler (failed e ∷ rest) c = (err (irc e), c)
  run_handler (message m ∷ rest) c = elim (handle_message m c) [
    | ok c' ↦ run_handler rest c'
    | err e ↦ (err e, c)
    | panic ↦ (panic, c)
    | out_of_fuel ↦ (out_of_fuel, c)
  ]

  -- `call` up to the sending of its messages: the assertion, and the pending call.
  unfoldable pub register_call :
      RpcCall Out E → Connection Out E → Outcome (RpcCallError E) (Connection Out E)
  register_call call c = elim c.stream_state [
    | none ↦ ok (record c {
      stream_state = some (record { call = call; response_messages = [] });
      reply = none;
    })
    | some p ↦ panic
  ]

  -- `call` up to the wait for its reply; `sent` says whether the sink took all messages.
  unfoldable pub start_call :
      RpcCall Out E
      → Bool
      → Connection Out E
      → Outcome (RpcCallError E) (Unit {0}) × Connection Out E
  unfolding register_call
  start_call call sent c = elim (register_call call c) [
    | ok c' ↦ ((if sent then ok tt else err rpc_cancelled_error), c')
    | err e ↦ (err e, c)
    | panic ↦ (panic, c)
    | out_of_fuel ↦ (out_of_fuel, c)
  ]

  unfoldable pub call_result : Outcome E Out → Outcome (RpcCallError E) Out
  call_result (ok out) = ok out
  call_result (err e) = err (call_error e)
  call_result panic = panic
  call_result out_of_fuel = out_of_fuel

  -- The rest of `call`: none while it waits. The sender is not dropped while the connection lives.
  unfoldable pub finish_call :
      RpcCall Out E → Connection Out E → Option (Outcome (RpcCallError E) Out)
  unfolding call_result
  finish_call call c = elim c.reply [
    | none ↦ none
    | some (responses msgs) ↦ some (call_result (call.recv_messages msgs))
    | some (filter_failed e) ↦ some (err (call_error e))
  ]

  wait_reply :
      RpcCall Out E
      → List Incoming
      → Outcome (RpcCallError E) (Unit {0}) × Connection Out E
      → Option (Outcome (RpcCallError E) Out) × Connection Out E
  wait_reply call incoming (ok _, c) =
      let c' = (run_handler incoming c).1 in (finish_call call c', c')
  wait_reply call incoming (err e, c) = (some (err e), c)
  wait_reply call incoming (panic, c) = (some panic, c)
  wait_reply call incoming (out_of_fuel, c) = (some out_of_fuel, c)

  -- `IrcRpcConnection::call`, with what the stream gives while the call runs, to its last item. The
  -- result is none where the call waits for ever.
  unfoldable pub call_during :
      RpcCall Out E
      → Bool
      → List Incoming
      → Connection Out E
      → Option (Outcome (RpcCallError E) Out) × Connection Out E
  unfolding wait_reply
  call_during call sent incoming c = wait_reply call incoming (start_call call sent c)
