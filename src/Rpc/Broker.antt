-- ===== src/Rpc/Broker.antt =====
-- crates/common/src/net/rpc/broker.rs: `Broker` and its handlers. An event is handled to its end
-- before the next one. What a call does to the outside is the list of its effects; sending to the
-- connection or to a client's sink fails where the environment says so.
pub mod Streams
pub mod Exchange
use minibot_rust.Base.{
  ℕ, ◌+◌, ◌-◌, ◌^◌, Bool, true, false, not, List, [], ◌∷◌, ◌++◌, Option, none, some, ◌==◌,
  if◌then◌else◌,
}
use minibot_rust.Rpc.Message.{
  Message, command, cancel, response, end_stream, error, ErrorText, already_running, command_failed,
  unallocated_id, new_error_with_id,
}

-- `HashMap<Id, _>`.
abbrev pub Map : Type 0 → Type 0
Map A = List (ℕ × A)

module _ {A : Type 0} where
  unfoldable pub lookup : ℕ → Map A → Option A
  lookup k [] = none
  lookup k ((j, v) ∷ m) = if j == k then some v else lookup k m

  unfoldable pub insert : ℕ → A → Map A → Map A
  insert k v [] = (k, v) ∷ []
  insert k v ((j, w) ∷ m) = if j == k then (j, v) ∷ m else (j, w) ∷ insert k v m

  unfoldable pub remove : ℕ → Map A → Map A
  remove k [] = []
  remove k ((j, w) ∷ m) = let rest = remove k m in if j == k then rest else (j, w) ∷ rest

-- `incoming_streams` maps an id to the client's sink, `outgoing_streams` to a cancel handle.
pub record Broker : Type 0 where
  pub incoming_streams : Map ℕ
  pub outgoing_streams : Map ℕ
  pub next_id : ℕ

pub new : Broker
new = record { incoming_streams = []; outgoing_streams = []; next_id = 1 }

pub data Effect (Value : Type 0) : Type 0 where
  -- A message sent on the connection.
  send : Message Value → Effect Value
  -- A payload handed to a client's sink.
  deliver : ℕ → Value → Effect Value
  -- The task that sends the responses of a command under an id, and then its end.
  spawn_sender : ℕ → Effect Value
  -- A cancel handle or a sink is dropped.
  drop_handle : ℕ → Effect Value
  drop_sink : ℕ → Effect Value

-- Whether the broker goes on, stops with an error, or panics.
pub data Status : Type 0 where
  running stopped panicked : Status

pub record Outcome (Value : Type 0) : Type 0 where
  pub broker : Broker
  pub effects : List (Effect Value)
  pub status : Status

-- What the broker does not decide: whether the connection takes a message, whether the sink of a
-- client is open, whether the handler starts a command, and the number of a new cancel handle.
pub record Environment (Value : Type 0) : Type 0 where
  pub connected : Bool
  pub sink_open : ℕ → Bool
  pub start_command : Value → Value → Bool
  pub fresh_handle : ℕ

pub data Event (Value : Type 0) : Type 0 where
  start_command : Value → Value → ℕ → Event Value
  terminate : Event Value
  message : Message Value → Event Value

abbrev u32_max : ℕ
u32_max = 2 ^ 32 - 1

-- The id, and the broker behind the call.
unfoldable pub take_new_id : Broker → ℕ × Broker
take_new_id b = (b.next_id, if b.next_id == u32_max then record b { next_id = 1 } else b)

module _ {Value : Type 0} (env : Environment Value) where
  abbrev result : Broker → List (Effect Value) → Status → Outcome Value
  result b e s = record { broker = b; effects = e; status = s }

  unfoldable pub handle_start_command : Value → Value → ℕ → Broker → Outcome Value
  unfolding take_new_id
  handle_start_command method payload sink b =
      let (new_id, b') = take_new_id b in
      let cmd = send (command new_id method payload) ∷ [] in
      if not env.connected
      then result b' [] stopped
      else result (record b' { incoming_streams = insert new_id sink b'.incoming_streams })
          (elim (lookup new_id b'.incoming_streams) [
            | none ↦ cmd
            | some old ↦ cmd ++ drop_sink old ∷ []
          ])
          running

  -- `send(..).await.unwrap()`, and then.
  abbrev send_unwrap : Message Value → Status → Broker → Outcome Value
  send_unwrap m after b =
      if env.connected then result b (send m ∷ []) after else result b [] panicked

  handle_command : ℕ → Value → Value → Broker → Outcome Value
  handle_command id method payload b = elim (lookup id b.outgoing_streams) [
    | some handle ↦ send_unwrap (new_error_with_id id already_running) running b
    | none ↦
        if env.start_command method payload
        then result (record b { outgoing_streams = insert id env.fresh_handle b.outgoing_streams })
            (spawn_sender id ∷ []) running
        else send_unwrap (error command_failed (some id)) stopped b
  ]

  handle_cancel : ℕ → Broker → Outcome Value
  handle_cancel id b = elim (lookup id b.outgoing_streams) [
    | some handle ↦
        result (record b { outgoing_streams = remove id b.outgoing_streams })
          (drop_handle handle ∷ []) running
    | none ↦ result b [] running
  ]

  -- An id that no stream has: an error is sent, and the broker stops either way.
  abbrev protocol_error : ℕ → Broker → Outcome Value
  protocol_error id b =
      result b (if env.connected then send (error unallocated_id (some id)) ∷ [] else []) stopped

  handle_response : ℕ → Value → Broker → Outcome Value
  handle_response id payload b = elim (lookup id b.incoming_streams) [
    | some sink ↦
        if env.sink_open sink
        then result b (deliver sink payload ∷ []) running
        else result b [] panicked
    | none ↦ protocol_error id b
  ]

  handle_end : ℕ → Broker → Outcome Value
  handle_end id b = elim (lookup id b.incoming_streams) [
    | some sink ↦
        result (record b { incoming_streams = remove id b.incoming_streams }) (drop_sink sink ∷ [])
          running
    | none ↦ protocol_error id b
  ]

  unfoldable pub handle_message : Message Value → Broker → Outcome Value
  unfolding handle_command handle_cancel handle_response handle_end
  handle_message (command id method payload) b = handle_command id method payload b
  handle_message (cancel id) b = handle_cancel id b
  handle_message (response id payload) b = handle_response id payload b
  handle_message (end_stream id) b = handle_end id b
  handle_message (error text id) b = result b [] stopped

  -- One round of `start`. `Terminate` is a `todo!()`.
  unfoldable pub handle_event : Event Value → Broker → Outcome Value
  unfolding handle_start_command handle_message
  handle_event (start_command method payload sink) b = handle_start_command method payload sink b
  handle_event (message m) b = handle_message m b
  handle_event terminate b = result b [] panicked

-- `stream_sender_loop`: the responses to a command, and the end of its stream.
unfoldable pub stream_sender_loop : {Value : Type 0} → ℕ → List Value → List (Message Value)
stream_sender_loop id [] = end_stream id ∷ []
stream_sender_loop id (msg ∷ rest) = response id msg ∷ stream_sender_loop id rest

-- The loop goes on while the broker runs.
unfoldable pub follow : {Value : Type 0} → Status → Outcome Value → Outcome Value → Outcome Value
follow running now later = record later { effects = now.effects ++ later.effects }
follow stopped now later = now
follow panicked now later = now

-- `start`: events are handled in turn while the broker runs; the outcome has all the effects.
unfoldable pub start :
    {Value : Type 0} → List (Environment Value × Event Value) → Broker → Outcome Value
unfolding follow
start [] b = record { broker = b; effects = []; status = stopped }
start ((env, event) ∷ rest) b =
    let now = handle_event env event b in follow now.status now (start rest now.broker)
