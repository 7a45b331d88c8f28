-- ===== src/Rpc/Channel.antt =====
-- crates/common/src/net/rpc/mod.rs and crates/common/src/net/mod.rs: what lies between the broker, its
-- client and the web socket. JSON is outside: writing and reading it are parameters. A stage takes
-- all that the one before it has for it.
pub mod Peers
use minibot_rust.Base.{
  ℕ, Bool, List, [], ◌∷◌, ◌++◌, Option, none, some, length, map, Outcome, ok, err, panic,
  out_of_fuel, if◌then◌else◌,
}
use minibot_rust.Pipe.{Either, left, right, Sink, PipeError, try_map_pipe, end_map, end_on_error}
use minibot_rust.WebSocket
use minibot_rust.WebSocket.{BaseMessage, next_stage, merge, handle_websocket_message_stream}
use minibot_rust.Rpc.Message.{Message}
use minibot_rust.Rpc.Broker.{Event, start_command, terminate, message}

abbrev pub Text : Type 0
Text = List ℕ

module _ {Value J : Type 0} (from_str : Text → Either (Message Value) J) where
  -- `deser_json_pipe`.
  unfoldable pub deser_json_pipe :
      List Text → Sink (Message Value) → Option (PipeError J) × Sink (Message Value)
  unfolding try_map_pipe
  deser_json_pipe items sink = try_map_pipe (λ s item. (from_str item, s)) (tt {0}) items sink

module _ {Value J : Type 0} (to_string : Message Value → Either Text J) where
  -- `ser_json_pipe`.
  unfoldable pub ser_json_pipe : List (Message Value) → Sink Text → Option (PipeError J) × Sink Text
  unfolding try_map_pipe
  ser_json_pipe items sink = try_map_pipe (λ s item. (to_string item, s)) (tt {0}) items sink

-- The events of the broker: the messages of the connection and those of the client, as they come.
unfoldable pub new_message_channel :
    {Value : Type 0} → List Bool → List (Message Value) → List (Event Value) → List (Event Value)
unfolding merge
new_message_channel choices messages client = merge choices (map message messages) client

unfoldable pub only_text : Unit {0} → WebSocket.Message → Option Text × Unit {0}
only_text s (WebSocket.text t) = (some t, s)
only_text s (WebSocket.binary b) = (none, s)

module _ {Value J : Type 0} (from_str : Text → Either (Message Value) J)
    (to_string : Message Value → Either Text J) where
  -- From the messages of the socket to those for the broker.
  unfoldable pub rpc_input : List WebSocket.Message → List (Message Value)
  unfolding end_map only_text deser_json_pipe
  rpc_input received =
      let texts = (end_map only_text tt received (next_stage (length received))).taken in
      ((deser_json_pipe from_str texts (next_stage (length texts))).1).taken

  -- From the messages of the broker to those for the socket.
  unfoldable pub rpc_output : List (Message Value) → List WebSocket.Message
  unfolding ser_json_pipe
  rpc_output messages =
      map WebSocket.text
        (((ser_json_pipe to_string messages (next_stage (length messages))).1).taken)

  -- `start_websocket_rpc`: what the socket yields, the messages of the broker, how they merge with
  -- the answers to pings, and the sink of the socket; the messages for the broker, and that sink.
  unfoldable pub start_websocket_rpc :
      {E : Type 0}
      → List (Either BaseMessage E)
      → List (Message Value)
      → List Bool
      → Sink BaseMessage
      → List (Message Value) × Sink BaseMessage
  unfolding handle_websocket_message_stream rpc_input rpc_output
  start_websocket_rpc items messages choices socket =
      let ends =
        handle_websocket_message_stream items (rpc_output messages) choices
          (next_stage (length items)) (length items) socket in
      (rpc_input (ends.0).taken, ends.1)

pub data SendCommandError (J : Type 0) : Type 0 where
  serde : J → SendCommandError J
  channel_closed : SendCommandError J

-- `send_command` as far as the event: `taken` is whether the channel takes it.
unfoldable pub send_command :
    {Value J : Type 0}
    → Bool
    → Value
    → Either Value J
    → ℕ
    → Outcome (SendCommandError J) (Event Value)
send_command taken method (left payload) sink =
    if taken then ok (start_command method payload sink) else err channel_closed
send_command taken method (right e) sink = err (serde e)

-- The responses of `send_command`: the values of the broker, read up to the first that is wrong.
unfoldable pub responses :
    {Value Response J : Type 0}
    → (Value → Either Response J)
    → List Value
    → Sink Response
    → Sink Response
unfolding end_on_error
responses from_value values sink = end_on_error (map from_value values) sink

-- `drop` of the `ClientChannel`.
unfoldable pub drop_channel : {Value : Type 0} → List (Event Value) → List (Event Value)
drop_channel events = events ++ terminate ∷ []
