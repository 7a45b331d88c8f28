-- ===== src/Rpc/Tests.antt =====
-- Concrete runs of the broker and its connection. The values are numbers.
use minibot_rust.Base.{
  ℕ, true, false, List, [], ◌∷◌, some, ◌≡◌, refl, arith, err, ◌==◌, if◌then◌else◌,
}
use minibot_rust.Pipe.Results.{oks, results}
use minibot_rust.Rpc.Message.{Message, cancel, command, response, end_stream, error, unallocated_id}
use minibot_rust.Rpc.Broker.{
  Broker, lookup, send, deliver, drop_sink, running, stopped, Environment, handle_start_command,
  handle_message,
}
use minibot_rust.Rpc.Broker.{stream_sender_loop, spawn_sender, start}
use minibot_rust.Rpc.Broker.Exchange.{command_exchange, handed}
use minibot_rust.Rpc.Broker.Streams.{InUse, command_lifecycle}
use minibot_rust.Pipe.{Either, left, right, end_on_error_oneshot}
use minibot_rust.Pipe
use minibot_rust.WebSocket.{BaseMessage, base_text, base_ping, next_stage}
use minibot_rust.WebSocket.Received.{yields}
use minibot_rust.Rpc.Channel.{
  Text, start_websocket_rpc, send_command, serde, channel_closed, responses,
}
use minibot_rust.Rpc.Channel.Peers.{texts, start_websocket_rpc-read, start_websocket_rpc-peer}

abbrev open_env : Environment ℕ
open_env = record {
  connected = true;
  sink_open = λ _. true;
  start_command = λ _ _. true;
  fresh_handle = 5;
}

abbrev idle_broker : Broker
idle_broker = record { incoming_streams = []; outgoing_streams = []; next_id = 1 }

abbrev serving : Broker
serving = record { incoming_streams = []; outgoing_streams = (3, 5) ∷ []; next_id = 1 }

abbrev sent_broker : Broker
sent_broker = (handle_start_command open_env 10 11 4 idle_broker).broker

abbrev ended_broker : Broker
ended_broker = (handle_message open_env (end_stream 1) sent_broker).broker

command_lifecycle_example :
    ((handle_start_command open_env 10 11 4 idle_broker).effects ≡ send (command 1 10 11) ∷ [])
    × ((handle_start_command open_env 10 11 4 idle_broker).status ≡ running)
    × (handle_message open_env (response 1 12) sent_broker
        ≡ record { broker = sent_broker; effects = deliver 4 12 ∷ []; status = running })
    × ((handle_message open_env (end_stream 1) sent_broker).effects ≡ drop_sink 4 ∷ [])
    × ((handle_message open_env (end_stream 1) sent_broker).status ≡ running)
    × ((handle_message open_env (response 1 12) ended_broker).status ≡ stopped)
    × ((handle_message open_env (response 1 12) ended_broker).effects
        ≡ send (error unallocated_id (some 1)) ∷ [])
unfolding lookup
command_lifecycle_example = command_lifecycle open_env 10 11 12 4 idle_broker refl refl

serving-InUse : InUse 3 serving
unfolding lookup
serving-InUse = ground arith

-- A JSON of two kinds of messages.
abbrev to_string : Message ℕ → Either Text ℕ
to_string (command id method payload) = left (id ∷ method ∷ payload ∷ [])
to_string (end_stream id) = left (id ∷ [])
to_string (cancel id) = right 1
to_string (response id payload) = right 1
to_string (error e id) = right 1

abbrev from_str : Text → Either (Message ℕ) ℕ
from_str [] = right 2
from_str (id ∷ []) = left (end_stream id)
from_str (id ∷ method ∷ []) = right 2
from_str (id ∷ method ∷ payload ∷ []) = left (command id method payload)
from_str (id ∷ method ∷ payload ∷ a ∷ as') = right 2

abbrev yielded : List (Either BaseMessage ℕ)
yielded =
    left (base_text (3 ∷ 10 ∷ 11 ∷ []))
    ∷ left (base_ping (7 ∷ []))
    ∷ left (base_text (4 ∷ []))
    ∷ left (base_text (4 ∷ 4 ∷ []))
    ∷ left (base_text (5 ∷ []))
    ∷ []

abbrev outgoing : List (Message ℕ)
outgoing = command 1 20 21 ∷ end_stream 3 ∷ []

start_websocket_rpc-read_example :
    (start_websocket_rpc from_str to_string yielded outgoing [] (next_stage 9)).0
    ≡ command 3 10 11 ∷ end_stream 4 ∷ []
unfolding oks results texts
start_websocket_rpc-read_example =
    start_websocket_rpc-read from_str to_string yielded outgoing [] (next_stage 9)

start_websocket_rpc-peer_example :
    (start_websocket_rpc from_str to_string
      (yields {E = ℕ}
        ((start_websocket_rpc from_str to_string yielded outgoing (false ∷ []) (next_stage 7)).1
          ).taken)
      []
      []
      (next_stage 0)).0
    ≡ outgoing
start_websocket_rpc-peer_example =
    start_websocket_rpc-peer from_str to_string yielded outgoing [] (false ∷ []) [] 7 (next_stage 0)
      ((1 ∷ 20 ∷ 21 ∷ [], refl, refl), ((3 ∷ [], refl, refl), tt)) (omega arith)

closed_run : send_command {Value = ℕ} {J = ℕ} false 10 (left 11) 4 ≡ err channel_closed
unfolding send_command
closed_run = refl

serde_run : send_command {Value = ℕ} {J = ℕ} true 10 (right 5) 4 ≡ err (serde 5)
unfolding send_command
serde_run = refl

-- Responses end at the first that is wrong.
responses_run :
    (responses {J = ℕ}
      (λ n. if n == 0 then right 1 else left n)
      (7 ∷ 0 ∷ 8 ∷ [])
      (next_stage 9)).taken
    ≡ 7 ∷ []
unfolding responses end_on_error_oneshot Pipe.send
responses_run = refl

command_exchange_example :
    ((handle_start_command open_env 10 11 4 idle_broker).effects ≡ send (command 1 10 11) ∷ [])
    × ((handle_message open_env (command 1 10 11) serving).effects ≡ spawn_sender 1 ∷ [])
    × ((start (handed open_env (stream_sender_loop 1 (7 ∷ 8 ∷ []))) sent_broker).effects
        ≡ deliver 4 7 ∷ deliver 4 8 ∷ drop_sink 4 ∷ [])
unfolding lookup
command_exchange_example =
    command_exchange open_env open_env 10 11 (7 ∷ 8 ∷ []) 4 idle_broker serving refl refl refl refl
      refl
