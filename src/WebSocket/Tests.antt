-- ===== src/WebSocket/Tests.antt =====
-- Concrete runs of the web socket.
use minibot_rust.Base.{
  ℕ, ◌≡◌, refl, true, false, List, [], ◌∷◌, none, ok, err, arith, codes, eq_bytes,
}
use minibot_rust.Pipe.{Either, left, right, Sink, send}
use minibot_rust.Pipe.Reference.{fill}
use minibot_rust.WebSocket.{
  Message, text, binary, BaseMessage, base_text, base_binary, base_ping, base_pong, base_close,
  to_base, handle_websocket_message_stream,
}
use minibot_rust.WebSocket.Exchange.{
  received, keep_alives, answers, Merged, handle_websocket_message_stream-exchange,
}
use minibot_rust.WebSocket.Upgrade.{
  requested, response, accept_key, no_key, upgrade_required_response,
}

abbrev items : List (Either BaseMessage ℕ)
items =
    left (base_text (codes "hi"))
    ∷ left (base_ping (7 ∷ []))
    ∷ left (base_pong (9 ∷ []))
    ∷ left (base_binary (1 ∷ []))
    ∷ left (base_close none)
    ∷ left (base_ping (8 ∷ []))
    ∷ right 5
    ∷ []

abbrev sent : List Message
sent = text (codes "yo") ∷ []

abbrev messages : Sink Message
messages = record { taken = []; room = 2 }

abbrev socket : Sink BaseMessage
socket = record { taken = []; room = 9 }

handle_websocket_message_stream-exchange_example :
    (output : List BaseMessage) × (handle_websocket_message_stream items sent
        (false ∷ [])
        messages
        2
        socket
      ≡ (fill messages (text (codes "hi") ∷ binary (1 ∷ []) ∷ []), fill socket output))
    × Merged (base_text (codes "yo") ∷ []) (base_pong (7 ∷ []) ∷ []) output
unfolding received answers keep_alives to_base
handle_websocket_message_stream-exchange_example =
    handle_websocket_message_stream-exchange items sent (false ∷ []) messages 2 socket (omega arith)
      (omega arith)

exchange_run : handle_websocket_message_stream items sent (false ∷ []) messages 2 socket ≡ (
  record { taken = text (codes "hi") ∷ binary (1 ∷ []) ∷ []; room = 0 },
  record { taken = base_pong (7 ∷ []) ∷ base_text (codes "yo") ∷ []; room = 7 },
)
unfolding handle_websocket_message_stream send
exchange_run = refl

abbrev upgrade_request : List (List ℕ × List ℕ)
upgrade_request =
    (codes "upgrade", codes "websocket") ∷ (codes "sec-websocket-key", codes "dGhl") ∷ []

abbrev same : List ℕ → List ℕ
same b = b

requested_run : requested upgrade_request ≡ true
unfolding requested eq_bytes
requested_run = refl

-- With no hash and no encoding, the accept header is the key and the identifier of RFC 6455.
response_run :
    response same same upgrade_request
    ≡ ok (record {
      status = 101;
      headers =
          (codes "upgrade", codes "websocket")
          ∷ (codes "connection", codes "upgrade")
          ∷ (codes "sec-websocket-accept", codes "dGhl258EAFA5-E914-47DA-95CA-C5AB0DC85B11")
          ∷ [];
    })
unfolding response accept_key eq_bytes
response_run = refl

response_refuses : response same same [] ≡ err no_key
unfolding response
response_refuses = refl

upgrade_required_run : upgrade_required_response.status ≡ 426
unfolding upgrade_required_response
upgrade_required_run = refl
