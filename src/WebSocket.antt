-- ===== src/WebSocket.antt =====
-- crates/common/src/net/ws.rs: what becomes of the messages of a web socket. The stages are those of
-- Pipe; a stage takes all that the one before it has for it, so that only the receiver of the
-- messages and the sink of the socket bound what is taken.
pub mod Upgrade
pub mod Exchange
pub mod Received
mod Tests
use minibot_rust.Base.{ℕ, Bool, true, false, List, [], ◌∷◌, Option, none, some, length, map, Bytes}
use minibot_rust.Pipe.{
  Either, left, right, Sink, pipe, end_on_error, end_map, either_split, filter_map,
}

pub data Message : Type 0 where
  text : List ℕ → Message
  binary : Bytes → Message

-- The messages of tungstenite; the close frame has a code and a reason.
pub data BaseMessage : Type 0 where
  base_text : List ℕ → BaseMessage
  base_binary : Bytes → BaseMessage
  base_ping : Bytes → BaseMessage
  base_pong : Bytes → BaseMessage
  base_close : Option (ℕ × List ℕ) → BaseMessage

pub data KeepAliveMessage : Type 0 where
  ping : Bytes → KeepAliveMessage
  pong : Bytes → KeepAliveMessage

pub data NonCloseMessage : Type 0 where
  message : Message → NonCloseMessage
  keep_alive : KeepAliveMessage → NonCloseMessage

pub data ProcessedMessage : Type 0 where
  non_close : NonCloseMessage → ProcessedMessage
  close : Option (ℕ × List ℕ) → ProcessedMessage

unfoldable pub process : BaseMessage → ProcessedMessage
process (base_text t) = non_close (message (text t))
process (base_binary b) = non_close (message (binary b))
process (base_ping p) = non_close (keep_alive (ping p))
process (base_pong p) = non_close (keep_alive (pong p))
process (base_close reason) = close reason

unfoldable pub until_close : Unit {0} → ProcessedMessage → Option NonCloseMessage × Unit {0}
until_close s (non_close nc) = (some nc, s)
until_close s (close reason) = (none, s)

unfoldable pub by_kind : Unit {0} → NonCloseMessage → Either Message KeepAliveMessage × Unit {0}
by_kind s (message msg) = (left msg, s)
by_kind s (keep_alive k) = (right k, s)

unfoldable pub only_ping : Unit {0} → KeepAliveMessage → Option Bytes × Unit {0}
only_ping s (ping p) = (some p, s)
only_ping s (pong p) = (none, s)

unfoldable pub to_base : Message → BaseMessage
to_base (text t) = base_text t
to_base (binary b) = base_binary b

-- The sink into the next stage.
abbrev pub next_stage : {A : Type 0} → ℕ → Sink A
next_stage n = record { taken = []; room = n }

-- The stages from the socket to the messages and the keep-alive messages.
unfoldable pub incoming :
    {E : Type 0}
    → List (Either BaseMessage E)
    → Sink Message
    → Sink KeepAliveMessage
    → Sink Message × Sink KeepAliveMessage
unfolding process end_on_error end_map either_split until_close by_kind
incoming items msg_end keep_alive_end =
    let processed = map process ((end_on_error items (next_stage (length items))).taken) in
    let open_messages = end_map until_close tt processed (next_stage (length processed)) in
    either_split by_kind tt open_messages.taken msg_end keep_alive_end

-- `pong_end`.
unfoldable pub pongs : List KeepAliveMessage → List BaseMessage
unfolding filter_map only_ping
pongs keep_alives =
    map base_pong ((filter_map only_ping tt keep_alives (next_stage (length keep_alives))).taken)

-- `merge` of two streams: whether the next item is one of the first, while both have one.
unfoldable pub merge : {A : Type 0} → List Bool → List A → List A → List A
merge choices [] ys = ys
merge choices (x ∷ xs) [] = x ∷ xs
merge [] (x ∷ xs) (y ∷ ys) = x ∷ merge [] xs (y ∷ ys)
merge (true ∷ choices) (x ∷ xs) (y ∷ ys) = x ∷ merge choices xs (y ∷ ys)
merge (false ∷ choices) (x ∷ xs) (y ∷ ys) = y ∷ merge choices (x ∷ xs) ys

-- What the socket yields, and what the program sends; how the two streams of the output merge;
-- where the messages go, how many keep-alive messages the output takes, and the socket's sink.
unfoldable pub handle_websocket_message_stream :
    {E : Type 0}
    → List (Either BaseMessage E)
    → List Message
    → List Bool
    → Sink Message
    → ℕ
    → Sink BaseMessage
    → Sink Message × Sink BaseMessage
unfolding incoming pongs merge to_base pipe
handle_websocket_message_stream items sent choices msg_end room socket =
    let ends = incoming items msg_end (next_stage room) in
    let output = merge choices (map to_base sent) (pongs (ends.1).taken) in
    (ends.0, (pipe output socket).1)
