-- ===== src/Rpc/Channel/Peers.antt =====
-- crates/common/src/net/mod.rs: two ends of a web socket, each with `start_websocket_rpc`.
use minibot_rust.Base.{
  ℕ, suc, ◌+◌, ◌≤◌, ◌≡◌, refl, sym, ap, ◌∙◌, Bool, List, [], ◌∷◌, length, take, map, arith, All,
  subst,
}
use minibot_rust.Pipe.{Either, left, right, Sink, try_map_pipe}
use minibot_rust.Pipe.Reference.{until_none}
use minibot_rust.Pipe.Results.{oks, results, try_map_pipe-oks}
use minibot_rust.WebSocket
use minibot_rust.WebSocket.{
  BaseMessage, base_text, base_binary, base_ping, base_pong, base_close, to_base, next_stage,
}
use minibot_rust.WebSocket.Exchange.{
  received, answers, Merged, take-all, length-oks, end_map-all,
  handle_websocket_message_stream-exchange,
}
use minibot_rust.WebSocket.Received.{
  length-received, length-keep_alives, length-answers, yields, length-Merged, answers-IsPong,
  received-Merged, received-to_base, length-map,
}
use minibot_rust.Rpc.Message.{Message}
use minibot_rust.Rpc.Channel.{
  Text, deser_json_pipe, ser_json_pipe, only_text, rpc_input, rpc_output, start_websocket_rpc,
}

module _ {S T U J : Type 0} (f : S → T → Either U J × S) where
  length-results : (s : S) (items : List T) → length (results f s items) ≡ length items
  unfolding results
  length-results s [] = refl
  length-results s (item ∷ items) = ap (λ n. suc n) (length-results ((f s item).1) items)

  try_map_pipe-all :
      (s : S) (items : List T)
      → ((try_map_pipe f s items (next_stage (length items))).1).taken ≡ oks (results f s items)
  try_map_pipe-all s items =
      let same = length-results s items in
      let within = length-oks (results f s items) in
      ap (λ r. (r.1).taken) (try_map_pipe-oks f s items (next_stage (length items)))
      ∙ take-all (length items) (oks (results f s items)) (omega (arith, same, within))

-- The text messages before the first binary message, close frame or error.
unfoldable pub texts : {E : Type 0} → List (Either BaseMessage E) → List Text
texts [] = []
texts (right e ∷ items) = []
texts (left (base_text t) ∷ items) = t ∷ texts items
texts (left (base_binary b) ∷ items) = []
texts (left (base_ping p) ∷ items) = texts items
texts (left (base_pong p) ∷ items) = texts items
texts (left (base_close reason) ∷ items) = []

until_none-texts :
    {E : Type 0} (items : List (Either BaseMessage E))
    → until_none only_text tt (received items) ≡ texts items
unfolding until_none only_text received texts
until_none-texts [] = refl
until_none-texts (right e ∷ items) = refl
until_none-texts (left (base_text t) ∷ items) = ap (λ ts. t ∷ ts) (until_none-texts items)
until_none-texts (left (base_binary b) ∷ items) = refl
until_none-texts (left (base_ping p) ∷ items) = until_none-texts items
until_none-texts (left (base_pong p) ∷ items) = until_none-texts items
until_none-texts (left (base_close reason) ∷ items) = refl

until_none-text : (texts : List Text) → until_none only_text tt (map WebSocket.text texts) ≡ texts
unfolding until_none only_text
until_none-text [] = refl
until_none-text (t ∷ texts) = ap (λ ts. t ∷ ts) (until_none-text texts)

module _ {Value J : Type 0} (from_str : Text → Either (Message Value) J) where
  -- The messages up to the first text that is none.
  abbrev pub read : List Text → List (Message Value)
  read texts = oks (results (λ s item. (from_str item, s)) (tt {0}) texts)

  rpc_input-read :
      (to_string : Message Value → Either Text J) (ms : List WebSocket.Message)
      → rpc_input from_str to_string ms ≡ read (until_none only_text tt ms)
  unfolding rpc_input deser_json_pipe
  rpc_input-read to_string ms =
      rw (end_map-all only_text tt ms, rpc_input)
        (try_map_pipe-all (λ s item. (from_str item, s)) tt (until_none only_text tt ms))

  module _ {E : Type 0} (to_string : Message Value → Either Text J) where
    -- The broker of an end is handed what the text messages of its socket hold that come before the
    -- first binary message, close frame or error, up to the first that is no message of the protocol;
    -- pings and pongs among them are passed over.
    pub start_websocket_rpc-read :
        (items : List (Either BaseMessage E)) (messages : List (Message Value))
        (choices : List Bool) (socket : Sink BaseMessage)
        → (start_websocket_rpc from_str to_string items messages choices socket).0
          ≡ read (texts items)
    unfolding start_websocket_rpc
    start_websocket_rpc-read items messages choices socket =
        let ran =
          handle_websocket_message_stream-exchange items (rpc_output from_str to_string messages)
            choices (next_stage (length items)) (length items) socket (length-received items)
            (length-keep_alives items) in
        ap (λ r. rpc_input from_str to_string (r.0).taken) ran.1
        ∙ rpc_input-read to_string (take (length items) (received items))
        ∙ ap (λ ms. read (until_none only_text tt ms))
            (take-all (length items) (received items) (length-received items))
        ∙ ap read (until_none-texts items)

    -- What an end writes, when the socket takes it.
    start_websocket_rpc-Merged :
        (items : List (Either BaseMessage E)) (messages : List (Message Value))
        (choices : List Bool) (n : ℕ)
        → length (rpc_output from_str to_string messages) + length items ≤ n
        → Merged
            (map to_base (rpc_output from_str to_string messages))
            (answers items)
            ((start_websocket_rpc from_str to_string items messages choices (next_stage n)).1).taken
    unfolding start_websocket_rpc
    start_websocket_rpc-Merged items messages choices n h =
        let sent = rpc_output from_str to_string messages in
        let ran =
          handle_websocket_message_stream-exchange items sent choices (next_stage (length items))
            (length items) (next_stage n) (length-received items) (length-keep_alives items) in
        let measure = length-Merged ran.2 in
        let same = length-map to_base sent in
        let few = length-answers items in
        let all_taken = take-all n ran.0 (omega (arith, measure, same, few, h)) in
        subst (Merged (map to_base sent) (answers items))
          (sym (ap (λ r. (r.1).taken) ran.1 ∙ all_taken)) ran.2

  -- JSON that is written is read back.
  abbrev pub ReadsBack : (Message Value → Either Text J) → Message Value → Type 0
  ReadsBack to_string m = (t : Text) × (to_string m ≡ left t) × (from_str t ≡ left m)

  module _ (to_string : Message Value → Either Text J) where
    read-written :
        (messages : List (Message Value))
        → All (ReadsBack to_string) messages
        → read (oks (results (λ s item. (to_string item, s)) (tt {0}) messages)) ≡ messages
    unfolding oks results
    read-written [] h = refl
    read-written (m ∷ messages) h =
        let writes = (h.0).1 in
        let reads = (h.0).2 in
        rw (writes, oks, reads) (ap (λ ms. m ∷ ms) (read-written messages h.1))

    rpc_output-map :
        (messages : List (Message Value))
        → rpc_output from_str to_string messages
          ≡ map WebSocket.text (oks (results (λ s item. (to_string item, s)) (tt {0}) messages))
    unfolding rpc_output ser_json_pipe
    rpc_output-map messages =
        ap (map WebSocket.text) (try_map_pipe-all (λ s item. (to_string item, s)) tt messages)

    length-rpc_output :
        (messages : List (Message Value))
        → length (rpc_output from_str to_string messages) ≤ length messages
    length-rpc_output messages =
        let steps = results (λ s item. (to_string item, s)) (tt {0}) messages in
        let mapped = length-map WebSocket.text (oks steps) in
        let few = length-oks steps in
        let same = length-results (λ s item. (to_string item, s)) (tt {0}) messages in
        rw (rpc_output-map messages) (omega (arith, mapped, few, same))

    -- Two ends of a web socket: when JSON that is written is read back and the socket takes all that
    -- an end writes, the broker of the other end is handed exactly the messages of the broker of
    -- this end, in order, however they merge with the answers to pings.
    pub start_websocket_rpc-peer :
        {E : Type 0} (items : List (Either BaseMessage E)) (messages other : List (Message Value))
        (choices choices' : List Bool) (n : ℕ) (socket : Sink BaseMessage)
        → All (ReadsBack to_string) messages
        → length messages + length items ≤ n
        → (start_websocket_rpc from_str to_string
            (yields {E = E}
              ((start_websocket_rpc from_str to_string items messages choices (next_stage n)).1
                ).taken)
            other
            choices'
            socket).0
          ≡ messages
    start_websocket_rpc-peer {E} items messages other choices choices' n socket h room =
        let sent = rpc_output from_str to_string messages in
        let few = length-rpc_output messages in
        let output =
          ((start_websocket_rpc from_str to_string items messages choices (next_stage n)).1
          ).taken in
        let merged =
          start_websocket_rpc-Merged to_string items messages choices n
            (omega (arith, few, room)) in
        let arrives : received {E = E} (yields output) ≡ sent =
          received-Merged E merged (answers-IsPong items) ∙ received-to_base E sent in
        let written = oks (results (λ s item. (to_string item, s)) (tt {0}) messages) in
        start_websocket_rpc-read to_string (yields output) other choices' socket
        ∙ ap read (sym (until_none-texts (yields {E = E} output)))
        ∙ ap (λ ms. read (until_none only_text tt ms)) (arrives ∙ rpc_output-map messages)
        ∙ ap read (until_none-text written)
        ∙ read-written messages h
