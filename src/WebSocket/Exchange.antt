-- ===== src/WebSocket/Exchange.antt =====
-- crates/common/src/net/ws.rs: what comes out of the stages, against functions on the items of the
-- socket.
use minibot_rust.Base.{
  ℕ, zero, suc, ◌≤◌, ◌≡◌, refl, ap, ◌∙◌, Bool, true, false, List, [], ◌∷◌, Option, inl, inr, length,
  take, map, arith, Option-cases,
}
use minibot_rust.Pipe.{Either, left, right, Sink, end_on_error, end_map, filter_map}
use minibot_rust.Pipe.Reference.{fill, somes, filter_map-somes, until_none, end_map-until_none}
use minibot_rust.Pipe.Results.{
  oks, end_on_error_oneshot-oks, results, lefts, rights, either_split-results, pipe-fill,
}
use minibot_rust.WebSocket.{
  Message, text, binary, BaseMessage, base_text, base_binary, base_ping, base_pong, base_close,
  KeepAliveMessage, ping, pong, process, until_close, by_kind, only_ping, to_base, next_stage,
  incoming, pongs, merge, handle_websocket_message_stream,
}

module _ {E : Type 0} where
  -- The messages before the first close frame or error, and the payloads of the pings and of all
  -- keep-alive messages.
  unfoldable pub received : List (Either BaseMessage E) → List Message
  received [] = []
  received (right e ∷ items) = []
  received (left (base_close reason) ∷ items) = []
  received (left (base_text t) ∷ items) = text t ∷ received items
  received (left (base_binary b) ∷ items) = binary b ∷ received items
  received (left (base_ping p) ∷ items) = received items
  received (left (base_pong p) ∷ items) = received items

  unfoldable pub keep_alives : List (Either BaseMessage E) → List KeepAliveMessage
  keep_alives [] = []
  keep_alives (right e ∷ items) = []
  keep_alives (left (base_close reason) ∷ items) = []
  keep_alives (left (base_text t) ∷ items) = keep_alives items
  keep_alives (left (base_binary b) ∷ items) = keep_alives items
  keep_alives (left (base_ping p) ∷ items) = ping p ∷ keep_alives items
  keep_alives (left (base_pong p) ∷ items) = pong p ∷ keep_alives items

  unfoldable pub answers : List (Either BaseMessage E) → List BaseMessage
  answers [] = []
  answers (right e ∷ items) = []
  answers (left (base_close reason) ∷ items) = []
  answers (left (base_text t) ∷ items) = answers items
  answers (left (base_binary b) ∷ items) = answers items
  answers (left (base_ping p) ∷ items) = base_pong p ∷ answers items
  answers (left (base_pong p) ∷ items) = answers items

-- A stage takes everything when there is room for it.
pub take-all : {A : Type 0} (n : ℕ) (xs : List A) → length xs ≤ n → take n xs ≡ xs
take-all zero [] h = refl
take-all (suc n) [] h = refl
take-all zero (x ∷ xs) h = absurd (omega arith)
take-all (suc n) (x ∷ xs) h = ap (λ ys. x ∷ ys) (take-all n xs (omega arith))

pub length-oks : {T E : Type 0} (items : List (Either T E)) → length (oks items) ≤ length items
unfolding oks
length-oks [] = omega arith
length-oks (left a ∷ items) = omega (arith, length-oks items)
length-oks (right e ∷ items) = omega arith

length-until_none :
    {S T U : Type 0} (f : S → T → Option U × S) (s : S) (items : List T)
    → length (until_none f s items) ≤ length items
unfolding until_none
length-until_none f s [] = omega arith
length-until_none f s (item ∷ items) = elim (Option-cases ((f s item).0)) [
  | inl ends ↦ rw (ends, until_none) (omega arith)
  | inr (v, kept) ↦ rw (kept, until_none) (omega (arith, length-until_none f ((f s item).1) items))
]

length-somes :
    {S T U : Type 0} (f : S → T → Option U × S) (s : S) (items : List T)
    → length (somes f s items) ≤ length items
unfolding somes
length-somes f s [] = omega arith
length-somes f s (item ∷ items) = elim (Option-cases ((f s item).0)) [
  | inl dropped ↦ rw (dropped, somes) (omega (arith, length-somes f ((f s item).1) items))
  | inr (v, kept) ↦ rw (kept, somes) (omega (arith, length-somes f ((f s item).1) items))
]

end_on_error-all :
    {T E : Type 0} (items : List (Either T E))
    → (end_on_error items (next_stage (length items))).taken ≡ oks items
unfolding end_on_error
end_on_error-all items =
    ap (λ r. (r.1).taken) (end_on_error_oneshot-oks items (next_stage (length items)))
    ∙ take-all (length items) (oks items) (length-oks items)

pub end_map-all :
    {S T U : Type 0} (f : S → T → Option U × S) (s : S) (items : List T)
    → (end_map f s items (next_stage (length items))).taken ≡ until_none f s items
end_map-all f s items =
    ap (λ sink. sink.taken) (end_map-until_none f s items (next_stage (length items)))
    ∙ take-all (length items) (until_none f s items) (length-until_none f s items)

filter_map-all :
    {S T U : Type 0} (f : S → T → Option U × S) (s : S) (items : List T)
    → (filter_map f s items (next_stage (length items))).taken ≡ somes f s items
filter_map-all f s items =
    ap (λ sink. sink.taken) (filter_map-somes f s items (next_stage (length items)))
    ∙ take-all (length items) (somes f s items) (length-somes f s items)

-- What the stages have for the split.
abbrev kinds : {E : Type 0} → List (Either BaseMessage E) → List (Either Message KeepAliveMessage)
kinds items = results by_kind tt (until_none until_close tt (map process (oks items)))

lefts-kinds :
    {E : Type 0} (items : List (Either BaseMessage E)) → lefts (kinds items) ≡ received items
unfolding received lefts results until_none oks process until_close by_kind
lefts-kinds [] = refl
lefts-kinds (right e ∷ items) = refl
lefts-kinds (left (base_close reason) ∷ items) = refl
lefts-kinds (left (base_text t) ∷ items) = ap (λ ms. text t ∷ ms) (lefts-kinds items)
lefts-kinds (left (base_binary b) ∷ items) = ap (λ ms. binary b ∷ ms) (lefts-kinds items)
lefts-kinds (left (base_ping p) ∷ items) = lefts-kinds items
lefts-kinds (left (base_pong p) ∷ items) = lefts-kinds items

rights-kinds :
    {E : Type 0} (items : List (Either BaseMessage E)) → rights (kinds items) ≡ keep_alives items
unfolding keep_alives rights results until_none oks process until_close by_kind
rights-kinds [] = refl
rights-kinds (right e ∷ items) = refl
rights-kinds (left (base_close reason) ∷ items) = refl
rights-kinds (left (base_text t) ∷ items) = rights-kinds items
rights-kinds (left (base_binary b) ∷ items) = rights-kinds items
rights-kinds (left (base_ping p) ∷ items) = ap (λ ks. ping p ∷ ks) (rights-kinds items)
rights-kinds (left (base_pong p) ∷ items) = ap (λ ks. pong p ∷ ks) (rights-kinds items)

incoming-fill :
    {E : Type 0} (items : List (Either BaseMessage E)) (msg_end : Sink Message) (room : ℕ)
    → length (received items) ≤ msg_end.room
    → length (keep_alives items) ≤ room
    → incoming items msg_end (next_stage room)
      ≡ (fill msg_end (received items), fill (next_stage room) (keep_alives items))
unfolding incoming
incoming-fill items msg_end room h k =
    let processed = map process ((end_on_error items (next_stage (length items))).taken) in
    rw (end_map-all until_close tt processed, end_on_error-all items)
      (either_split-results by_kind tt (until_none until_close tt (map process (oks items))) msg_end
          (next_stage room) (rw (lefts-kinds items) h) (rw (rights-kinds items) k)
        ∙ rw (lefts-kinds items, rights-kinds items) refl)

somes-answers :
    {E : Type 0} (items : List (Either BaseMessage E))
    → map base_pong (somes only_ping tt (keep_alives items)) ≡ answers items
unfolding keep_alives answers somes only_ping
somes-answers [] = refl
somes-answers (right e ∷ items) = refl
somes-answers (left (base_close reason) ∷ items) = refl
somes-answers (left (base_text t) ∷ items) = somes-answers items
somes-answers (left (base_binary b) ∷ items) = somes-answers items
somes-answers (left (base_ping p) ∷ items) = ap (λ ms. base_pong p ∷ ms) (somes-answers items)
somes-answers (left (base_pong p) ∷ items) = somes-answers items

-- A list of items of two lists, in the order of each.
pub data Merged {A : Type 0} : List A → List A → List A → Type 0 where
  none_left : Merged [] [] []
  of_first : {x : A} {xs ys zs : List A} → Merged xs ys zs → Merged (x ∷ xs) ys (x ∷ zs)
  of_second : {y : A} {xs ys zs : List A} → Merged xs ys zs → Merged xs (y ∷ ys) (y ∷ zs)

Merged-second : {A : Type 0} (ys : List A) → Merged [] ys ys
Merged-second [] = none_left
Merged-second (y ∷ ys) = of_second (Merged-second ys)

Merged-first : {A : Type 0} (xs : List A) → Merged xs [] xs
Merged-first [] = none_left
Merged-first (x ∷ xs) = of_first (Merged-first xs)

merge-Merged :
    {A : Type 0} (choices : List Bool) (xs ys : List A) → Merged xs ys (merge choices xs ys)
unfolding merge
merge-Merged choices [] ys = Merged-second ys
merge-Merged choices (x ∷ xs) [] = Merged-first (x ∷ xs)
merge-Merged [] (x ∷ xs) (y ∷ ys) = of_first (merge-Merged [] xs (y ∷ ys))
merge-Merged (true ∷ choices) (x ∷ xs) (y ∷ ys) = of_first (merge-Merged choices xs (y ∷ ys))
merge-Merged (false ∷ choices) (x ∷ xs) (y ∷ ys) = of_second (merge-Merged choices (x ∷ xs) ys)

pongs-answers :
    {E : Type 0} (items : List (Either BaseMessage E)) (room : ℕ)
    → length (keep_alives items) ≤ room
    → pongs ((fill (next_stage room) (keep_alives items)).taken) ≡ answers items
unfolding pongs
pongs-answers items room k =
    rw (take-all room (keep_alives items) k, filter_map-all only_ping tt (keep_alives items))
      (somes-answers items)

-- While the receiver of the messages takes all of them and the output takes all keep-alive messages,
-- the program receives the text and binary messages before the first close frame or error, in order;
-- and the socket is sent, as far as it takes them, what the program sends and a pong for every
-- ping before the first close frame or error, with the payload of the ping, each in order.
pub handle_websocket_message_stream-exchange :
    {E : Type 0} (items : List (Either BaseMessage E)) (sent : List Message) (choices : List Bool)
    (msg_end : Sink Message) (room : ℕ) (socket : Sink BaseMessage)
    → length (received items) ≤ msg_end.room
    → length (keep_alives items) ≤ room
    → (output : List BaseMessage) × (handle_websocket_message_stream items sent choices msg_end room
          socket
        ≡ (fill msg_end (received items), fill socket output))
      × Merged (map to_base sent) (answers items) output
unfolding handle_websocket_message_stream
handle_websocket_message_stream-exchange items sent choices msg_end room socket h k =
    let pairs = incoming-fill items msg_end room h k in
    let output = merge choices (map to_base sent) (answers items) in
    (
      output,
      rw (pairs, pongs-answers items room k, pipe-fill output socket) refl,
      merge-Merged choices (map to_base sent) (answers items),
    )
