-- ===== src/MqClient.antt =====
-- crates/mq/src/lib.rs: `Broker`, a client of an AMQP server. The server is outside: it is a function
-- of the calls so far, the newest last, that says with which error it answers, if it does.
pub mod Calls
pub mod Routes
mod Tests
use minibot_rust.Base.{
  ℕ, ◌^◌, Bool, true, false, List, [], ◌∷◌, ◌++◌, Option, none, some, Bytes, codes, Outcome, ok,
  err, panic, out_of_fuel, ltb, if◌then◌else◌,
}
use minibot_rust.Pipe.{Either, left, right}

abbrev pub Text : Type 0
Text = List ℕ

pub data MessageSource : Type 0 where
  user : Text → MessageSource

unfoldable pub to_routing_key : MessageSource → Text
to_routing_key (user username) = codes "irc:" ++ username

-- `QueueId`: the hyphenated form of the UUID, which the package draws.
abbrev pub QueueId : Type 0
QueueId = Text

unfoldable pub queue_name : QueueId → Text
queue_name id = codes "recv_queue:" ++ id

abbrev pub primary_exchange : Text
primary_exchange = codes "primary_exchange"

pub data ExchangeKind : Type 0 where
  topic fanout : ExchangeKind

-- What the client asks of the server. `connect` and `create_channel` open connections,
-- `basic_publish` is answered when it is sent. `publisher_confirm` is the second wait of
-- `send_message`: the channel is never put into confirm mode by `confirm_select`, so that the server
-- confirms nothing and the package answers for itself.
pub data Call : Type 0 where
  connect : Text → Call
  create_channel : Call
  exchange_declare : Text → ExchangeKind → (auto_delete : Bool) → (durable : Bool) → Call
  exchange_bind : (destination : Text) → (source : Text) → (routing_key : Text) → Call
  queue_declare : Text → (expires : ℕ) → Call
  queue_bind : (queue : Text) → (exchange : Text) → (routing_key : Text) → Call
  basic_consume : (queue : Text) → Call
  basic_publish : (exchange : Text) → (routing_key : Text) → Bytes → Call
  publisher_confirm : Call

-- The queue, by its id and the name of the queue that is consumed.
pub record Queue : Type 0 where
  pub id : QueueId
  pub consumer : Text

-- A computation that can make calls, and the log of the calls.
abbrev pub M : Type 0 → Type 0 → Type 0
M E A = List Call → Outcome E A × List Call

module _ {E : Type 0} where
  abbrev bind_step : {A B : Type 0} → (A → M E B) → Outcome E A → M E B
  bind_step f (ok a) calls = f a calls
  bind_step f (err e) calls = (err e, calls)
  bind_step f panic calls = (panic, calls)
  bind_step f out_of_fuel calls = (out_of_fuel, calls)

  infixl 5 ◌>>=◌ ◌>>◌
  abbrev pub ◌>>=◌ : {A B : Type 0} → M E A → (A → M E B) → M E B
  ◌>>=◌ m f calls = bind_step f (m calls).0 (m calls).1

  abbrev pub ◌>>◌ : {B : Type 0} → M E (Unit {0}) → M E B → M E B
  m >> k = m >>= λ _. k

  abbrev pub pure : {A : Type 0} → A → M E A
  pure a calls = (ok a, calls)

abbrev pub fanout_name : MessageSource → Text
fanout_name source = codes "fanout_excg:" ++ to_routing_key source

-- `expires.as_millis().try_into().unwrap()`, into an `i64`.
unfoldable pub expiry : {E : Type 0} → ℕ → M E ℕ
expiry millis calls = if ltb millis (2 ^ 63) then (ok millis, calls) else (panic, calls)

module _ {E : Type 0} (answer : List Call → Option E) where
  -- One call, awaited, with `map_err(Error::new_other)?`.
  unfoldable pub request : Call → M E (Unit {0})
  request c calls = elim (answer (calls ++ c ∷ [])) [
    | none ↦ (ok tt, calls ++ c ∷ [])
    | some e ↦ (err e, calls ++ c ∷ [])
  ]

  -- `Broker::new`.
  unfoldable pub new_broker : Text → M E (Unit {0})
  unfolding request
  new_broker uri = do
    request (connect uri)
    request create_channel
    request (exchange_declare primary_exchange topic false true)

  -- `Broker::create_queue`; the new id is drawn by the package.
  unfoldable pub create_queue : MessageSource → ℕ → QueueId → M E Queue
  unfolding request expiry queue_name to_routing_key
  create_queue source millis id = do
    request create_channel
    request (exchange_declare (fanout_name source) fanout true false)
    request (exchange_bind (fanout_name source) primary_exchange (to_routing_key source))
    expires ← expiry millis
    request (queue_declare (queue_name id) expires)
    request (queue_bind (queue_name id) (fanout_name source) [])
    request (basic_consume (queue_name id))
    pure (record { id = id; consumer = queue_name id })

  -- `Broker::open_queue`.
  unfoldable pub open_queue : QueueId → M E Queue
  unfolding request queue_name
  open_queue id = do
    request create_channel
    request (basic_consume (queue_name id))
    pure (record { id = id; consumer = queue_name id })

  -- `Broker::send_message`.
  unfoldable pub send_message : MessageSource → Bytes → M E (Unit {0})
  unfolding request to_routing_key
  send_message source msg = do
    request create_channel
    request (basic_publish primary_exchange (to_routing_key source) msg)
    request publisher_confirm

-- `Queue::into_stream`: what the consumer yields, deliveries with their tags and data or errors. It
-- gives the tags that are acknowledged, whatever becomes of that, and the messages.
unfoldable pub into_stream : {E : Type 0} → List (Either (ℕ × Bytes) E) → List ℕ × List Bytes
into_stream [] = ([], [])
into_stream (right e ∷ values) = into_stream values
into_stream (left delivery ∷ values) =
    let rest = into_stream values in (delivery.0 ∷ rest.0, delivery.1 ∷ rest.1)
