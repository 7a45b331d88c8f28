-- ===== src/Rpc/Broker/Exchange.antt =====
-- crates/common/src/net/rpc/broker.rs: a command between two brokers, from the client's call to the
-- end of its responses.
use minibot_rust.Base.{ℕ, ◌≡◌, refl, ap, true, List, [], ◌∷◌, ◌++◌, none, some, map, arith}
use minibot_rust.Rpc.Message.{Message, command, response, end_stream}
use minibot_rust.Rpc.Broker.{
  Broker, lookup, remove, send, deliver, spawn_sender, drop_sink, running, Environment, Event,
  message, handle_start_command, handle_message, handle_event, stream_sender_loop, follow, start,
}
use minibot_rust.Rpc.Broker.Streams.{lookup-insert_self}

abbrev pub handed :
    {Value : Type 0}
    → Environment Value
    → List (Message Value)
    → List (Environment Value × Event Value)
handed env messages = map (λ m. (env, message m)) messages

module _ {Value : Type 0} (env : Environment Value) where
  response_step :
      (v : Value) (id sink : ℕ) (b : Broker)
      → lookup id b.incoming_streams ≡ some sink
      → env.sink_open sink ≡ true
      → handle_message env (response id v) b
        ≡ record { broker = b; effects = deliver sink v ∷ []; status = running }
  unfolding handle_message
  response_step v id sink b there is_open = ground (arith, there, is_open)

  end_step :
      (id sink : ℕ) (b : Broker)
      → lookup id b.incoming_streams ≡ some sink
      → handle_message env (end_stream id) b ≡ record {
        broker = record b { incoming_streams = remove id b.incoming_streams };
        effects = drop_sink sink ∷ [];
        status = running;
      }
  unfolding handle_message
  end_step id sink b there = ground (arith, there)

  -- What a broker makes of the messages of a stream while the client's sink is open.
  start-stream_sender_loop :
      (values : List Value) (id sink : ℕ) (b : Broker)
      → lookup id b.incoming_streams ≡ some sink
      → env.sink_open sink ≡ true
      → (start (handed env (stream_sender_loop id values)) b).effects
        ≡ map (deliver sink) values ++ drop_sink sink ∷ []
  unfolding start handle_event stream_sender_loop follow
  start-stream_sender_loop [] id sink b there is_open = rw (end_step id sink b there) refl
  start-stream_sender_loop (v ∷ values) id sink b there is_open =
      rw (response_step v id sink b there is_open)
        (ap (λ es. deliver sink v ∷ es) (start-stream_sender_loop values id sink b there is_open))

-- A command of a client of `a`, answered by `b`: when the connection and the client's sink are open,
-- the id is free on both sides and the handler of `b` takes the command, then `a` sends the command,
-- `b` starts the task that sends the responses, and from the messages of this task `a` hands every
-- response to the sink of the client, in order, and drops the sink.
pub command_exchange :
    {Value : Type 0} (env_a env_b : Environment Value) (method payload : Value)
    (values : List Value) (sink : ℕ) (a b : Broker)
    → env_a.connected ≡ true
    → env_a.sink_open sink ≡ true
    → env_b.start_command method payload ≡ true
    → lookup a.next_id a.incoming_streams ≡ none
    → lookup a.next_id b.outgoing_streams ≡ none
    → let id = a.next_id in
      let sent = handle_start_command env_a method payload sink a in
      (sent.effects ≡ send (command id method payload) ∷ [])
      × ((handle_message env_b (command id method payload) b).effects ≡ spawn_sender id ∷ [])
      × ((start (handed env_a (stream_sender_loop id values)) sent.broker).effects
          ≡ map (deliver sink) values ++ drop_sink sink ∷ [])
unfolding handle_start_command handle_message
command_exchange env_a env_b method payload values sink a b connected is_open takes free free_b =
    let id = a.next_id in
    let sent = handle_start_command env_a method payload sink a in
    let there : lookup id (sent.broker).incoming_streams ≡ some sink =
      ground (arith, connected, lookup-insert_self id sink a.incoming_streams) in
    (
      ground (arith, connected, free),
      ground (arith, takes, free_b),
      start-stream_sender_loop env_a values id sink sent.broker there is_open,
    )
