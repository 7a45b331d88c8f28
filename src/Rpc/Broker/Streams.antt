-- ===== src/Rpc/Broker/Streams.antt =====
-- crates/common/src/net/rpc/broker.rs: the maps of streams and the ids along the events of a
-- `Broker`.
use minibot_rust.Base.{
  ℕ, true, List, [], ◌∷◌, none, some, ◌==◌, if◌then◌else◌, ◌≡◌, ◌≢◌, refl, ◌∙◌, arith, inl, inr,
  All, Option-cases, ==_refl,
}
use minibot_rust.Rpc.Message.{
  command, cancel, response, end_stream, error, already_running, unallocated_id, new_error_with_id,
}
use minibot_rust.Rpc.Broker.{
  Map, lookup, insert, remove, Broker, new, send, deliver, drop_sink, Status, running, stopped,
  panicked, Outcome, Environment, Event, message, terminate, handle_start_command, handle_message,
  handle_event, start, follow,
}

module _ {A : Type 0} where
  pub lookup-insert :
      (id asked : ℕ) (stream : A) (streams : Map A)
      → lookup asked (insert id stream streams)
        ≡ (if id == asked then some stream else lookup asked streams)
  unfolding insert lookup
  lookup-insert id asked stream [] = refl
  lookup-insert id asked stream (entry ∷ streams) =
      ground (arith, lookup-insert id asked stream streams)

  pub lookup-remove :
      (id asked : ℕ) (streams : Map A)
      → lookup asked (remove id streams) ≡ (if id == asked then none else lookup asked streams)
  unfolding remove lookup
  lookup-remove id asked [] = ground arith
  lookup-remove id asked (entry ∷ streams) = ground (arith, lookup-remove id asked streams)

  pub lookup-insert_self :
      (id : ℕ) (stream : A) (streams : Map A) → lookup id (insert id stream streams) ≡ some stream
  lookup-insert_self id stream streams = lookup-insert id id stream streams ∙ rw ==_refl

-- An id of the peer that is in use.
abbrev pub InUse : ℕ → Broker → Type 0
InUse id b = lookup id b.outgoing_streams ≢ none

command_InUse :
    {Value : Type 0} (id : ℕ) (env : Environment Value) (method payload : Value) (b : Broker)
    → InUse id b
    → env.connected ≡ true
    → (handle_message env (command id method payload) b).effects
      ≡ send (new_error_with_id id already_running) ∷ []
unfolding handle_message
command_InUse id env method payload b h c = elim (Option-cases (lookup id b.outgoing_streams)) [
  | inl free ↦ absurd (h free)
  | inr (handle, used) ↦ ground arith
]

module _ {Value : Type 0} where
  -- While the connection and the sink are open: a command is sent under the next id, with its method
  -- and payload, the sink that had this id, if any, is dropped, and the broker goes on. Right behind it, a response with that id is handed to its sink and changes nothing,
  -- and the end of the stream drops the sink; a response behind the end is answered with an error,
  -- and the broker stops.
  pub command_lifecycle :
      (env : Environment Value) (method payload answer : Value) (sink : ℕ) (b : Broker)
      → env.connected ≡ true
      → env.sink_open sink ≡ true
      → let id = b.next_id in
        let sent = handle_start_command env method payload sink b in
        let answered = handle_message env (response id answer) sent.broker in
        let ended = handle_message env (end_stream id) sent.broker in
        let late = handle_message env (response id answer) ended.broker in
        (sent.effects
          ≡ send (command id method payload)
            ∷ elim (lookup id b.incoming_streams) [ none ↦ [] | some old ↦ drop_sink old ∷ [] ])
        × (sent.status ≡ running)
        × (answered
            ≡ record { broker = sent.broker; effects = deliver sink answer ∷ []; status = running })
        × (ended.effects ≡ drop_sink sink ∷ [])
        × (ended.status ≡ running)
        × (late.status ≡ stopped)
        × (late.effects ≡ send (error unallocated_id (some id)) ∷ [])
  unfolding handle_start_command handle_message
  command_lifecycle env method payload answer sink b c o =
      let found = lookup-insert_self b.next_id sink b.incoming_streams in
      let gone = lookup-remove b.next_id b.next_id (insert b.next_id sink b.incoming_streams) in
      ground (arith, found, gone)

  handle_event-next_id :
      (env : Environment Value) (event : Event Value) (b : Broker)
      → b.next_id ≡ 1
      → (handle_event env event b).broker.next_id ≡ 1
  unfolding handle_event
  handle_event-next_id env (Event.start_command method payload sink) b h = ground arith
  handle_event-next_id env terminate b h = h
  handle_event-next_id env (message (command id method payload)) b h = ground arith
  handle_event-next_id env (message (cancel id)) b h = ground arith
  handle_event-next_id env (message (response id payload)) b h = ground arith
  handle_event-next_id env (message (end_stream id)) b h = ground arith
  handle_event-next_id env (message (error text id)) b h = h

  follow_invariant :
      (P : Broker → Type 0) (status : Status) (now later : Outcome Value)
      → P now.broker
      → P later.broker
      → P (follow status now later).broker
  unfolding follow
  follow_invariant P running now later h k = k
  follow_invariant P stopped now later h k = h
  follow_invariant P panicked now later h k = h

  -- What every event with `Q` keeps holds after every run of such events.
  pub start_invariant :
      (P : Broker → Type 0) (Q : Event Value → Type 0)
      → ((env : Environment Value) (event : Event Value) (b : Broker)
          → Q event
          → P b
          → P (handle_event env event b).broker)
      → (events : List (Environment Value × Event Value)) (b : Broker) → All (λ e. Q e.1) events
      → P b
      → P (start events b).broker
  unfolding start
  start_invariant P Q keep [] b q h = h
  start_invariant P Q keep ((env, event) ∷ rest) b q h =
      let now = handle_event env event b in
      let h' = keep env event b q.0 h in
      follow_invariant P now.status now (start rest now.broker) h'
        (start_invariant P Q keep rest now.broker q.1 h')

  any_event : (events : List (Environment Value × Event Value)) → All (λ _. Unit {0}) events
  any_event [] = tt
  any_event (e ∷ rest) = (tt, any_event rest)

  -- After every sequence of events a new broker has the next id 1, its first.
  pub start-next_id :
      (events : List (Environment Value × Event Value)) → (start events new).broker.next_id ≡ 1
  start-next_id events =
      start_invariant (λ b. b.next_id ≡ 1) (λ _. Unit)
        (λ env event b _. handle_event-next_id env event b) events new (any_event events)
        (unfold new in refl)

  -- While the connection and the second sink are open, a broker whose next id is 1 sends two
  -- commands one after another under the id 1: the second drops the sink of the first, and a
  -- response with the id goes to the sink of the second.
  pub second_command_takes_over :
      (env : Environment Value) (m₁ m₂ p₁ p₂ answer : Value) (sink₁ sink₂ : ℕ) (b : Broker)
      → b.next_id ≡ 1
      → env.connected ≡ true
      → env.sink_open sink₂ ≡ true
      → let first = handle_start_command env m₁ p₁ sink₁ b in
        let second = handle_start_command env m₂ p₂ sink₂ first.broker in
        (second.effects ≡ send (command 1 m₂ p₂) ∷ drop_sink sink₁ ∷ [])
        × ((handle_message env (response 1 answer) second.broker).effects
            ≡ deliver sink₂ answer ∷ [])
  unfolding handle_start_command handle_message
  second_command_takes_over env m₁ m₂ p₁ p₂ answer sink₁ sink₂ b n c o =
      let found₁ = lookup-insert_self 1 sink₁ b.incoming_streams in
      let found₂ = lookup-insert_self 1 sink₂ (insert 1 sink₁ b.incoming_streams) in
      ground (arith, found₁, found₂)

  abbrev pub NoCancel : ℕ → Event Value → Type 0
  NoCancel id event = event ≢ message (cancel id)

  handle_event-InUse :
      (id : ℕ) (env : Environment Value) (event : Event Value) (b : Broker)
      → NoCancel id event
      → InUse id b
      → InUse id (handle_event env event b).broker
  unfolding handle_event
  handle_event-InUse id env (Event.start_command method payload sink) b n h = ground arith
  handle_event-InUse id env terminate b n h = h
  handle_event-InUse id env (message (command j method payload)) b n h =
      ground (arith, lookup-insert j id env.fresh_handle b.outgoing_streams)
  handle_event-InUse id env (message (cancel j)) b n h =
      ground (arith, lookup-remove j id b.outgoing_streams)
  handle_event-InUse id env (message (response j payload)) b n h = ground arith
  handle_event-InUse id env (message (end_stream j)) b n h = ground arith
  handle_event-InUse id env (message (error text j)) b n h = h

  -- Where a command of the peer has an id, and no event since is a cancel with that id, a command
  -- with the id is answered with an error while the connection is open, whatever the events were.
  pub id_stays-InUse :
      (id : ℕ) (env : Environment Value) (method payload : Value)
      (events : List (Environment Value × Event Value)) (b : Broker)
      → InUse id b
      → All (λ e. NoCancel id e.1) events
      → env.connected ≡ true
      → let later = (start events b).broker in
        (handle_message env (command id method payload) later).effects
        ≡ send (new_error_with_id id already_running) ∷ []
  id_stays-InUse id env method payload events b h n c =
      command_InUse id env method payload (start events b).broker
        (start_invariant (InUse id) (NoCancel id) (handle_event-InUse id) events b n h) c
