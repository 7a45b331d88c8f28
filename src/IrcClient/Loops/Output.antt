-- ===== src/IrcClient/Loops/Output.antt =====
-- crates/irc/src/client.rs: where `run_output_loop` sends the messages of the server.
use minibot_rust.Base.{
  ℕ, ◌≡◌, refl, ◌∙◌, Bool, true, false, List, [], ◌∷◌, ◌++◌, append-nil, append_assoc, none, some,
  Bytes, length, All, codes, Bool-cases, inl, inr, if◌then◌else◌, get_elem?,
}
use minibot_rust.IrcRaw.Message.{Message, has_named_command}
use minibot_rust.IrcClient.{Incoming, message, failed}
use minibot_rust.IrcClient.Loops.{OutputState, output_step, run_output_loop}

abbrev pub is_ping : Message → Bool
is_ping m = has_named_command m (codes "PING")

abbrev first_param : Message → List Bytes
first_param m = elim (get_elem? m.params 0) [ none ↦ [] | some p ↦ p ∷ [] ]

first_param-some :
    (m : Message) (p : Bytes) → get_elem? m.params 0 ≡ some p → first_param m ≡ p ∷ []
first_param-some m p e = rw (e, first_param) refl

-- The first parameters of the PING messages, and the other messages.
abbrev pub pings_of : List Message → List Bytes
pings_of [] = []
pings_of (m ∷ ms) = (if is_ping m then first_param m else []) ++ pings_of ms

abbrev pub others : List Message → List Message
others [] = []
others (m ∷ ms) = (if is_ping m then [] else m ∷ []) ++ others ms

-- A PING has a parameter.
abbrev pub HasPayload : Message → Type 0
HasPayload m = is_ping m ≡ true → (p : Bytes) × (get_elem? m.params 0 ≡ some p)

-- The stream ends, or gives an error.
abbrev pub Stops : List Incoming → Type 0
Stops [] = Unit
Stops (failed e ∷ rest) = Unit
Stops (message m ∷ rest) = ⊥

abbrev pub stream : List Message → List Incoming → List Incoming
stream [] rest = rest
stream (m ∷ ms) rest = message m ∷ stream ms rest

-- While both receivers take what they are sent, and every PING has a parameter, the loop goes on to
-- the end or the first error of the stream: the first parameters of the PING messages have gone to
-- the ping sink, all other messages to the output, both in order, and both sinks are closed.
pub run_output_loop-splits :
    (ms : List Message) (rest : List Incoming) (st : OutputState)
    → ((n : ℕ) → st.ping_open n ≡ true)
    → ((n : ℕ) → st.output_open n ≡ true)
    → All HasPayload ms
    → Stops rest
    → run_output_loop (stream ms rest) st
      ≡ some (record st {
        pings = st.pings ++ pings_of ms;
        output = st.output ++ others ms;
        closed = true;
      })
unfolding run_output_loop output_step
run_output_loop-splits [] [] st pings output h s = simp append-nil
run_output_loop-splits [] (failed e ∷ rest) st pings output h s = simp append-nil
run_output_loop-splits [] (message m ∷ rest) st pings output h s = absurd s
run_output_loop-splits (m ∷ ms) rest st pings output h s = elim (Bool-cases (is_ping m)) [
  | inl ping ↦
      let (p, e) = h.0 ping in
      rw (ping, e, pings (length st.pings), output_step, run_output_loop)
        (run_output_loop-splits ms rest (record st { pings = st.pings ++ p ∷ [] }) pings output h.1
            s
          ∙ rw (first_param-some m p e) (simp append_assoc))
  | inr other ↦
      rw (other, output (length st.output), output_step, run_output_loop)
        (run_output_loop-splits ms rest (record st { output = st.output ++ m ∷ [] }) pings output
            h.1 s
          ∙ simp append_assoc)
]

-- Once nothing receives the output, as `Client::new` has it, the first message that is no PING ends
-- the loop: what stands behind it in the stream is not read, and no PING of it is passed on.
pub run_output_loop-unheard :
    (ms : List Message) (m : Message) (rest : List Incoming) (st : OutputState)
    → ((n : ℕ) → st.ping_open n ≡ true)
    → ((n : ℕ) → st.output_open n ≡ false)
    → All (λ m. is_ping m ≡ true) ms
    → All HasPayload ms
    → is_ping m ≡ false
    → run_output_loop (stream ms (message m ∷ rest)) st
      ≡ some (record st { pings = st.pings ++ pings_of ms; closed = true })
unfolding run_output_loop output_step
run_output_loop-unheard [] m rest st pings output all_pings h other =
    rw (other, output (length st.output), output_step, run_output_loop) (rw append-nil refl)
run_output_loop-unheard (n ∷ ms) m rest st pings output all_pings h other =
    let (p, e) = h.0 all_pings.0 in
    rw (all_pings.0, e, pings (length st.pings), output_step, run_output_loop)
      (run_output_loop-unheard ms m rest (record st { pings = st.pings ++ p ∷ [] }) pings output
          all_pings.1 h.1 other
        ∙ rw (first_param-some n p e) (simp append_assoc))

-- A PING with no parameter ends the task with a panic.
pub run_output_loop-panics :
    (m : Message) (rest : List Incoming) (st : OutputState)
    → is_ping m ≡ true
    → m.params ≡ []
    → run_output_loop (message m ∷ rest) st ≡ none
unfolding run_output_loop output_step
run_output_loop-panics m rest st ping e = rw (ping, e, output_step, run_output_loop) refl
