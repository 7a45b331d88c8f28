-- ===== src/IrcClient/Loops/Input.antt =====
-- crates/irc/src/client.rs: what `run_input_loop` writes.
use minibot_rust.Base.{
  ℕ, ◌≡◌, refl, sym, ap, ◌∙◌, true, false, List, [], ◌∷◌, ◌++◌, append-nil, append_assoc, none,
  some, Bytes, length, All, Bool-cases, inl, inr, arith,
}
use minibot_rust.IrcRaw.Message.{Message}
use minibot_rust.IrcClient.Loops.{
  InputEvent, new_msg, new_ping, InputState, input_step, run_input_loop,
}

-- The messages that the input stream gives, up to its end.

abbrev pub messages : List InputEvent → List Message
messages [] = []
messages (new_msg none ∷ events) = []
messages (new_msg (some m) ∷ events) = m ∷ messages events
messages (new_ping p ∷ events) = messages events

-- The ping stream has not ended.
abbrev pub IsPing : InputEvent → Type 0
IsPing (new_msg m) = Unit
IsPing (new_ping none) = ⊥
IsPing (new_ping (some p)) = Unit

run_input_loop-step :
    (e : InputEvent) (events : List InputEvent) (st st' : InputState)
    → input_step e st ≡ some st'
    → run_input_loop (e ∷ events) st ≡ run_input_loop events st'
unfolding run_input_loop
run_input_loop-step e events st st' h = rw (h, run_input_loop) refl

later_ping :
    (p : Bytes) (st : InputState) → st.armed ≡ false → input_step (new_ping (some p)) st ≡ some st
unfolding input_step
later_ping p st h = ground (arith, h)

first_ping :
    (p : Bytes) (st : InputState)
    → st.armed ≡ true
    → input_step (new_ping (some p)) st ≡ some (record st { armed = false })
unfolding input_step
first_ping p st h = ground (arith, h)

-- Whatever pings come between them, and as long as no write fails and the ping stream goes on, the
-- loop writes the messages of the input stream, in order and nothing else: no ping is answered.
pub run_input_loop-messages :
    (events : List InputEvent) (st : InputState)
    → ((n : ℕ) → st.writes n ≡ none)
    → All IsPing events
    → (run_input_loop events st).written ≡ st.written ++ messages events
unfolding run_input_loop input_step
run_input_loop-messages [] st w h = sym (append-nil st.written)
run_input_loop-messages (new_msg none ∷ events) st w h = sym (append-nil st.written)
run_input_loop-messages (new_msg (some m) ∷ events) st w h =
    rw (w (length st.written), input_step, run_input_loop)
      (run_input_loop-messages events (record st { written = st.written ++ m ∷ [] }) w h.1
        ∙ simp append_assoc)
run_input_loop-messages (new_ping none ∷ events) st w h = absurd h.0
run_input_loop-messages (new_ping (some p) ∷ events) st w h = elim (Bool-cases st.armed) [
  | inl first ↦
      let st' : InputState = record st { armed = false } in
      ap (λ s. s.written)
        (run_input_loop-step (new_ping (some p)) events st st' (first_ping p st first))
      ∙ run_input_loop-messages events st' w h.1
  | inr later ↦
      ap (λ s. s.written)
        (run_input_loop-step (new_ping (some p)) events st st (later_ping p st later))
      ∙ run_input_loop-messages events st w h.1
]
