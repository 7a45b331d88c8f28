-- ===== src/IrcClient/Loops.antt =====
-- crates/irc/src/client.rs: `run_input_loop` and `run_output_loop`. A channel is what has gone into
-- it, with a function that says whether the receiver still takes the n-th item.
pub mod Input
pub mod Output
use minibot_rust.Base.{
  ℕ, Bool, true, false, List, [], ◌∷◌, ◌++◌, Option, none, some, Bytes, length, Outcome, ok, panic,
  codes, if◌then◌else◌, unwrap, get_elem?,
}
use minibot_rust.IrcRaw.Message.{Message, has_named_command, from_named_command_params}
use minibot_rust.IrcClient.{StreamError, Incoming, message, failed}

-- What `select!` picks: what the input stream gives, or what the ping stream gives.
pub data InputEvent : Type 0 where
  new_msg : Option Message → InputEvent
  new_ping : Option Bytes → InputEvent

-- `armed`: `ping_read_op` has not completed. `select!` leaves a completed one out, and the loop
-- never sets it anew.
pub record InputState : Type 0 where
  pub written : List Message
  pub armed : Bool
  pub writes : ℕ → Option StreamError

-- A round of the loop; `none` is the break.
unfoldable pub input_step : InputEvent → InputState → Option InputState
input_step (new_msg none) st = none
input_step (new_msg (some m)) st = elim (st.writes (length st.written)) [
  | none ↦ some (record st { written = st.written ++ m ∷ [] })
  | some e ↦ none
]
input_step (new_ping p) st =
    if st.armed
    then elim p [ none ↦ none | some payload ↦ some (record st { armed = false }) ]
    else some st

unfoldable pub run_input_loop : List InputEvent → InputState → InputState
run_input_loop [] st = st
run_input_loop (e ∷ events) st = elim (input_step e st) [
  | none ↦ st
  | some st' ↦ run_input_loop events st'
]

pub record OutputState : Type 0 where
  pub pings : List Bytes
  pub output : List Message
  pub closed : Bool
  pub ping_open : ℕ → Bool
  pub output_open : ℕ → Bool

pub data OutputStep : Type 0 where
  goes_on : OutputState → OutputStep
  breaks : OutputStep
  panics : OutputStep

send_ping : OutputState → Option Bytes → OutputStep
send_ping st none = panics
send_ping st (some payload) =
    if st.ping_open (length st.pings)
    then goes_on (record st { pings = st.pings ++ payload ∷ [] })
    else breaks

-- A round of the loop. `msg.params()[0]` panics at a PING with no parameter.
unfoldable pub output_step : Incoming → OutputState → OutputStep
unfolding send_ping
output_step (failed e) st = breaks
output_step (message m) st =
    if has_named_command m (codes "PING")
    then send_ping st (get_elem? m.params 0)
    else (if st.output_open (length st.output)
        then goes_on (record st { output = st.output ++ m ∷ [] })
        else breaks)

unfoldable pub close_sinks : OutputState → OutputState
close_sinks st = record st { closed = true }

-- The state, or none for a panic.
unfoldable pub run_output_loop : List Incoming → OutputState → Option OutputState
unfolding close_sinks
run_output_loop [] st = some (close_sinks st)
run_output_loop (i ∷ rest) st = elim (output_step i st) [
  | goes_on st' ↦ run_output_loop rest st'
  | breaks ↦ some (close_sinks st)
  | panics ↦ none
]
