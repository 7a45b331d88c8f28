-- ===== src/IrcClient/Tests.antt =====
-- Concrete runs of the IRC client.
use minibot_rust.Base.{
  ◌≡◌, refl, Bool, true, false, List, [], ◌∷◌, ◌++◌, none, some, Bytes, ok, codes, all, eq_bytes,
}
use minibot_rust.IrcRaw.Command.{name, num, from_name, is_ascii_alphabetic}
use minibot_rust.IrcRaw.Message.{
  Message, from_command_params, has_named_command, has_num_command, from_named_command_params,
}
use minibot_rust.IrcRaw.Slice.{split}
use minibot_rust.ByteString.Words.{nonempty}
use minibot_rust.IrcClient.{Incoming, message, failed, io, Conn}
use minibot_rust.IrcClient.Caps.Replies.{Lists}
use minibot_rust.IrcClient.Caps.Replies
use minibot_rust.IrcClient.Handshake.{initialize_irc_channel}
use minibot_rust.IrcClient.Handshake.Secret.{
  initialize_irc_channel-Sends, Sends, ask_caps, request, pass, nick, end_caps,
}
use minibot_rust.IrcClient.Handshake.Transcript
use minibot_rust.IrcClient.Handshake.Transcript.{Motd, initialize_irc_channel_ok}
use minibot_rust.IrcClient.Loops.{
  InputEvent, new_msg, new_ping, InputState, run_input_loop, OutputState,
}
use minibot_rust.IrcClient.Loops.Input.{run_input_loop-messages}
use minibot_rust.IrcClient.Handle.{new_client, join}
use minibot_rust.IrcClient.Handle.Session.{join_all, join_message}

abbrev cap : List Bytes → Message
cap params = from_command_params (name (codes "CAP")) params

abbrev listing : Message
listing = cap (codes "*" ∷ codes "LS" ∷ codes "a b" ∷ [])

abbrev acknowledgement : Message
acknowledgement = cap (codes "*" ∷ codes "ACK" ∷ codes "a" ∷ [])

abbrev welcome : Message
welcome = from_command_params (num 1) []

abbrev motd_end : Message
motd_end = from_command_params (num 376) []

abbrev conn : List Incoming → Conn
conn incoming = record { incoming = incoming; sent = []; writes = λ n. none }

abbrev after_acks : List Incoming
after_acks = message welcome ∷ message motd_end ∷ failed (io 1) ∷ []

abbrev replies : List Incoming
replies = message listing ∷ message acknowledgement ∷ after_acks

abbrev user : Bytes
user = codes "bot"

abbrev token : Bytes
token = codes "t"

initialize_irc_channel-Sends_example :
    (ms : List Message) × ((initialize_irc_channel user token (conn replies)).1.sent ≡ [] ++ ms)
    × Sends user token replies ms
initialize_irc_channel-Sends_example = initialize_irc_channel-Sends user token (conn replies)

initialize_irc_channel_ok_example : initialize_irc_channel user token (conn replies) ≡ (
  ok tt,
  record (conn replies) {
    incoming = failed (io 1) ∷ [];
    sent = ask_caps ∷ request (codes "a" ∷ codes "b" ∷ []) ∷ pass token ∷ nick user ∷ end_caps ∷ [];
  },
)
unfolding has_named_command has_num_command from_command_params eq_bytes nonempty split
initialize_irc_channel_ok_example =
    initialize_irc_channel_ok user token (conn replies) (λ n. refl)
      (Replies.last listing (codes "a b") _ refl refl)
      (Replies.last acknowledgement (codes "a") _ refl refl)
      (Transcript.more welcome refl (Transcript.last motd_end _ refl))

abbrev ping : Message
ping = from_command_params (name (codes "PING")) (codes "x" ∷ [])

abbrev events : List InputEvent
events =
    new_msg (some (join_message (codes "a")))
    ∷ new_ping (some (codes "x"))
    ∷ new_msg (some (join_message (codes "b")))
    ∷ []

abbrev fresh : InputState
fresh = record { written = []; armed = true; writes = λ n. none }

run_input_loop-messages_example :
    (run_input_loop events fresh).written
    ≡ [] ++ join_message (codes "a") ∷ join_message (codes "b") ∷ []
run_input_loop-messages_example =
    run_input_loop-messages events fresh (λ n. refl) (tt, (tt, (tt, tt)))

abbrev listening : Bool → OutputState
listening heard = record {
  pings = [];
  output = [];
  closed = false;
  ping_open = λ n. true;
  output_open = λ n. heard;
}

joined :
    (join_all (codes "a" ∷ codes "b" ∷ []) new_client).inner
    ≡ some (join_message (codes "a") ∷ join_message (codes "b") ∷ [])
unfolding join_all join new_client from_named_command_params from_name is_ascii_alphabetic all
joined = refl
