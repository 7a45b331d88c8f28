-- ===== src/IrcClient/Handle/Session.antt =====
-- crates/irc/src/client.rs: a client that joins channels, with the loop that writes what it sends.
use minibot_rust.Base.{
  ◌≡◌, refl, sym, ap, ◌∙◌, Bool, true, List, [], ◌∷◌, ◌++◌, append-nil, append_assoc, map, ℕ, none,
  some, Bytes, All, ◌>>=◌, ok, panic, codes,
}
use minibot_rust.IrcRaw.Command.{name, from_name}
use minibot_rust.IrcRaw.Message.{Message, from_command_params, from_named_command_params}
use minibot_rust.IrcClient.Loops.{InputEvent, InputState, run_input_loop}
use minibot_rust.IrcClient.Loops.Input.{messages, IsPing, run_input_loop-messages}
use minibot_rust.IrcClient.Handle.{Client, new_client, join, close, drop_client}

abbrev pub join_message : Bytes → Message
join_message channel = from_command_params (name (codes "JOIN")) ((b'#' ∷ channel) ∷ [])

-- The channels that are joined, one call after the other, while the task runs.
unfoldable pub join_all : List Bytes → Client → Client
join_all [] c = c
join_all (channel ∷ channels) c = join_all channels (join true channel c).1

join-open :
    (channel : Bytes) (c : Client) (input : List Message)
    → c.inner ≡ some input
    → join true channel c ≡ (ok tt, record c { inner = some (input ++ join_message channel ∷ []) })
unfolding join from_named_command_params from_name
join-open channel c input e = rw (e, ◌>>=◌) refl

join_all-inner :
    (channels : List Bytes) (c : Client) (input : List Message)
    → c.inner ≡ some input
    → (join_all channels c).inner ≡ some (input ++ map join_message channels)
unfolding join_all
join_all-inner [] c input e = e ∙ ap some (sym (append-nil input))
join_all-inner (channel ∷ channels) c input e =
    let input' = input ++ join_message channel ∷ [] in
    rw (join-open channel c input e, join_all)
      (join_all-inner channels (record c { inner = some input' }) input' refl ∙ simp append_assoc)

-- A new client that joins channels, with a task that takes from the input channel what has gone into
-- it: the task writes a JOIN for each channel, its name behind a `#`, in the order of the calls, as
-- long as no write fails and the ping stream goes on.
pub join_all-written :
    (channels : List Bytes) (events : List InputEvent) (st : InputState)
    → ((n : ℕ) → st.writes n ≡ none)
    → All IsPing events
    → (join_all channels new_client).inner ≡ some (messages events)
    → (run_input_loop events st).written ≡ st.written ++ map join_message channels
unfolding new_client
join_all-written channels events st w pings taken =
    let queued = join_all-inner channels new_client [] refl in
    let same : messages events ≡ map join_message channels = cc in
    run_input_loop-messages events st w pings ∙ ap (λ ms. st.written ++ ms) same

-- A client that has been closed, however its task ended, can be dropped; one that is dropped before
-- it is closed panics.
pub drop_client-close :
    (c : Client) (finished : Bool)
    → (drop_client (close finished c).1 ≡ ok tt)
      × ((input : List Message) → c.inner ≡ some input → drop_client c ≡ panic)
unfolding drop_client close
drop_client-close c finished = (refl, λ input e. rw e refl)
