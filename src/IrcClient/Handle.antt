-- ===== src/IrcClient/Handle.antt =====
-- crates/irc/src/client.rs: `Client`, the handle that the program holds. What goes into the input
-- channel is a list; that its receiver is gone is an argument of the call.
pub mod Session
use minibot_rust.Base.{
  ℕ, Bool, true, false, not, List, [], ◌∷◌, ◌++◌, Option, none, some, Bytes, Outcome, ok, err,
  panic, codes, if◌then◌else◌, assert, unwrap, ok_or, ◌>>=◌, out_of_fuel,
}
use minibot_rust.IrcRaw.Message.{Message, from_named_command_params}
use minibot_rust.IrcClient.{ClientResult, ClientError, already_closed, join_failed}

-- `Client(Option<ClientInner>)`, by what its input channel has taken.
pub record Client : Type 0 where
  pub inner : Option (List Message)

unfoldable pub new_client : Client
new_client = record { inner = some [] }

unfoldable pub get_inner_mut : Client → ClientResult (List Message)
get_inner_mut c = ok_or c.inner already_closed

-- `input.send(..)`, on a channel whose receiver is there or not.
send_input : Bool → List Message → Message → ClientResult (List Message)
send_input receiving input m = if receiving then ok (input ++ m ∷ []) else err already_closed

-- A command that is no name is a panic, as everywhere.
command_message : List ℕ → List Bytes → ClientResult Message
command_message cmd params = elim (from_named_command_params cmd params) [
  | ok m ↦ ok m
  | err e ↦ panic
  | panic ↦ panic
  | out_of_fuel ↦ out_of_fuel
]

put_inner : Client → ClientResult (List Message) → ClientResult (Unit {0}) × Client
put_inner c (ok input) = (ok tt, record c { inner = some input })
put_inner c (err e) = (err e, c)
put_inner c panic = (panic, c)
put_inner c out_of_fuel = (out_of_fuel, c)

unfoldable pub send_msg : Bool → List ℕ → List Bytes → Client → ClientResult (Unit {0}) × Client
unfolding get_inner_mut send_input command_message put_inner
send_msg receiving cmd params c =
    put_inner c
      do input ← get_inner_mut c; m ← command_message cmd params; send_input receiving input m

-- `Client::join`: the parameter is `format!("#{}", channel)`.
unfoldable pub join : Bool → Bytes → Client → ClientResult (Unit {0}) × Client
unfolding send_msg
join receiving channel c = send_msg receiving (codes "JOIN") ((b'#' ∷ channel) ∷ []) c

-- `Drop`: the client must have been closed.
unfoldable pub drop_client : Client → ClientResult (Unit {0})
drop_client c = elim c.inner [ none ↦ ok tt | some input ↦ panic ]

-- `Client::close`: `finished` is what the task gives when it is joined. The client, emptied, is
-- dropped at the end of the call, whatever that is.
await_task : Bool → List Message → ClientResult (Unit {0})
await_task finished input = if finished then ok tt else err join_failed

unfoldable pub close : Bool → Client → ClientResult (Unit {0}) × Client
unfolding await_task
close finished c = ((unwrap c.inner >>= await_task finished), record c { inner = none })
