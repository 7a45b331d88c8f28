-- ===== src/IrcClient.antt =====
-- crates/irc/src/client.rs: the connection of the client as the code sees it, its errors, and the
-- helpers that all of it uses. The network is outside: what the stream gives is a list, and what
-- becomes of the n-th message that is written is a function.
pub mod Caps
pub mod Handshake
pub mod Loops
pub mod Handle
mod Tests
use minibot_rust.Base.{
  ℕ, ◌+◌, Bool, true, false, List, [], ◌∷◌, ◌++◌, Option, none, some, Bytes, length, Outcome, ok,
  err, panic, out_of_fuel,
}
use minibot_rust.IrcRaw.Error
use minibot_rust.IrcRaw.Message.{Message, from_named_command_params}

-- `Error` of crates/irc-raw/src/codec.rs; an `io::Error` is a number.
pub data StreamError : Type 0 where
  io : ℕ → StreamError
  parse : Error.Error → StreamError

pub data ClientError : Type 0 where
  connection : StreamError → ClientError
  unexpected_end : ClientError
  join_failed : ClientError
  already_closed : ClientError
  irc : StreamError → ClientError

abbrev pub ClientResult : Type 0 → Type 0
ClientResult A = Outcome ClientError A

-- What the stream gives next: a message or an error. At the end of the list the stream has ended.
pub data Incoming : Type 0 where
  message : Message → Incoming
  failed : StreamError → Incoming

-- `writes n` is the error of the write behind `n` written messages, if it fails.
pub record Conn : Type 0 where
  pub incoming : List Incoming
  pub sent : List Message
  pub writes : ℕ → Option StreamError

abbrev pub M : Type 0 → Type 0
M A = Conn → ClientResult A × Conn

abbrev bind_step : {A B : Type 0} → (A → M B) → ClientResult A → M B
bind_step f (ok a) c = f a c
bind_step f (err e) c = (err e, c)
bind_step f panic c = (panic, c)
bind_step f out_of_fuel c = (out_of_fuel, c)

infixl 5 ◌>>=◌ ◌>>◌
abbrev pub ◌>>=◌ : {A B : Type 0} → M A → (A → M B) → M B
◌>>=◌ m f c = bind_step f (m c).0 (m c).1

abbrev pub ◌>>◌ : {B : Type 0} → M (Unit {0}) → M B → M B
m >> k = m >>= λ _. k

-- `IrcSink::send`.
unfoldable pub write : Message → M (Unit {0})
write m c = elim (c.writes (length c.sent)) [
  | none ↦ (ok tt, record c { sent = c.sent ++ m ∷ [] })
  | some e ↦ (err (irc e), c)
]

-- `Sender::send_n`. A name with other characters than letters is a panic of `Command::from_name`.
unfoldable pub send_n : List ℕ → List Bytes → M (Unit {0})
unfolding write
send_n cmd params c = elim (from_named_command_params cmd params) [
  | ok m ↦ write m c
  | err e ↦ (panic, c)
  | panic ↦ (panic, c)
  | out_of_fuel ↦ (out_of_fuel, c)
]

-- `join_bytes`: `first` is the flag of the loop.
join_loop : Bool → Bytes → List Bytes → Bytes
join_loop first connector [] = []
join_loop true connector (item ∷ items) = item ++ join_loop false connector items
join_loop false connector (item ∷ items) = connector ++ (item ++ join_loop false connector items)

unfoldable pub join_bytes : List Bytes → Bytes → Bytes
unfolding join_loop
join_bytes items connector = join_loop true connector items
