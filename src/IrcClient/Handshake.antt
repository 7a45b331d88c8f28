-- ===== src/IrcClient/Handshake.antt =====
-- crates/irc/src/client.rs: `initialize_irc_channel` and `ClientFactory::connect`, the login of the
-- client at the server.
pub mod Transcript
pub mod Secret
use minibot_rust.Base.{
  ℕ, Bool, true, false, List, [], ◌∷◌, ◌++◌, Bytes, Outcome, ok, err, panic, out_of_fuel, codes,
  if◌then◌else◌,
}
use minibot_rust.IrcRaw.Message.{has_num_command}
use minibot_rust.IrcClient.{
  ClientResult, unexpected_end, irc, connection, StreamError, Incoming, message, failed, Conn, M,
  ◌>>=◌, ◌>>◌, send_n, join_bytes,
}
use minibot_rust.IrcClient.Caps.{read_caps}

-- A loop over the stream, in the monad of the connection.
abbrev pub reading : {A : Type 0} → (List Incoming → ClientResult A × List Incoming) → M A
reading read c = let (r, rest) = read c.incoming in (r, record c { incoming = rest })

-- The loop that waits for the end of the message of the day.
unfoldable pub await_motd_end : List Incoming → ClientResult (Unit {0}) × List Incoming
await_motd_end [] = (err unexpected_end, [])
await_motd_end (failed e ∷ rest) = (err (irc e), rest)
await_motd_end (message m ∷ rest) =
    if has_num_command m 376 then (ok tt, rest) else await_motd_end rest

unfoldable pub initialize_irc_channel : Bytes → Bytes → M (Unit {0})
unfolding send_n
initialize_irc_channel user token = do
  send_n (codes "CAP") (codes "LS" ∷ codes "302" ∷ [])
  caps ← reading (read_caps (codes "LS") [])
  send_n (codes "CAP") (codes "REQ" ∷ join_bytes caps (codes " ") ∷ [])
  acked ← reading (read_caps (codes "ACK") [])
  send_n (codes "PASS") ((codes "oauth:" ++ token) ∷ [])
  send_n (codes "NICK") (user ∷ [])
  send_n (codes "CAP") (codes "END" ∷ [])
  reading await_motd_end
