-- ===== src/IrcClient/Handshake/Transcript.antt =====
-- crates/irc/src/client.rs: a login that goes through, `initialize_irc_channel` at a server that
-- answers as it should.
use minibot_rust.Base.{
  ℕ, ◌≡◌, refl, ◌∙◌, true, false, List, [], ◌∷◌, ◌++◌, append_assoc, none, Bytes, length, ok, codes,
}
use minibot_rust.IrcRaw.Command.{name, from_name}
use minibot_rust.IrcRaw.Message.{Message, has_num_command}
use minibot_rust.IrcClient.{
  Incoming, message, Conn, M, ClientResult, ◌>>=◌, ◌>>◌, send_n, join_bytes,
}
use minibot_rust.IrcClient.Caps.{read_caps}
use minibot_rust.IrcClient.Caps.Replies.{Lists, read_caps-Lists}
use minibot_rust.IrcClient.Handshake.{reading, await_motd_end, initialize_irc_channel}
use minibot_rust.IrcClient.Handshake.Secret.{
  named, ask_caps, request, pass, nick, end_caps, add_sent, write_works, send_n-write,
}

-- The message of the day, up to its end, the number 376.
pub data Motd : List Incoming → List Incoming → Type 0 where
  last :
      (m : Message) (rest : List Incoming)
      → has_num_command m 376 ≡ true
      → Motd (message m ∷ rest) rest
  more :
      (m : Message) {later rest : List Incoming}
      → has_num_command m 376 ≡ false
      → Motd later rest
      → Motd (message m ∷ later) rest

await_motd_end-Motd :
    {incoming rest : List Incoming} → Motd incoming rest → await_motd_end incoming ≡ (ok tt, rest)
unfolding await_motd_end
await_motd_end-Motd (last m rest h) = rw h refl
await_motd_end-Motd (more m h later) = rw h (await_motd_end-Motd later)

bind-ok :
    {A B : Type 0} (m : M A) (f : A → M B) (c : Conn) (a : A) (c' : Conn)
    → m c ≡ (ok a, c')
    → (m >>= f) c ≡ f a c'
bind-ok m f c a c' e = rw e refl

send_n-ok :
    {B : Type 0} (cmd : List ℕ) (params : List Bytes) (f : M B) (c : Conn)
    → from_name cmd ≡ ok (name cmd)
    → c.writes (length c.sent) ≡ none
    → (send_n cmd params >> f) c ≡ f (add_sent (named cmd params) c)
send_n-ok cmd params f c h w =
    bind-ok (send_n cmd params) (λ _. f) c tt (add_sent (named cmd params) c)
      (send_n-write cmd params c h ∙ write_works (named cmd params) c w)

reading-ok :
    {A B : Type 0} (read : List Incoming → ClientResult A × List Incoming) (f : A → M B) (c : Conn)
    (a : A) (rest : List Incoming)
    → read c.incoming ≡ (ok a, rest)
    → (reading read >>= f) c ≡ f a (record c { incoming = rest })
reading-ok read f c a rest e = rw e refl

-- At a server that lists its caps, acknowledges some, and sends its message of the day, and when no
-- write fails, the login succeeds: it has sent its five messages in order, where the request asks
-- for the caps that the server listed, and has read the stream up to the number 376, no further.
pub initialize_irc_channel_ok :
    (user token : Bytes) (c : Conn) {caps acked : List Bytes} {asked motd rest : List Incoming}
    → ((n : ℕ) → c.writes n ≡ none)
    → Lists (codes "LS") c.incoming caps asked
    → Lists (codes "ACK") asked acked motd
    → Motd motd rest
    → initialize_irc_channel user token c ≡ (
      ok tt,
      record c {
        incoming = rest;
        sent = c.sent ++ ask_caps ∷ request caps ∷ pass token ∷ nick user ∷ end_caps ∷ [];
      },
    )
unfolding initialize_irc_channel from_name
initialize_irc_channel_ok user token c {caps} {acked} {asked} {motd} {rest} w ls ack end =
    let c1 : Conn = record (add_sent ask_caps c) { incoming = asked } in
    let c2 : Conn = record (add_sent (request caps) c1) { incoming = motd } in
    let c3 : Conn = add_sent end_caps (add_sent (nick user) (add_sent (pass token) c2)) in
    send_n-ok (codes "CAP") (codes "LS" ∷ codes "302" ∷ []) _ c refl (w _)
    ∙ reading-ok (read_caps (codes "LS") []) _ (add_sent ask_caps c) caps asked
        (read_caps-Lists (codes "LS") [] ls)
    ∙ send_n-ok (codes "CAP") (codes "REQ" ∷ join_bytes caps (codes " ") ∷ []) _ c1 refl (w _)
    ∙ reading-ok (read_caps (codes "ACK") []) _ (add_sent (request caps) c1) acked motd
        (read_caps-Lists (codes "ACK") [] ack)
    ∙ send_n-ok (codes "PASS") ((codes "oauth:" ++ token) ∷ []) _ c2 refl (w _)
    ∙ send_n-ok (codes "NICK") (user ∷ []) _ (add_sent (pass token) c2) refl (w _)
    ∙ send_n-ok (codes "CAP") (codes "END" ∷ []) _ (add_sent (nick user) (add_sent (pass token) c2))
        refl (w _)
    ∙ rw (await_motd_end-Motd end) (simp append_assoc)
