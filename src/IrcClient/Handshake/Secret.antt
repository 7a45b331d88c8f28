-- ===== src/IrcClient/Handshake/Secret.antt =====
-- crates/irc/src/client.rs: what `initialize_irc_channel` has sent, however it comes out.
use minibot_rust.Base.{
  ℕ, ◌≡◌, refl, sym, subst, List, [], ◌∷◌, ◌++◌, append-nil, append_assoc, none, some, Bytes,
  length, ok, err, panic, out_of_fuel, codes, Option-cases, inl, inr,
}
use minibot_rust.IrcRaw.Command.{name, from_name}
use minibot_rust.IrcRaw.Message.{Message, from_command_params, from_named_command_params}
use minibot_rust.IrcClient.{ClientResult, Incoming, Conn, M, ◌>>=◌, ◌>>◌, send_n, write, join_bytes}
use minibot_rust.IrcClient.Caps.{read_caps}
use minibot_rust.IrcClient.Caps.Replies.{Lists, read_caps-Read}
use minibot_rust.IrcClient.Handshake.{reading, await_motd_end, initialize_irc_channel}

abbrev pub named : List ℕ → List Bytes → Message
named cmd params = from_command_params (name cmd) params

abbrev pub ask_caps : Message
ask_caps = named (codes "CAP") (codes "LS" ∷ codes "302" ∷ [])

abbrev pub request : List Bytes → Message
request caps = named (codes "CAP") (codes "REQ" ∷ join_bytes caps (codes " ") ∷ [])

abbrev pub pass : Bytes → Message
pass token = named (codes "PASS") ((codes "oauth:" ++ token) ∷ [])

abbrev pub nick : Bytes → Message
nick user = named (codes "NICK") (user ∷ [])

abbrev pub end_caps : Message
end_caps = named (codes "CAP") (codes "END" ∷ [])

-- The server has listed the caps at the head of a stream, and behind them has sent a whole
-- acknowledgement, which may name no cap.
abbrev pub Acknowledged : List Incoming → List Bytes → Type 0
Acknowledged incoming caps =
    (asked : List Incoming) × (acked : List Bytes) × (rest : List Incoming) × Lists (codes "LS")
      incoming caps asked
    × Lists (codes "ACK") asked acked rest

-- The messages that a login has sent at some point.
pub data Sends (user token : Bytes) (incoming : List Incoming) : List Message → Type 0 where
  nothing : Sends user token incoming []
  asked : Sends user token incoming (ask_caps ∷ [])
  requested :
      (caps : List Bytes) (later : List Incoming)
      → Lists (codes "LS") incoming caps later
      → Sends user token incoming (ask_caps ∷ request caps ∷ [])
  passed :
      (caps : List Bytes)
      → Acknowledged incoming caps
      → Sends user token incoming (ask_caps ∷ request caps ∷ pass token ∷ [])
  introduced :
      (caps : List Bytes)
      → Acknowledged incoming caps
      → Sends user token incoming (ask_caps ∷ request caps ∷ pass token ∷ nick user ∷ [])
  ended :
      (caps : List Bytes)
      → Acknowledged incoming caps
      → Sends user token incoming (ask_caps ∷ request caps ∷ pass token ∷ nick user ∷ end_caps ∷ [])

abbrev pub add_sent : Message → Conn → Conn
add_sent m c = record c { sent = c.sent ++ m ∷ [] }

pub write_works :
    (m : Message) (c : Conn) → c.writes (length c.sent) ≡ none → write m c ≡ (ok tt, add_sent m c)
unfolding write
write_works m c h = rw (h, write) refl

write_fails :
    {A : Type 0} (m : Message) (f : M A) (c : Conn) (e : _)
    → c.writes (length c.sent) ≡ some e
    → ((write m >> f) c).1 ≡ c
unfolding write
write_fails m f c e h = rw (h, write) refl

pub send_n-write :
    (cmd : List ℕ) (params : List Bytes) (c : Conn)
    → from_name cmd ≡ ok (name cmd)
    → send_n cmd params c ≡ write (named cmd params) c
unfolding send_n from_named_command_params
send_n-write cmd params c h = rw (h, from_named_command_params, send_n) refl

-- Behind a step of the login, a property of the connection holds at its end.
after_write :
    {A : Type 0} (P : Conn → Type 0) (m : Message) (f : M A) (c : Conn)
    → P c
    → P (f (add_sent m c)).1
    → P ((write m >> f) c).1
after_write P m f c stays goes = elim (Option-cases (c.writes (length c.sent))) [
  | inl works ↦ rw (write_works m c works) goes
  | inr (e, fails) ↦ rw (write_fails m f c e fails) stays
]

after_send :
    {A : Type 0} (P : Conn → Type 0) (cmd : List ℕ) (params : List Bytes) (f : M A) (c : Conn)
    → from_name cmd ≡ ok (name cmd)
    → P c
    → P (f (add_sent (named cmd params) c)).1
    → P ((send_n cmd params >> f) c).1
after_send P cmd params f c h stays goes =
    rw (send_n-write cmd params c h) (after_write P (named cmd params) f c stays goes)

after_read :
    {A B : Type 0} (P : Conn → Type 0) (f : A → M B) (c : Conn) (r : ClientResult A)
    (rest : List Incoming) (read : List Incoming → ClientResult A × List Incoming)
    → read c.incoming ≡ (r, rest)
    → P (record c { incoming = rest })
    → ((a : A) → r ≡ ok a → P (f a (record c { incoming = rest })).1)
    → P ((reading read >>= f) c).1
after_read P f c (ok a) rest read e stays goes = rw e (goes a refl)
after_read P f c (err x) rest read e stays goes = rw e stays
after_read P f c panic rest read e stays goes = rw e stays
after_read P f c out_of_fuel rest read e stays goes = rw e stays

-- The state of the connection in a login that began at another.
abbrev Sent : Bytes → Bytes → Conn → Conn → Type 0
Sent user token c c' =
    (ms : List Message) × (c'.sent ≡ c.sent ++ ms) × Sends user token c.incoming ms

pub listed :
    (verb : Bytes) (incoming : List Incoming) (caps : List Bytes)
    → (read_caps verb [] incoming).0 ≡ ok caps
    → Lists verb incoming caps (read_caps verb [] incoming).1
listed verb incoming caps e =
    let rest = (read_caps verb [] incoming).1 in
    let (caps', l, same) = read_caps-Read verb [] incoming caps rest (λ i. (e i, rest)) in
    subst (λ cs. Lists verb incoming cs rest) (sym same) l

-- The last part of the login, behind the acknowledgement.
last_part : Bytes → Bytes → M (Unit {0})
last_part user token = do
  send_n (codes "PASS") ((codes "oauth:" ++ token) ∷ [])
  send_n (codes "NICK") (user ∷ [])
  send_n (codes "CAP") (codes "END" ∷ [])
  reading await_motd_end

last_part-Sent :
    (user token : Bytes) (c c' : Conn) (caps : List Bytes)
    → c'.sent ≡ c.sent ++ ask_caps ∷ request caps ∷ []
    → Acknowledged c.incoming caps
    → Sent user token c (last_part user token c').1
unfolding last_part from_name
last_part-Sent user token c c' caps e acked =
    let P : Conn → Type 0 = Sent user token c in
    let c1 : Conn = add_sent (pass token) c' in
    let c2 : Conn = add_sent (nick user) c1 in
    let s1 : c1.sent ≡ c.sent ++ ask_caps ∷ request caps ∷ pass token ∷ [] =
      rw e (simp append_assoc) in
    let s2 : c2.sent ≡ c.sent ++ ask_caps ∷ request caps ∷ pass token ∷ nick user ∷ [] =
      rw e (simp append_assoc) in
    after_send P (codes "PASS") ((codes "oauth:" ++ token) ∷ []) _ c' refl
      (ask_caps ∷ request caps ∷ [], e, requested caps acked.0 acked.3)
      (after_send P (codes "NICK") (user ∷ []) _ c1 refl
        (ask_caps ∷ request caps ∷ pass token ∷ [], s1, passed caps acked)
        (after_send P (codes "CAP") (codes "END" ∷ []) _ c2 refl
          (ask_caps ∷ request caps ∷ pass token ∷ nick user ∷ [], s2, introduced caps acked)
          (
            ask_caps ∷ request caps ∷ pass token ∷ nick user ∷ end_caps ∷ [],
            rw e (simp append_assoc),
            ended caps acked,
          )))

-- Whatever the server sends, whichever write fails, and however the login comes out, what it has
-- sent is the start of the sequence of its five messages, the request asks for exactly the caps that
-- the server listed, and the password is among them only when the server has listed its caps and has
-- then answered the request with a whole acknowledgement, of whatever caps, even of none.
pub initialize_irc_channel-Sends :
    (user token : Bytes) (c : Conn) → Sent user token c (initialize_irc_channel user token c).1
unfolding initialize_irc_channel from_name last_part
initialize_irc_channel-Sends user token c =
    let P : Conn → Type 0 = Sent user token c in
    let ls = read_caps (codes "LS") [] c.incoming in
    let ack = read_caps (codes "ACK") [] ls.1 in
    after_send P (codes "CAP") (codes "LS" ∷ codes "302" ∷ []) _ c refl
      ([], sym (append-nil c.sent), nothing)
      (after_read P _ (add_sent ask_caps c) ls.0 ls.1 (read_caps (codes "LS") []) refl
        (ask_caps ∷ [], refl, asked)
        λ caps e.
          let c1 : Conn = record (add_sent ask_caps c) { incoming = ls.1 } in
          let l = listed (codes "LS") c.incoming caps e in
          let s1 : (add_sent (request caps) c1).sent ≡ c.sent ++ ask_caps ∷ request caps ∷ [] =
            simp append_assoc in
          after_send P (codes "CAP") (codes "REQ" ∷ join_bytes caps (codes " ") ∷ []) _ c1 refl
            (ask_caps ∷ [], refl, asked)
            (after_read P _ (add_sent (request caps) c1) ack.0 ack.1 (read_caps (codes "ACK") [])
              refl (ask_caps ∷ request caps ∷ [], s1, requested caps ls.1 l)
              λ acked a.
                last_part-Sent user token c
                  (record (add_sent (request caps) c1) { incoming = ack.1 }) caps s1
                  (ls.1, acked, ack.1, l, listed (codes "ACK") ls.1 acked a)))
