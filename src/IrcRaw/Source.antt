-- ===== src/IrcRaw/Source.antt =====
-- crates/irc-raw/src/messages.rs: `Source`, the sender of a message.
pub mod RoundTrip
use minibot_rust.Base.{
  ℕ, ◌+◌, ◌-◌, Bool, true, false, List, [], ◌∷◌, ◌++◌, Option, none, some, ◌==◌, ltb, if◌then◌else◌,
  Bytes, ok, err, panic, ensure, ◌>>=◌, ◌>>◌, take, drop,
}
use minibot_rust.Utf8.{encode}
use minibot_rust.IrcRaw.Error.{Error, Result, bang_after_at}
use minibot_rust.IrcRaw.Slice.{from_utf8, position}

-- `host` is a `ByteString`, the other two are texts.
pub record Source : Type 0 where
  pub nick : Option (List ℕ)
  pub user : Option (List ℕ)
  pub host : Option Bytes

abbrev none_if_empty : List ℕ → Option (List ℕ)
none_if_empty [] = none
none_if_empty (c ∷ cs) = some (c ∷ cs)

-- The match on the positions of the first `!` and the first `@`.
unfoldable pub source_parts : Bytes → Option ℕ → Option ℕ → Result (Bytes × Bytes × Bytes)
source_parts buf none none = ok ([], [], buf)
source_parts buf (some bang_index) none = ok (take bang_index buf, drop (bang_index + 1) buf, [])
source_parts buf none (some at_index) = ok (take at_index buf, [], drop (at_index + 1) buf)
source_parts buf (some bang_index) (some at_index) = do
  ensure (ltb bang_index at_index) (bang_after_at buf)
  ok (
    take bang_index buf,
    take (at_index - (bang_index + 1)) (drop (bang_index + 1) buf),
    drop (at_index + 1) buf,
  )

unfoldable pub read_source : Bytes → Result Source
unfolding source_parts
read_source buf = do
  (nick_bytes, user_bytes, host_bytes) ← source_parts buf (position b'!' buf) (position b'@' buf)
  nick_text ← from_utf8 nick_bytes
  user_text ← from_utf8 user_bytes
  ok (record {
    nick = none_if_empty nick_text;
    user = none_if_empty user_text;
    host = none_if_empty host_bytes;
  })

-- `map_or("", ..)`, then `as_bytes`.
abbrev text_or_empty : Option (List ℕ) → Bytes
text_or_empty none = []
text_or_empty (some t) = encode t

write_parts : Option (List ℕ) → Option (List ℕ) → Option Bytes → Result Bytes
write_parts none none (some host) = ok host
write_parts (some nick) none none = ok (encode nick ++ b'!' ∷ [])
write_parts nick (some user) none = ok (text_or_empty nick ++ (b'!' ∷ encode user))
write_parts nick user (some host) =
    ok (text_or_empty nick ++ (b'!' ∷ (text_or_empty user ++ (b'@' ∷ host))))
write_parts none none none = panic

unfoldable pub write_source : Source → Result Bytes
unfolding write_parts
write_source s = write_parts s.nick s.user s.host
