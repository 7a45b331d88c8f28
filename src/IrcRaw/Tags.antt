-- ===== src/IrcRaw/Tags.antt =====
-- crates/irc-raw/src/messages.rs: the tags of a message. A `HashMap<String, String>` is the list of
-- its entries in the order in which it is iterated; the writer may meet them in any order.
pub mod Escape
pub mod RoundTrip
use minibot_rust.Base.{
  ℕ, ◌+◌, take, drop, Bool, true, false, List, [], ◌∷◌, ◌++◌, Option, none, some, ◌==◌,
  if◌then◌else◌, eq_bytes, is_empty, not, Bytes, ok, err, panic, assert, ◌>>=◌, ◌>>◌,
}
use minibot_rust.Utf8.{encode}
use minibot_rust.IrcRaw.Error.{Error, Result, unexpected_escape}
use minibot_rust.IrcRaw.Slice.{from_utf8, position, split}

abbrev pub Tags : Type 0
Tags = List (List ℕ × List ℕ)

-- `HashMap::insert`.
unfoldable pub insert : List ℕ → List ℕ → Tags → Tags
insert k v [] = (k, v) ∷ []
insert k v ((j, w) ∷ m) = if eq_bytes j k then (j, v) ∷ m else (j, w) ∷ insert k v m

unfoldable pub lookup : List ℕ → Tags → Option (List ℕ)
lookup k [] = none
lookup k ((j, v) ∷ m) = if eq_bytes j k then some v else lookup k m

unescape_char : ℕ → Result ℕ
unescape_char ch =
    if ch == b'\\'
    then ok b'\\'
    else if ch == b':'
    then ok b';'
    else if ch == b'r'
    then ok b'\r'
    else if ch == b'n'
    then ok b'\n'
    else if ch == b's'
    then ok b' '
    else err (unexpected_escape ch)

-- The loop over `char_iter`; the flag says that the last character was a lone backslash.
unfoldable pub unescape_chars : Bool → List ℕ → Result (List ℕ)
unfolding unescape_char
unescape_chars escaped [] = ok []
unescape_chars true (ch ∷ cs) = do
  c ← unescape_char ch
  rest ← unescape_chars false cs
  ok (c ∷ rest)
unescape_chars false (ch ∷ cs) =
    let after = unescape_chars true cs in
    let plain = unescape_chars false cs in
    if ch == b'\\' then after else (plain >>= λ rest. ok (ch ∷ rest))

unfoldable pub unescape_tag_value : Bytes → Result (List ℕ)
unfolding unescape_chars
unescape_tag_value val = do value_chars ← from_utf8 val; unescape_chars false value_chars

-- The match on one byte of the value.
unfoldable pub escape_byte : ℕ → Bytes
escape_byte b =
    if b == b'\\'
    then b'\\' ∷ b'\\' ∷ []
    else if b == b';'
    then b'\\' ∷ b':' ∷ []
    else if b == b'\r'
    then b'\\' ∷ b'r' ∷ []
    else if b == b'\n'
    then b'\\' ∷ b'n' ∷ []
    else if b == b' '
    then b'\\' ∷ b's' ∷ []
    else b ∷ []

unfoldable pub escape_bytes : Bytes → Bytes
unfolding escape_byte
escape_bytes [] = []
escape_bytes (b ∷ bs) = escape_byte b ++ escape_bytes bs

unfoldable pub escape_tag_value : List ℕ → Bytes
unfolding escape_bytes
escape_tag_value val = escape_bytes (encode val)

-- The key and the value of a term, before they are read as texts.
term_parts : Bytes → Bytes × Bytes
term_parts term = elim (position b'=' term) [
  | none ↦ (term, [])
  | some p ↦ (take p term, drop (p + 1) term)
]

unfoldable pub insert_term : Tags → Bytes → Result Tags
unfolding term_parts
insert_term result term = do
  key ← from_utf8 (term_parts term).0
  value ← unescape_tag_value (term_parts term).1
  ok (insert key value result)

unfoldable pub insert_terms : Tags → List Bytes → Result Tags
insert_terms result [] = ok result
insert_terms result (t ∷ ts) = do next ← insert_term result t; insert_terms next ts

unfoldable pub parse_tags : Bytes → Result Tags
unfolding insert_terms
parse_tags tag_word = insert_terms [] (split b';' tag_word)

-- One round of the loop of `Message::write_bytes` over the tags, without the separator.
unfoldable pub write_tag : List ℕ → List ℕ → Result Bytes
write_tag k v = do
  assert (not (is_empty k))
  ok (encode k ++ (if is_empty v then [] else b'=' ∷ escape_tag_value v))

-- The whole loop; the flag is `first_tag`.
unfoldable pub write_tags : Bool → Tags → Result Bytes
unfolding write_tag
write_tags first_tag [] = ok []
write_tags first_tag ((k, v) ∷ m) = do
  term ← write_tag k v
  rest ← write_tags false m
  ok ((if first_tag then [] else b';' ∷ []) ++ (term ++ rest))
