-- ===== src/IrcRaw/Message.antt =====
-- crates/irc-raw/src/messages.rs: `Message`, its reader and its writer.
pub mod Lines
pub mod Params
pub mod RoundTrip
use minibot_rust.Base.{
  ℕ, zero, suc, Bool, true, false, not, List, [], ◌∷◌, ◌++◌, Option, none, some, ◌==◌,
  if◌then◌else◌, eq_bytes, Bytes, length, is_empty, ok, err, panic, out_of_fuel, ensure, ◌>>=◌,
  ◌>>◌,
}
use minibot_rust.IrcRaw.Error.{Error, Result, empty_message, no_command}
use minibot_rust.IrcRaw.Tags.{Tags, parse_tags, write_tags}
use minibot_rust.IrcRaw.Source.{Source, read_source, write_source}
use minibot_rust.IrcRaw.Command.{Command, name, num, read_command, write_command, from_name}

pub record Message : Type 0 where
  pub tags : Tags
  pub source : Option Source
  pub command : Command
  pub params : List Bytes

unfoldable pub from_command_params : Command → List Bytes → Message
from_command_params cmd params = record { tags = []; source = none; command = cmd; params = params }

unfoldable pub from_named_command_params : List ℕ → List Bytes → Result Message
unfolding from_command_params
from_named_command_params cmd params = do
  command ← from_name cmd
  ok (from_command_params command params)

unfoldable pub has_named_command : Message → List ℕ → Bool
has_named_command m n = elim m.command [ num i ↦ false | name k ↦ eq_bytes k n ]

unfoldable pub has_num_command : Message → ℕ → Bool
has_num_command m n = elim m.command [ num i ↦ i == n | name k ↦ false ]

unfoldable pub eat_space : Bytes → Bytes
eat_space [] = []
eat_space (ch ∷ text) = if ch == b' ' then eat_space text else ch ∷ text

-- The word up to the first space, and what stands behind the spaces.
unfoldable pub until_space : Bytes → Bytes × Bytes
unfolding eat_space
until_space [] = ([], [])
until_space (ch ∷ text) =
    let (word, rest) = until_space text in
    if ch == b' ' then ([], eat_space (ch ∷ text)) else (ch ∷ word, rest)

-- The tags, behind their `@`.
read_tags_word : Bytes → Bytes → Result (Tags × Bytes)
read_tags_word tags_word remaining = do
  ensure (not (is_empty remaining)) no_command
  tags ← parse_tags tags_word
  ok (tags, remaining)

unfoldable pub read_tags : Bytes → Result (Tags × Bytes)
unfolding read_tags_word
read_tags [] = ok ([], [])
read_tags (c ∷ rest) =
    if c == b'@'
    then read_tags_word (until_space rest).0 (until_space rest).1
    else ok ([], c ∷ rest)

-- The source, behind its colon.
read_source_word : Bytes → Bytes → Result (Option Source × Bytes)
read_source_word source_word remaining = do
  ensure (not (is_empty remaining)) no_command
  source ← read_source source_word
  ok (some source, remaining)

unfoldable pub read_prefix : Bytes → Result (Option Source × Bytes)
unfolding read_source_word
read_prefix [] = ok (none, [])
read_prefix (c ∷ rest) =
    if c == b':'
    then read_source_word (until_space rest).0 (until_space rest).1
    else ok (none, c ∷ rest)

-- The loop over the parameters. Each round takes a byte at least: see `Params.read_params_total`.
unfoldable pub read_params : ℕ → Bytes → Result (List Bytes)
read_params fuel [] = ok []
read_params zero (c ∷ text) = out_of_fuel
read_params (suc fuel) (c ∷ text) =
    let later = read_params fuel (until_space (c ∷ text)).1 in
    if c == b':'
    then ok (text ∷ [])
    else (later >>= λ params. ok ((until_space (c ∷ text)).0 ∷ params))

unfoldable pub read_message : Bytes → Result Message
read_message buf = do
  ensure (not (is_empty buf)) empty_message
  (tags, tagged) ← read_tags buf
  (source, prefixed) ← read_prefix tagged
  command ← read_command (until_space prefixed).0
  params ← read_params (length (until_space prefixed).1) (until_space prefixed).1
  ok (record { tags = tags; source = source; command = command; params = params })

unfoldable pub write_tags_part : Tags → Result Bytes
write_tags_part [] = ok []
write_tags_part (t ∷ m) = do w ← write_tags true (t ∷ m); ok (b'@' ∷ (w ++ b' ' ∷ []))

unfoldable pub write_source_part : Option Source → Result Bytes
write_source_part none = ok []
write_source_part (some s) = do w ← write_source s; ok (b':' ∷ (w ++ b' ' ∷ []))

unfoldable pub write_params : List Bytes → Bytes
write_params [] = []
write_params (last ∷ []) = b':' ∷ last
write_params (param ∷ next ∷ rest) = param ++ b' ' ∷ write_params (next ∷ rest)

unfoldable pub write_message : Message → Result Bytes
unfolding write_tags_part write_source_part write_params
write_message m = do
  tags ← write_tags_part m.tags
  source ← write_source_part m.source
  ok (tags ++ (source ++ (write_command m.command ++ b' ' ∷ write_params m.params)))
