-- ===== src/IrcRaw/Message/RoundTrip.antt =====
-- crates/irc-raw/src/messages.rs: reading a `Message` against writing it.
use minibot_rust.Base.{
  true, not, [], ◌∷◌, ◌++◌, Option, none, some, ◌≡◌, ◌≢◌, refl, arith, Bytes, length, is_empty, ok,
  Lacks, All, All-imp, nonempty-append, inl, append_assoc,
}
use native.Mathlib.Nat.{le_refl}
use minibot_rust.IrcRaw.Tags.{Tags, parse_tags}
use minibot_rust.IrcRaw.Tags.RoundTrip.{IsTag, Distinct, parse_tags-write_tags, write_tags-Lacks}
use minibot_rust.IrcRaw.Source.{Source, read_source}
use minibot_rust.IrcRaw.Source.RoundTrip.{
  IsSource, SourceLacks, read_source-write_source, write_source-Lacks,
}
use minibot_rust.IrcRaw.Command.{write_command}
use minibot_rust.IrcRaw.Command.RoundTrip.{
  IsCommand, StartsCommand, read_command-write_command, write_command-Lacks,
  write_command-StartsCommand,
}
use minibot_rust.IrcRaw.Message.{
  Message, until_space, read_tags, read_prefix, read_message, write_tags_part, write_source_part,
  write_params, write_message,
}
use minibot_rust.IrcRaw.Message.Params.{
  AreParams, StartsWord, read_params-write_params, until_space-append, eat_space-word,
  write_params-StartsWord,
}

abbrev pub IsOptSource : Option Source → Type 0
IsOptSource none = Unit
IsOptSource (some s) = IsSource s × SourceLacks b' ' s

-- A message that the format can express.
pub record IsMessage (m : Message) : Type 0 where
  pub are_tags : All IsTag m.tags
  pub distinct_tags : Distinct m.tags
  pub is_source : IsOptSource m.source
  pub is_command : IsCommand m.command
  pub are_params : AreParams m.params

-- What stands behind the tags: no tag, and no space in front.
abbrev Untagged : Bytes → Type 0
Untagged [] = ⊥
Untagged (c ∷ cs) = (c ≢ b' ') × (c ≢ b'@')

Untagged-StartsWord : (text : Bytes) → Untagged text → StartsWord text
Untagged-StartsWord [] h = tt
Untagged-StartsWord (c ∷ cs) h = h.0

Untagged-nonempty : (text : Bytes) → Untagged text → not (is_empty text) ≡ true
Untagged-nonempty [] h = absurd h
Untagged-nonempty (c ∷ cs) h = refl

until_space-word :
    (w tail : Bytes)
    → Lacks b' ' w
    → StartsWord tail
    → until_space ((w ++ b' ' ∷ []) ++ tail) ≡ (w, tail)
until_space-word w tail l h = rw (append_assoc, until_space-append w tail l, eat_space-word tail h)

read_tags-word :
    (m : Tags) (w tail : Bytes)
    → Lacks b' ' w
    → Untagged tail
    → parse_tags w ≡ ok m
    → read_tags (b'@' ∷ ((w ++ b' ' ∷ []) ++ tail)) ≡ ok (m, tail)
unfolding read_tags
read_tags-word m w tail l h e =
    rw (until_space-word w tail l (Untagged-StartsWord tail h), Untagged-nonempty tail h, e)

read_tags-written :
    (m : Tags) (tail : Bytes)
    → All IsTag m
    → Distinct m
    → Untagged tail
    → (w : Bytes) × (write_tags_part m ≡ ok w) × (read_tags (w ++ tail) ≡ ok (m, tail))
unfolding write_tags_part
read_tags-written m [] i d h = absurd h
read_tags-written [] (c ∷ tail) i d h = ([], refl, unfold read_tags in ground arith)
read_tags-written (t ∷ m) (c ∷ tail) i d h =
    let (w, written, parsed) = parse_tags-write_tags t m i d in
    let keys = All-imp IsTag (λ e. Lacks b' ' e.0) (λ e k. k.key_no_space) (t ∷ m) i in
    let clean = write_tags-Lacks b' ' t m (inl refl) i keys written in
    (b'@' ∷ (w ++ b' ' ∷ []), rw written, read_tags-word (t ∷ m) w (c ∷ tail) clean h parsed)

StartsCommand-StartsWord : (text : Bytes) → StartsCommand text → StartsWord text
StartsCommand-StartsWord [] h = tt
StartsCommand-StartsWord (c ∷ cs) h = h.0

StartsCommand-nonempty : (text : Bytes) → StartsCommand text → not (is_empty text) ≡ true
StartsCommand-nonempty [] h = absurd h
StartsCommand-nonempty (c ∷ cs) h = refl

read_prefix-word :
    (s : Source) (w tail : Bytes)
    → Lacks b' ' w
    → StartsCommand tail
    → read_source w ≡ ok s
    → read_prefix (b':' ∷ ((w ++ b' ' ∷ []) ++ tail)) ≡ ok (some s, tail)
unfolding read_prefix
read_prefix-word s w tail l h e =
    rw (
      until_space-word w tail l (StartsCommand-StartsWord tail h),
      StartsCommand-nonempty tail h,
      e,
    )

-- The source part, and that no tag is read in its place.
read_prefix-written :
    (s : Option Source) (tail : Bytes)
    → IsOptSource s
    → StartsCommand tail
    → (w : Bytes) × (write_source_part s ≡ ok w)
      × (read_prefix (w ++ tail) ≡ ok (s, tail))
      × Untagged (w ++ tail)
unfolding write_source_part
read_prefix-written s [] i h = absurd h
read_prefix-written none (c ∷ tail) i h = ([], refl, unfold read_prefix in ground arith, (h.0, h.1))
read_prefix-written (some s) (c ∷ tail) i h =
    let (w, written, parsed) = read_source-write_source s i.0 in
    let clean = write_source-Lacks b' ' (omega arith) (omega arith) (omega arith) s i.1 written in
    (
      b':' ∷ (w ++ b' ' ∷ []),
      rw written,
      read_prefix-word s w (c ∷ tail) clean h parsed,
      (omega arith, omega arith),
    )

body : Message → Bytes
body m = write_command m.command ++ b' ' ∷ write_params m.params

until_space-body :
    (m : Message)
    → IsMessage m
    → until_space (body m) ≡ (write_command m.command, write_params m.params)
unfolding body
until_space-body m h = rw (
  until_space-append (write_command m.command) (write_params m.params)
      (write_command-Lacks b' ' m.command (inl refl) h.is_command),
  eat_space-word (write_params m.params) (write_params-StartsWord m.params h.are_params),
)

read_parts :
    (m : Message) (text prefixed : Bytes)
    → IsMessage m
    → not (is_empty text) ≡ true
    → read_tags text ≡ ok (m.tags, prefixed)
    → read_prefix prefixed ≡ ok (m.source, body m)
    → read_message text ≡ ok m
unfolding read_message
read_parts m text prefixed h n t p =
    rw (n, t, p, until_space-body m h, read_command-write_command m.command h.is_command)
      (rw (
        read_params-write_params (length (write_params m.params)) m.params h.are_params
          (le_refl _)))

-- Every message that the format can express is written without an error or a panic, and what is
-- written is read back as that message. Such a message has distinct tags with keys free of the
-- separators, a well-formed source without spaces, a well-formed command, and parameters that are
-- words, but for the last.
pub read_message-write_message :
    (m : Message) → IsMessage m → (w : Bytes) × (write_message m ≡ ok w) × (read_message w ≡ ok m)
unfolding write_message body
read_message-write_message m h =
    let starts =
      write_command-StartsCommand m.command (b' ' ∷ write_params m.params) h.is_command in
    let (s, s_written, s_read, untagged) =
      read_prefix-written m.source (body m) h.is_source starts in
    let (t, t_written, t_read) =
      read_tags-written m.tags (s ++ body m) h.are_tags h.distinct_tags untagged in
    (
      t ++ (s ++ body m),
      rw (t_written, s_written),
      read_parts m (t ++ (s ++ body m)) (s ++ body m) h
          (nonempty-append t (s ++ body m) (Untagged-nonempty (s ++ body m) untagged)) t_read
          s_read,
    )
