-- ===== src/IrcRaw/Codec/Total.antt =====
-- crates/irc-raw/src/codec.rs and messages.rs: the loops of `decode` and `read_bytes` on arbitrary
-- bytes.
use minibot_rust.Base.{
  ℕ, zero, suc, ◌+◌, ◌<◌, Bool, true, false, List, [], ◌∷◌, Option, none, some, ◌==◌, ltb, Bytes,
  length, take, drop, ok, err, panic, out_of_fuel, ◌>>=◌, ◌≡◌, inl, inr, subst, arith, Ends,
  bind-Ends, if-Ends, ensure-Ends, ensure, ok_or-Ends, Option-cases, length-drop, not, is_empty,
  length,
}
use native.Mathlib.Nat.{le_refl}
use minibot_rust.Utf8.{decode as utf8_decode}
use minibot_rust.IrcRaw.Error.{Result, utf8_error, no_command, empty_message, bang_after_at}
use minibot_rust.IrcRaw.Slice.{from_utf8, position}
use minibot_rust.IrcRaw.Tags.{
  Tags, unescape_chars, unescape_tag_value, insert_term, insert_terms, parse_tags,
}
use minibot_rust.IrcRaw.Source.{source_parts, read_source}
use minibot_rust.IrcRaw.Command.{read_command}
use minibot_rust.IrcRaw.Message.{
  Message, read_message, read_tags, read_prefix, read_params, until_space,
}
use minibot_rust.IrcRaw.Message.Params.{read_params_total}
use minibot_rust.IrcRaw.Codec.{find_term, decode, decode_buffer}
use minibot_rust.IrcRaw.Codec.Stream.{find_term-Within, Within}

from_utf8-Ends : (b : Bytes) → Ends (from_utf8 b)
from_utf8-Ends b = ok_or-Ends (utf8_decode b) utf8_error

unescape_chars-Ends : (escaped : Bool) (cs : List ℕ) → Ends (unescape_chars escaped cs)
unfolding unescape_chars
unescape_chars-Ends true [] = tt
unescape_chars-Ends false [] = tt
unescape_chars-Ends true (c ∷ cs) = ground (arith, unescape_chars-Ends false cs)
unescape_chars-Ends false (c ∷ cs) =
    if-Ends (c == b'\\') _ _ (unescape_chars-Ends true cs)
      (bind-Ends (unescape_chars false cs) _ (unescape_chars-Ends false cs) (λ _. tt))

unescape_tag_value-Ends : (b : Bytes) → Ends (unescape_tag_value b)
unfolding unescape_tag_value
unescape_tag_value-Ends b =
    bind-Ends (from_utf8 b) _ (from_utf8-Ends b) (λ cs. unescape_chars-Ends false cs)

insert_term-Ends : (m : Tags) (t : Bytes) → Ends (insert_term m t)
unfolding insert_term
insert_term-Ends m t =
    bind-Ends (from_utf8 _) _ (from_utf8-Ends _)
      (λ k. bind-Ends (unescape_tag_value _) _ (unescape_tag_value-Ends _) (λ v. tt))

insert_terms-Ends : (ts : List Bytes) (m : Tags) → Ends (insert_terms m ts)
unfolding insert_terms
insert_terms-Ends [] m = tt
insert_terms-Ends (t ∷ ts) m =
    bind-Ends (insert_term m t) _ (insert_term-Ends m t) (λ next. insert_terms-Ends ts next)

source_parts-Ends : (buf : Bytes) (bang at : Option ℕ) → Ends (source_parts buf bang at)
unfolding source_parts
source_parts-Ends buf none none = tt
source_parts-Ends buf (some i) none = tt
source_parts-Ends buf none (some j) = tt
source_parts-Ends buf (some i) (some j) =
    bind-Ends (ensure (ltb i j) (bang_after_at buf)) _ (ensure-Ends (ltb i j) _) (λ _. tt)

read_source-Ends : (b : Bytes) → Ends (read_source b)
unfolding read_source
read_source-Ends b =
    bind-Ends (source_parts b (position b'!' b) (position b'@' b)) _
      (source_parts-Ends b (position b'!' b) (position b'@' b))
      (λ p.
        bind-Ends (from_utf8 p.0) _ (from_utf8-Ends p.0)
          (λ n. bind-Ends (from_utf8 p.1) _ (from_utf8-Ends p.1) (λ u. tt)))

read_tags-Ends : (b : Bytes) → Ends (read_tags b)
unfolding read_tags
read_tags-Ends [] = tt
read_tags-Ends (c ∷ rest) =
    if-Ends (c == b'@') _ _
      (bind-Ends (ensure (not (is_empty (until_space rest).1)) no_command) _ (ensure-Ends _ _) (λ _.
        bind-Ends (parse_tags (until_space rest).0) _ (unfold parse_tags in insert_terms-Ends _ [])
          (λ _. tt)))
      tt

read_prefix-Ends : (b : Bytes) → Ends (read_prefix b)
unfolding read_prefix
read_prefix-Ends [] = tt
read_prefix-Ends (c ∷ rest) =
    if-Ends (c == b':') _ _
      (bind-Ends (ensure (not (is_empty (until_space rest).1)) no_command) _ (ensure-Ends _ _)
        (λ _. bind-Ends (read_source (until_space rest).0) _ (read_source-Ends _) (λ _. tt)))
      tt

read_command-Ends : (b : Bytes) → Ends (read_command b)
unfolding read_command
read_command-Ends [] = tt
read_command-Ends (c ∷ rest) = elim (Option-cases (utf8_decode (c ∷ rest))) [
  | inl bad ↦ ground arith
  | inr (n, good) ↦ ground arith
]

read_params-Ends : (text : Bytes) → Ends (read_params (length text) text)
read_params-Ends text = let (ps, e) = read_params_total (length text) text (le_refl _) in rw e tt

-- `Message::read_bytes` comes to an end.
pub read_message-Ends : (buf : Bytes) → Ends (read_message buf)
unfolding read_message
read_message-Ends buf =
    bind-Ends (ensure (not (is_empty buf)) empty_message) _ (ensure-Ends _ _) (λ _.
      bind-Ends (read_tags buf) _ (read_tags-Ends buf) (λ t.
        bind-Ends (read_prefix t.1) _ (read_prefix-Ends t.1) (λ s.
          bind-Ends (read_command (until_space s.1).0) _ (read_command-Ends _)
            (λ c. bind-Ends (read_params _ _) _ (read_params-Ends _) (λ _. tt)))))

-- A call came to an end, and when it asks for more bytes no whole line is left in the buffer.
abbrev pub Settled : Result (Option Message) × Bytes → Type 0
Settled (ok none, buf) = find_term buf ≡ none
Settled (out_of_fuel, buf) = ⊥
Settled _ = Unit

Settled-message :
    (m : Result Message) (buf : Bytes) → Ends m → Settled ((m >>= λ a. ok (some a)), buf)
Settled-message (ok a) buf h = tt
Settled-message (err e) buf h = tt
Settled-message panic buf h = tt
Settled-message out_of_fuel buf h = absurd h

decode_total : (fuel : ℕ) (buf : Bytes) → length buf < fuel → Settled (decode fuel buf)
unfolding decode
decode_total zero buf h = absurd (omega arith)
decode_total (suc fuel) buf h = elim (Option-cases (find_term buf)) [
  | inl e ↦ rw (e, decode) e
  | inr (pos, e) ↦
      let inside = subst (λ o. Within o (length buf)) e (find_term-Within buf) in
      let shorter = length-drop (pos + 2) buf in
      let skipped = decode_total fuel (drop (pos + 2) buf) (omega (arith, shorter)) in
      rw (e, decode)
        (elim (ltb 0 pos)
          as (λ t. Settled (elim t [
            | true ↦ ((read_message (take pos buf) >>= λ m. ok (some m)), drop (pos + 2) buf)
            | false ↦ decode fuel (drop (pos + 2) buf)
          ])) [
            | true ↦
                Settled-message (read_message (take pos buf)) (drop (pos + 2) buf)
                  (read_message-Ends (take pos buf))
            | false ↦ skipped
          ])
]

-- On every buffer `Decoder::decode` comes to an end, and it asks for more bytes only when no
-- terminator is left in the buffer.
pub decode_buffer_total : (buf : Bytes) → Settled (decode_buffer buf)
unfolding decode_buffer
decode_buffer_total buf = decode_total (suc (length buf)) buf (omega arith)
