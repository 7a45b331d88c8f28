-- ===== src/IrcRaw/Tags/Escape.antt =====
-- crates/irc-raw/src/messages.rs: `escape_tag_value` and `unescape_tag_value`.
use minibot_rust.Base.{
  ℕ, ◌<◌, ◌⊎◌, false, List, [], ◌∷◌, ◌++◌, ◌≡◌, ◌≢◌, refl, sym, ◌∙◌, Bytes, ok, All, All-append,
  Lacks, arith, append_assoc,
}
use minibot_rust.Utf8.{encode_char, encode, IsScalar}
use minibot_rust.Utf8.RoundTrip.{decode-encode}
use minibot_rust.IrcRaw.Tags.{
  unescape_chars, unescape_tag_value, escape_byte, escape_bytes, escape_tag_value,
}

pub escape_bytes-append : (a b : Bytes) → escape_bytes (a ++ b) ≡ escape_bytes a ++ escape_bytes b
unfolding escape_bytes
escape_bytes-append [] b = refl
escape_bytes-append (x ∷ a) b =
    rw (escape_bytes-append a b)
      (sym (append_assoc (escape_byte x) (escape_bytes a) (escape_bytes b)))

pub encode-append : (a b : List ℕ) → encode (a ++ b) ≡ encode a ++ encode b
unfolding encode
encode-append [] b = refl
encode-append (x ∷ a) b =
    rw (encode-append a b) (sym (append_assoc (encode_char x) (encode a) (encode b)))

-- The bytes that are escaped are ASCII: a text may be escaped before it is encoded.
pub escape_bytes-encode_char : (c : ℕ) → escape_bytes (encode_char c) ≡ encode (escape_byte c)
unfolding escape_bytes encode_char encode
escape_bytes-encode_char c = ground arith

pub escape_bytes-cons : (c : ℕ) (s : Bytes) → escape_bytes (c ∷ s) ≡ escape_byte c ++ escape_bytes s
unfolding escape_bytes
escape_bytes-cons c s = refl

pub escape_bytes-encode : (s : List ℕ) → escape_bytes (encode s) ≡ encode (escape_bytes s)
unfolding encode
escape_bytes-encode [] = unfold escape_bytes in refl
escape_bytes-encode (c ∷ s) =
    escape_bytes-append (encode_char c) (encode s)
    ∙ rw (escape_bytes-encode_char c, escape_bytes-encode s, escape_bytes-cons c s)
        (sym (encode-append (escape_byte c) (escape_bytes s)))

pub IsScalar-escape : (s : List ℕ) → All IsScalar s → All IsScalar (escape_bytes s)
unfolding escape_bytes
IsScalar-escape [] h = tt
IsScalar-escape (c ∷ s) h = ground (arith, IsScalar-escape s h.1)

pub unescape_chars-escape : (s : List ℕ) → unescape_chars false (escape_bytes s) ≡ ok s
unfolding unescape_chars escape_bytes
unescape_chars-escape [] = refl
unescape_chars-escape (c ∷ s) = ground (arith, unescape_chars-escape s)

-- For every text, unescaping what escaping writes gives the text.
pub unescape-escape : (s : List ℕ) → All IsScalar s → unescape_tag_value (escape_tag_value s) ≡ ok s
unfolding unescape_tag_value escape_tag_value
unescape-escape s h =
    rw (escape_bytes-encode s, decode-encode (escape_bytes s) (IsScalar-escape s h))
      (unescape_chars-escape s)

-- No byte that separates terms, words or messages is left.
pub escape_byte-Lacks :
    (b : ℕ)
    → (b ≡ b';') ⊎ (b ≡ b' ') ⊎ (b ≡ b'\r') ⊎ (b ≡ b'\n')
    → (c : ℕ) → Lacks b (escape_byte c)
unfolding escape_byte
escape_byte-Lacks b h c = ground arith

pub escape_bytes-Lacks :
    (b : ℕ)
    → (b ≡ b';') ⊎ (b ≡ b' ') ⊎ (b ≡ b'\r') ⊎ (b ≡ b'\n')
    → (s : Bytes) → Lacks b (escape_bytes s)
unfolding escape_bytes
escape_bytes-Lacks b h [] = tt
escape_bytes-Lacks b h (c ∷ s) =
    All-append (λ x. x ≢ b) (escape_byte c) (escape_bytes s) (escape_byte-Lacks b h c)
      (escape_bytes-Lacks b h s)

pub encode_char-Lacks : (b c : ℕ) → b < 0x80 → c ≢ b → Lacks b (encode_char c)
unfolding encode_char
encode_char-Lacks b c h n = ground arith

pub encode-Lacks : (b : ℕ) (s : List ℕ) → b < 0x80 → Lacks b s → Lacks b (encode s)
unfolding encode
encode-Lacks b [] h l = tt
encode-Lacks b (c ∷ s) h l =
    All-append (λ x. x ≢ b) (encode_char c) (encode s) (encode_char-Lacks b c h l.0)
      (encode-Lacks b s h l.1)
