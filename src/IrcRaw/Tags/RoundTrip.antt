-- ===== src/IrcRaw/Tags/RoundTrip.antt =====
-- crates/irc-raw/src/messages.rs: `parse_tags` and the loop that writes tags.
use minibot_rust.Base.{
  ℕ, ◌<◌, ◌⊎◌, Bool, true, false, List, [], ◌∷◌, ◌++◌, ◌≡◌, ◌≢◌, refl, sym, ap, ◌∙◌, if◌then◌else◌,
  eq_bytes_iff, Bytes, ok, ◌>>=◌, All, All-append, take-append, drop-append, All-middle, inl, inr,
  subst, OkLacks, Lacks, arith, append_assoc, append-nil,
}
use minibot_rust.Utf8.{encode, IsScalar, decode}
use minibot_rust.Utf8.RoundTrip.{decode-encode}
use minibot_rust.IrcRaw.Slice.{split, position-append, position-Lacks, split-append, split-Lacks}
use minibot_rust.IrcRaw.Tags.{
  Tags, term_parts, insert, unescape_tag_value, escape_tag_value, insert_term, insert_terms,
  parse_tags, write_tag, write_tags,
}
use minibot_rust.IrcRaw.Tags.Escape.{unescape-escape, escape_bytes-Lacks, encode-Lacks}

-- A tag that the format can express. The value may be any text.
pub record IsTag (t : List ℕ × List ℕ) : Type 0 where
  pub key_scalar : All IsScalar t.0
  pub key_ne_nil : t.0 ≢ []
  pub key_no_equals : Lacks b'=' t.0
  pub key_no_semicolon : Lacks b';' t.0
  pub key_no_space : Lacks b' ' t.0
  pub value_scalar : All IsScalar t.1

-- Each key once, as in a map.
abbrev pub Distinct : Tags → Type 0
Distinct [] = Unit
Distinct ((k, v) ∷ m) = All (λ e. e.0 ≢ k) m × Distinct m

term : List ℕ → List ℕ → Bytes
term k [] = encode k
term k (c ∷ v) = encode k ++ (b'=' ∷ escape_tag_value (c ∷ v))

joined : List ℕ → List ℕ → Tags → Bytes
joined k v [] = term k v
joined k v ((j, w) ∷ m) = term k v ++ (b';' ∷ joined j w m)

terms : Tags → List Bytes
terms [] = []
terms ((k, v) ∷ m) = term k v ∷ terms m

write_tag-term : (k v : List ℕ) → IsTag (k, v) → write_tag k v ≡ ok (term k v)
unfolding write_tag term
write_tag-term [] v h = absurd (h.key_ne_nil refl)
write_tag-term (c ∷ k) [] h = rw append-nil
write_tag-term (c ∷ k) (d ∷ v) h = refl

term-Lacks :
    (b : ℕ) (k v : List ℕ)
    → (b ≡ b';') ⊎ (b ≡ b' ') ⊎ (b ≡ b'\r') ⊎ (b ≡ b'\n')
    → b < 0x80
    → Lacks b k
    → Lacks b (term k v)
unfolding term escape_tag_value
term-Lacks b k [] s h l = encode-Lacks b k h l
term-Lacks b k (c ∷ v) s h l =
    All-append (λ x. x ≢ b) (encode k) _ (encode-Lacks b k h l)
      (ground arith, escape_bytes-Lacks b s (encode (c ∷ v)))

write_tags-cons :
    (first : Bool) (k v : List ℕ) (m : Tags)
    → write_tags first ((k, v) ∷ m) ≡ (do
      t ← write_tag k v
      rest ← write_tags false m
      ok ((if first then [] else b';' ∷ []) ++ (t ++ rest)))
unfolding write_tags
write_tags-cons first k v m = refl

write_tags-joined :
    (first : Bool) (k v : List ℕ) (m : Tags)
    → All IsTag ((k, v) ∷ m)
    → write_tags first ((k, v) ∷ m) ≡ ok ((if first then [] else b';' ∷ []) ++ joined k v m)
unfolding joined
write_tags-joined first k v [] h =
    rw (write_tags-cons, write_tag-term k v h.0) (unfold write_tags in rw append-nil)
write_tags-joined first k v ((j, w) ∷ m) h =
    rw (write_tags-cons, write_tag-term k v h.0, write_tags-joined false j w m h.1)

value_bytes : List ℕ → Bytes
value_bytes [] = []
value_bytes (c ∷ v) = escape_tag_value (c ∷ v)

term_parts-term : (k v : List ℕ) → IsTag (k, v) → term_parts (term k v) ≡ (encode k, value_bytes v)
unfolding term_parts term value_bytes
term_parts-term k [] h =
    rw (
      position-Lacks b'=' (encode k) (encode-Lacks b'=' k (omega arith) h.key_no_equals),
      term_parts,
    )
term_parts-term k (c ∷ v) h =
    rw
      (
        position-append b'=' (encode k) (escape_tag_value (c ∷ v))
            (encode-Lacks b'=' k (omega arith) h.key_no_equals),
        term_parts,
      )
      (rw (take-append, drop-append))

unescape-value_bytes : (v : List ℕ) → All IsScalar v → unescape_tag_value (value_bytes v) ≡ ok v
unfolding value_bytes
unescape-value_bytes [] h = unfold unescape_tag_value decode in refl
unescape-value_bytes (c ∷ v) h = unescape-escape (c ∷ v) h

insert_term-term :
    (acc : Tags) (k v : List ℕ) → IsTag (k, v) → insert_term acc (term k v) ≡ ok (insert k v acc)
unfolding insert_term
insert_term-term acc k v h =
    rw (term_parts-term k v h, decode-encode k h.key_scalar, unescape-value_bytes v h.value_scalar)

insert-fresh :
    (k v : List ℕ) (acc : Tags) → All (λ e. k ≢ e.0) acc → insert k v acc ≡ acc ++ (k, v) ∷ []
unfolding insert
insert-fresh k v [] h = refl
insert-fresh k v ((j, w) ∷ acc) h = ground (arith, eq_bytes_iff j k, insert-fresh k v acc h.1)

Distinct-fresh :
    (acc : Tags) (k v : List ℕ) (m : Tags) → Distinct (acc ++ (k, v) ∷ m) → All (λ e. k ≢ e.0) acc
Distinct-fresh [] k v m h = tt
Distinct-fresh ((j, w) ∷ acc) k v m h =
    (All-middle (λ e. e.0 ≢ j) acc (k, v) m h.0, Distinct-fresh acc k v m h.1)

insert_terms-cons :
    (acc : Tags) (t : Bytes) (ts : List Bytes)
    → insert_terms acc (t ∷ ts) ≡ (insert_term acc t >>= λ next. insert_terms next ts)
unfolding insert_terms
insert_terms-cons acc t ts = refl

insert_terms-terms :
    (m acc : Tags) → All IsTag m → Distinct (acc ++ m) → insert_terms acc (terms m) ≡ ok (acc ++ m)
unfolding terms
insert_terms-terms [] acc h d = unfold insert_terms in rw append-nil
insert_terms-terms ((k, v) ∷ m) acc h d =
    rw
      (
        insert_terms-cons,
        insert_term-term acc k v h.0,
        insert-fresh k v acc (Distinct-fresh acc k v m d),
      )
      (insert_terms-terms m (acc ++ (k, v) ∷ []) h.1 (rw append_assoc d) ∙ rw append_assoc)

split-joined :
    (k v : List ℕ) (m : Tags)
    → All IsTag ((k, v) ∷ m)
    → split b';' (joined k v m) ≡ terms ((k, v) ∷ m)
unfolding joined terms
split-joined k v [] h =
    split-Lacks b';' (term k v) (term-Lacks b';' k v (inl refl) (omega arith) h.0.key_no_semicolon)
split-joined k v ((j, w) ∷ m) h =
    split-append b';' (term k v) (joined j w m)
      (term-Lacks b';' k v (inl refl) (omega arith) h.0.key_no_semicolon)
    ∙ ap (◌∷◌ (term k v)) (split-joined j w m h.1)

-- At least one tag, with distinct keys that are not empty and free of the separators, and any
-- values, is written without a panic, and what is written is read back as those tags.
pub parse_tags-write_tags :
    (t : List ℕ × List ℕ) (m : Tags)
    → All IsTag (t ∷ m)
    → Distinct (t ∷ m)
    → (w : Bytes) × (write_tags true (t ∷ m) ≡ ok w) × (parse_tags w ≡ ok (t ∷ m))
unfolding parse_tags
parse_tags-write_tags (k, v) m h d = (
  joined k v m,
  write_tags-joined true k v m h,
  rw (split-joined k v m h) (insert_terms-terms ((k, v) ∷ m) [] h d),
)

-- The keys are free of the byte `b`.
abbrev pub KeysLack : ℕ → Tags → Type 0
KeysLack b = All (λ e. Lacks b e.0)

joined-Lacks :
    (b : ℕ) (k v : List ℕ) (m : Tags)
    → (b ≡ b' ') ⊎ (b ≡ b'\r') ⊎ (b ≡ b'\n')
    → KeysLack b ((k, v) ∷ m)
    → Lacks b (joined k v m)
unfolding joined
joined-Lacks b k v [] s h = term-Lacks b k v (inr s) (ground arith) h.0
joined-Lacks b k v ((j, w) ∷ m) s h =
    All-append (λ x. x ≢ b) (term k v) _ (term-Lacks b k v (inr s) (ground arith) h.0)
      (ground arith, joined-Lacks b j w m s h.1)

-- A line of tags has no space, and no end of line, unless a key has it.
pub write_tags-Lacks :
    (b : ℕ) (t : List ℕ × List ℕ) (m : Tags) {w : Bytes}
    → (b ≡ b' ') ⊎ (b ≡ b'\r') ⊎ (b ≡ b'\n')
    → All IsTag (t ∷ m)
    → KeysLack b (t ∷ m)
    → write_tags true (t ∷ m) ≡ ok w
    → Lacks b w
write_tags-Lacks b (k, v) m s i h e =
    subst (OkLacks b) (sym (write_tags-joined true k v m i) ∙ e) (joined-Lacks b k v m s h)
