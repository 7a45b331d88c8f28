-- ===== src/IrcRaw/Source/RoundTrip.antt =====
-- crates/irc-raw/src/messages.rs: reading a `Source` against writing it.
use minibot_rust.Base.{
  ℕ, ◌+◌, ◌-◌, ◌<◌, List, [], ◌∷◌, ◌++◌, Option, none, some, Bytes, ok, drop, length, take-append,
  drop-append, length-append, All, All-append, OkLacks, Lacks, ◌≡◌, ◌≢◌, refl, sym, arith,
  append_assoc, lt→ltb,
}
use minibot_rust.Utf8.{encode, IsScalar, decode}
use minibot_rust.Utf8.RoundTrip.{decode-encode}
use minibot_rust.IrcRaw.Slice.{from_utf8, position, position-append, position-Lacks}
use minibot_rust.IrcRaw.Source.{
  Source, source_parts, read_source, write_source, write_parts, none_if_empty, text_or_empty,
}
use minibot_rust.IrcRaw.Tags.Escape.{encode-Lacks}

abbrev pub IsText : Option (List ℕ) → Type 0
IsText none = Unit
IsText (some t) = All IsScalar t × (t ≢ [])

abbrev pub LacksIn : ℕ → Option (List ℕ) → Type 0
LacksIn b none = Unit
LacksIn b (some t) = Lacks b t

-- Some part is there, and a host that stands alone is no other form of a source.
abbrev pub HostFits : Option (List ℕ) → Option (List ℕ) → Option Bytes → Type 0
HostFits none none none = ⊥
HostFits none none (some host) = Lacks b'!' host × Lacks b'@' host
HostFits _ _ _ = Unit

pub record IsSource (s : Source) : Type 0 where
  pub nick_text : IsText s.nick
  pub user_text : IsText s.user
  pub nick_no_bang : LacksIn b'!' s.nick
  pub nick_no_at : LacksIn b'@' s.nick
  pub user_no_at : LacksIn b'@' s.user
  pub host_ne_nil : s.host ≢ some []
  pub host_fits : HostFits s.nick s.user s.host

module _ (n u : Bytes) (n_bang : Lacks b'!' n) (n_at : Lacks b'@' n) (u_at : Lacks b'@' u) where
  front-Lacks : Lacks b'@' (n ++ b'!' ∷ u)
  front-Lacks = All-append (λ x. x ≢ b'@') n (b'!' ∷ u) n_at (omega arith, u_at)

  parts_bang :
      source_parts (n ++ b'!' ∷ u) (position b'!' (n ++ b'!' ∷ u)) (position b'@' (n ++ b'!' ∷ u))
      ≡ ok (n, u, [])
  unfolding source_parts
  parts_bang =
      rw (position-append b'!' n u n_bang, position-Lacks b'@' (n ++ b'!' ∷ u) front-Lacks)
        (rw (take-append, drop-append))

  module _ (h : Bytes) where
    abbrev whole : Bytes
    whole = n ++ b'!' ∷ (u ++ b'@' ∷ h)

    whole-front : whole ≡ (n ++ b'!' ∷ u) ++ b'@' ∷ h
    whole-front = sym (append_assoc n (b'!' ∷ u) (b'@' ∷ h))

    length-front : length (n ++ b'!' ∷ u) ≡ length n + 1 + length u
    length-front = omega (arith, length-append n (b'!' ∷ u))

    position-at : position b'@' whole ≡ some (length n + 1 + length u)
    position-at =
        rw (whole-front, ← length-front) (position-append b'@' (n ++ b'!' ∷ u) h front-Lacks)

    drop-whole : drop (length n + 1 + length u + 1) whole ≡ h
    drop-whole = rw (whole-front, ← length-front) (drop-append (n ++ b'!' ∷ u) b'@' h)

    parts_full : source_parts whole (position b'!' whole) (position b'@' whole) ≡ ok (n, u, h)
    unfolding source_parts
    parts_full =
        let user_end : length n + 1 + length u - (length n + 1) ≡ length u = omega arith in
        let before : length n < length n + 1 + length u = omega arith in
        rw (position-append b'!' n (u ++ b'@' ∷ h) n_bang, position-at, lt→ltb _ _ before)
          (rw (user_end, drop-whole, take-append n, drop-append n, take-append u))

parts_host :
    (h : Bytes)
    → Lacks b'!' h
    → Lacks b'@' h
    → source_parts h (position b'!' h) (position b'@' h) ≡ ok ([], [], h)
unfolding source_parts
parts_host h b a = rw (position-Lacks b'!' h b, position-Lacks b'@' h a)

abbrev chars : Option (List ℕ) → List ℕ
chars none = []
chars (some t) = t

from_utf8-text : (t : Option (List ℕ)) → IsText t → from_utf8 (text_or_empty t) ≡ ok (chars t)
from_utf8-text none h = unfold decode in refl
from_utf8-text (some t) h = rw (decode-encode t h.0)

none_if_empty-chars : (t : Option (List ℕ)) → IsText t → none_if_empty (chars t) ≡ t
none_if_empty-chars none h = refl
none_if_empty-chars (some []) h = absurd (h.1 refl)
none_if_empty-chars (some (c ∷ t)) h = refl

none_if_empty-host : (t : Option Bytes) → t ≢ some [] → none_if_empty (chars t) ≡ t
none_if_empty-host none h = refl
none_if_empty-host (some []) h = absurd (h refl)
none_if_empty-host (some (c ∷ t)) h = refl

text-Lacks : (b : ℕ) (t : Option (List ℕ)) → b < 0x80 → LacksIn b t → Lacks b (text_or_empty t)
text-Lacks b none h l = tt
text-Lacks b (some t) h l = encode-Lacks b t h l

module _ (nick user : Option (List ℕ)) (host : Option Bytes) where
  abbrev source : Source
  source = record { nick = nick; user = user; host = host }

  -- Reading succeeds once the slices are the right ones.
  read_source-parts :
      (w : Bytes)
      → IsSource source
      → source_parts w (position b'!' w) (position b'@' w)
        ≡ ok (text_or_empty nick, text_or_empty user, chars host)
      → read_source w ≡ ok source
  unfolding read_source
  read_source-parts w h e =
      rw (e, from_utf8-text nick h.nick_text, from_utf8-text user h.user_text)
        (rw (
          none_if_empty-chars nick h.nick_text,
          none_if_empty-chars user h.user_text,
          none_if_empty-host host h.host_ne_nil,
        ))

  read_source-bang :
      IsSource source
      → host ≡ none
      → read_source (text_or_empty nick ++ b'!' ∷ text_or_empty user) ≡ ok source
  read_source-bang h e = read_source-parts _ h (
      rw e (
        parts_bang (text_or_empty nick) (text_or_empty user)
          (text-Lacks b'!' nick (omega arith) h.nick_no_bang)
          (text-Lacks b'@' nick (omega arith) h.nick_no_at)
          (text-Lacks b'@' user (omega arith) h.user_no_at)))

  read_source-full :
      (b : Bytes)
      → IsSource source
      → host ≡ some b
      → read_source (text_or_empty nick ++ b'!' ∷ (text_or_empty user ++ b'@' ∷ b)) ≡ ok source
  read_source-full b h e = read_source-parts _ h (
      rw e (
        parts_full (text_or_empty nick) (text_or_empty user)
          (text-Lacks b'!' nick (omega arith) h.nick_no_bang)
          (text-Lacks b'@' nick (omega arith) h.nick_no_at)
          (text-Lacks b'@' user (omega arith) h.user_no_at) b))

write_parts_reads :
    (nick user : Option (List ℕ)) (host : Option Bytes)
    → IsSource (source nick user host)
    → (w : Bytes) × (write_parts nick user host ≡ ok w)
      × (read_source w ≡ ok (source nick user host))
unfolding write_parts
write_parts_reads none none none h = absurd h.host_fits
write_parts_reads none none (some b) h =
    (b, refl, read_source-parts none none (some b) b h (parts_host b h.host_fits.0 h.host_fits.1))
write_parts_reads (some n) none none h = (_, refl, read_source-bang (some n) none none h refl)
write_parts_reads none (some u) none h = (_, refl, read_source-bang none (some u) none h refl)
write_parts_reads (some n) (some u) none h =
    (_, refl, read_source-bang (some n) (some u) none h refl)
write_parts_reads none (some u) (some b) h =
    (_, refl, read_source-full none (some u) (some b) b h refl)
write_parts_reads (some n) none (some b) h =
    (_, refl, read_source-full (some n) none (some b) b h refl)
write_parts_reads (some n) (some u) (some b) h =
    (_, refl, read_source-full (some n) (some u) (some b) b h refl)

-- Every well-formed source is written without a panic, and what is written is read back as that
-- source. Such a source has a part, no empty part, no `!` or `@` in its nick, no `@` in its user,
-- and neither in a host that stands alone.
pub read_source-write_source :
    (s : Source) → IsSource s → (w : Bytes) × (write_source s ≡ ok w) × (read_source w ≡ ok s)
unfolding write_source
read_source-write_source s h = write_parts_reads s.nick s.user s.host h

abbrev pub HostLacks : ℕ → Option Bytes → Type 0
HostLacks b none = Unit
HostLacks b (some h) = Lacks b h

-- The source holds the byte `b` in none of its parts.
pub record SourceLacks (b : ℕ) (s : Source) : Type 0 where
  pub in_nick : LacksIn b s.nick
  pub in_user : LacksIn b s.user
  pub in_host : HostLacks b s.host

module _ (b : ℕ) (ascii : b < 0x80) (no_bang : b'!' ≢ b) (no_at : b'@' ≢ b) where
  append-Lacks : (x : ℕ) (l r : Bytes) → x ≢ b → Lacks b l → Lacks b r → Lacks b (l ++ x ∷ r)
  append-Lacks x l r h hl hr = All-append (λ c. c ≢ b) l (x ∷ r) hl (h, hr)

  write_parts-Lacks :
      (nick user : Option (List ℕ)) (host : Option Bytes)
      → LacksIn b nick
      → LacksIn b user
      → HostLacks b host
      → OkLacks b (write_parts nick user host)
  unfolding write_parts
  write_parts-Lacks none none none n u h = tt
  write_parts-Lacks none none (some host) n u h = h
  write_parts-Lacks (some nick) none none n u h =
      append-Lacks b'!' (encode nick) [] no_bang (encode-Lacks b nick ascii n) tt
  write_parts-Lacks nick (some user) none n u h =
      append-Lacks b'!' (text_or_empty nick) (encode user) no_bang (text-Lacks b nick ascii n)
        (encode-Lacks b user ascii u)
  write_parts-Lacks nick user (some host) n u h =
      append-Lacks b'!' (text_or_empty nick) (text_or_empty user ++ b'@' ∷ host) no_bang
        (text-Lacks b nick ascii n)
        (append-Lacks b'@' (text_or_empty user) host no_at (text-Lacks b user ascii u) h)

  pub write_source-Lacks :
      (s : Source) {w : Bytes} → SourceLacks b s → write_source s ≡ ok w → Lacks b w
  unfolding write_source
  write_source-Lacks s h e =
      rw e at (write_parts-Lacks s.nick s.user s.host h.in_nick h.in_user h.in_host)
