-- ===== src/IrcRaw/Codec/Stream.antt =====
-- crates/irc-raw/src/codec.rs: `decode` on streams of lines.
use minibot_rust.Base.{
  ℕ, suc, ◌+◌, ◌<◌, ◌≤◌, List, [], ◌∷◌, ◌++◌, Option, none, some, Bytes, length, drop, append-nil,
  lt→ltb, ok, ◌>>=◌, Lacks, ◌≡◌, inl, refl, ap, ◌∙◌, arith, append_assoc, take-append, All,
}
use minibot_rust.IrcRaw.Error.{Result}
use minibot_rust.IrcRaw.Message.{Message, read_message}
use minibot_rust.IrcRaw.Message.RoundTrip.{IsMessage, read_message-write_message}
use minibot_rust.IrcRaw.Message.Lines.{MessageLacks, write_message-Lacks}
use minibot_rust.IrcRaw.Codec.{find_term, decode, decode_buffer, encode}

find_term-append :
    (w rest : Bytes) → Lacks b'\r' w → find_term (w ++ b'\r' ∷ b'\n' ∷ rest) ≡ some (length w)
unfolding find_term
find_term-append [] rest h = refl
find_term-append (a ∷ []) rest h = ground arith
find_term-append (a ∷ b ∷ w) rest h = ground (arith, find_term-append (b ∷ w) rest h.1)

find_term-Lacks : (w : Bytes) → Lacks b'\r' w → find_term w ≡ none
unfolding find_term
find_term-Lacks [] h = refl
find_term-Lacks (a ∷ []) h = refl
find_term-Lacks (a ∷ b ∷ w) h = ground (arith, find_term-Lacks (b ∷ w) h.1)

abbrev pub Within : Option ℕ → ℕ → Type 0
Within none n = Unit
Within (some i) n = i + 2 ≤ n

-- The terminator lies inside the buffer.
pub find_term-Within : (buf : Bytes) → Within (find_term buf) (length buf)
unfolding find_term
find_term-Within [] = tt
find_term-Within (a ∷ []) = tt
find_term-Within (a ∷ b ∷ r) = ground (arith, find_term-Within (b ∷ r))

drop-line : (w rest : Bytes) → drop (length w + 2) (w ++ b'\r' ∷ b'\n' ∷ rest) ≡ rest
drop-line [] rest = refl
drop-line (c ∷ w) rest =
    let e : suc (length w) + 2 ≡ suc (length w + 2) = omega arith in rw e (drop-line w rest)

decode-line :
    (fuel : ℕ) (w rest : Bytes)
    → Lacks b'\r' w
    → 0 < length w
    → decode (suc fuel) (w ++ b'\r' ∷ b'\n' ∷ rest) ≡ ((read_message w >>= λ m. ok (some m)), rest)
unfolding decode
decode-line fuel w rest l n =
    rw (find_term-append w rest l, decode)
      (rw (lt→ltb 0 (length w) n) (rw (take-append w, drop-line w rest)))

-- The same with the message that the line holds.
decode-message :
    (m : Message) (w rest : Bytes)
    → Lacks b'\r' w
    → read_message w ≡ ok m
    → decode_buffer ((w ++ b'\r' ∷ b'\n' ∷ []) ++ rest) ≡ (ok (some m), rest)
unfolding decode_buffer
decode-message m [] rest l e = absurd (unfold read_message in cc)
decode-message m (c ∷ w) rest l e =
    rw (append_assoc) (decode-line _ (c ∷ w) rest l (omega arith) ∙ rw e)

-- An empty line is skipped.
pub decode_empty_line :
    (fuel : ℕ) (rest : Bytes) → decode (suc fuel) (b'\r' ∷ b'\n' ∷ rest) ≡ decode fuel rest
unfolding decode
decode_empty_line fuel rest = refl

-- From a buffer with no carriage return `decode` takes nothing, and it asks for more bytes.
pub decode_partial : (buf : Bytes) → Lacks b'\r' buf → decode_buffer buf ≡ (ok none, buf)
unfolding decode_buffer
decode_partial buf h = unfold decode in rw (find_term-Lacks buf h, decode)

-- Calls of `decode` on `buf` give these messages one after another, and leave `rest`.
abbrev pub Decodes : List Message → Bytes → Bytes → Type 0
Decodes [] buf rest = buf ≡ rest
Decodes (m ∷ ms) buf rest =
    (next : Bytes) × (decode_buffer buf ≡ (ok (some m), next)) × Decodes ms next rest

pub encode_all : List Message → Bytes → Result Bytes
encode_all [] out = ok out
encode_all (m ∷ ms) out = encode m out >>= encode_all ms

-- A message that fits in a line.
abbrev pub IsLine : Message → Type 0
IsLine m = IsMessage m × MessageLacks b'\r' m

-- Messages that the format can express, with no carriage return in their tag keys, sources and
-- parameters, are encoded without an error or a panic behind what the output buffer holds. Calls of
-- `decode` on those bytes, with anything behind them, give the messages in order and leave what
-- stands behind.
pub decode-encode_all :
    (ms : List Message) (out rest : Bytes)
    → All IsLine ms
    → (w : Bytes) × (encode_all ms out ≡ ok (out ++ w)) × Decodes ms (w ++ rest) rest
unfolding encode_all encode
decode-encode_all [] out rest h = ([], rw append-nil, refl)
decode-encode_all (m ∷ ms) out rest h =
    let (x, written, parsed) = read_message-write_message m h.0.0 in
    let clean = write_message-Lacks b'\r' (inl refl) m h.0.0 h.0.1 written in
    let line = x ++ b'\r' ∷ b'\n' ∷ [] in
    let (w, later, decoded) = decode-encode_all ms (out ++ line) rest h.1 in
    (
      line ++ w,
      rw (written, later) (ap ok (append_assoc out line w)),
      (
        w ++ rest,
        rw (append_assoc line w rest) (decode-message m x (w ++ rest) clean parsed),
        decoded,
      ),
    )
