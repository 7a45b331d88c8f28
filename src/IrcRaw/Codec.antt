-- ===== src/IrcRaw/Codec.antt =====
-- crates/irc-raw/src/codec.rs: `IrcCodec`, which cuts a byte stream into messages. The buffer is
-- the unread part of the stream; a call of `decode` gives its result and the buffer that it leaves.
pub mod Stream
pub mod Total
use minibot_rust.Base.{
  ℕ, zero, suc, ◌+◌, Bool, true, false, List, [], ◌∷◌, ◌++◌, Option, none, some, ◌==◌, ◌&&◌, ltb,
  if◌then◌else◌, Bytes, length, take, drop, ok, out_of_fuel, ◌>>=◌,
}
use minibot_rust.IrcRaw.Error.{Result}
use minibot_rust.IrcRaw.Message.{Message, read_message, write_message}

-- `data.windows(2).position(|w| w == MSG_TERM)`.
unfoldable pub find_term : Bytes → Option ℕ
find_term [] = none
find_term (a ∷ []) = none
find_term (a ∷ b ∷ r) =
    if a == b'\r' && b == b'\n'
    then some 0
    else elim (find_term (b ∷ r)) [ none ↦ none | some i ↦ some (i + 1) ]

abbrev pub Decoded : Type 0
Decoded = Result (Option Message) × Bytes

-- The loop: an empty message is skipped. Each round takes two bytes off the buffer.
unfoldable pub decode : ℕ → Bytes → Decoded
unfolding find_term
decode zero buf = (out_of_fuel, buf)
decode (suc fuel) buf = elim (find_term buf) [
  | none ↦ (ok none, buf)
  | some pos ↦ elim (ltb 0 pos) [
    | true ↦ ((read_message (take pos buf) >>= λ m. ok (some m)), drop (pos + 2) buf)
    | false ↦ decode fuel (drop (pos + 2) buf)
  ]
]

-- `Decoder::decode`: the fuel is enough, as `Total.decode_buffer_total` shows.
unfoldable pub decode_buffer : Bytes → Decoded
decode_buffer buf = decode (suc (length buf)) buf

-- `Encoder::encode` appends to the output buffer.
unfoldable pub encode : Message → Bytes → Result Bytes
encode msg out = do msg_bytes ← write_message msg; ok (out ++ (msg_bytes ++ b'\r' ∷ b'\n' ∷ []))
