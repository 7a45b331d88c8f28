-- ===== src/Utf8/RoundTrip.antt =====
-- `str::from_utf8` against `str::as_bytes`.
use mathlib.Core.Option
use minibot_rust.Base.{ℕ, ◌≡◌, refl, ap, ◌∙◌, List, [], ◌∷◌, ◌++◌, some, arith, Bytes, All}
use minibot_rust.Utf8.{IsScalar, encode_char, encode, idle, decode_from, decode}

decode-encode_char :
    (c : ℕ) (rest : Bytes)
    → IsScalar c
    → decode_from idle (encode_char c ++ rest) ≡ Option.map (◌∷◌ c) (decode_from idle rest)
unfolding encode_char decode_from
decode-encode_char c rest h = ground arith

decode_from-encode : (s : List ℕ) → All IsScalar s → decode_from idle (encode s) ≡ some s
unfolding encode
decode_from-encode [] h = unfold decode_from in refl
decode_from-encode (c ∷ s) h =
    decode-encode_char c (encode s) h.0 ∙ ap (Option.map (◌∷◌ c)) (decode_from-encode s h.1)

pub decode-encode : (s : List ℕ) → All IsScalar s → decode (encode s) ≡ some s
unfolding decode
decode-encode = decode_from-encode
