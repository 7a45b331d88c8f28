-- ===== src/ByteString/Tests.antt =====
-- A concrete run of the iterator.
use minibot_rust.Base.{[], ◌∷◌, ok, ◌≡◌, arith}
use minibot_rust.ByteString.{collect}
use minibot_rust.ByteString.Words.{words, collect-words}

collect-words_example :
    collect 7 (b' ' ∷ b'a' ∷ b' ' ∷ b' ' ∷ b'b' ∷ [])
    ≡ ok (words (b' ' ∷ b'a' ∷ b' ' ∷ b' ' ∷ b'b' ∷ []))
collect-words_example = collect-words 7 (b' ' ∷ b'a' ∷ b' ' ∷ b' ' ∷ b'b' ∷ []) (omega arith)
