-- ===== src/ByteString.antt =====
-- crates/byte-string/src/lib.rs: `ByteStr::split_spaces`. The iterator's state is the rest of the
-- slice; a `ByteString` is its bytes.
pub mod Words
mod Tests
use minibot_rust.Base.{
  ℕ, zero, suc, ◌+◌, Bool, true, false, List, [], ◌∷◌, Option, none, some, ◌==◌, if◌then◌else◌,
  Bytes, take, drop, length, Outcome, ok, out_of_fuel, ◌>>=◌,
}
use minibot_rust.IrcRaw.Slice.{position}

-- `position(|b| b != &b' ')`.
unfoldable pub position_other : Bytes → Option ℕ
position_other [] = none
position_other (b ∷ bs) =
    let later = position_other bs in
    if b == b' ' then elim later [ none ↦ none | some i ↦ some (i + 1) ] else some 0

unfoldable pub skip_spaces : Bytes → Bytes
skip_spaces text = elim (position_other text) [ none ↦ [] | some i ↦ drop i text ]

unfoldable pub cut_word : Bytes → Bytes × Bytes
cut_word text = elim (position b' ' text) [
  | none ↦ (text, [])
  | some i ↦ (take i text, drop i text)
]

-- `SplitSpaces::next`: the word and the rest.
unfoldable pub next : Bytes → Option (Bytes × Bytes)
next text = elim (skip_spaces text) [ [] ↦ none | c ∷ cs ↦ some (cut_word (c ∷ cs)) ]

-- The words that a loop over the iterator sees. Each takes a byte at least.
unfoldable pub collect : ℕ → Bytes → Outcome ⊥ (List Bytes)
collect zero text = out_of_fuel
collect (suc fuel) text = elim (next text) [
  | none ↦ ok []
  | some (word, rest) ↦ (collect fuel rest >>= λ words. ok (word ∷ words))
]
