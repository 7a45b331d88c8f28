-- ===== src/IrcRaw/Slice.antt =====
-- The slice operations that the parsers of crates/irc-raw use, and `from_utf8` as a result.
use minibot_rust.Base.{
  ℕ, ◌+◌, List, [], ◌∷◌, ◌++◌, ◌≡◌, refl, Option, none, some, ◌==◌, if◌then◌else◌, Bytes, Lacks,
  length, arith, ok_or,
}
use minibot_rust.Utf8.{decode}
use minibot_rust.IrcRaw.Error.{Result, utf8_error}

-- `str::from_utf8(..)?`.
abbrev pub from_utf8 : Bytes → Result (List ℕ)
from_utf8 b = ok_or (decode b) utf8_error

-- `iter().position(|c| c == &b)`.
unfoldable pub position : ℕ → Bytes → Option ℕ
position b [] = none
position b (c ∷ cs) =
    if c == b then some 0 else elim (position b cs) [ none ↦ none | some i ↦ some (i + 1) ]

-- `slice::split`: the terms between the occurrences of `b`, one at least.
cons_head : ℕ → List Bytes → List Bytes
cons_head c [] = (c ∷ []) ∷ []
cons_head c (t ∷ ts) = (c ∷ t) ∷ ts

unfoldable pub split : ℕ → Bytes → List Bytes
unfolding cons_head
split b [] = [] ∷ []
split b (c ∷ cs) = let ts = split b cs in if c == b then [] ∷ ts else cons_head c ts

pub position-append :
    (b : ℕ) (l r : Bytes) → Lacks b l → position b (l ++ (b ∷ r)) ≡ some (length l)
unfolding position
position-append b [] r h = ground arith
position-append b (c ∷ l) r h = ground (arith, position-append b l r h.1)

pub position-Lacks : (b : ℕ) (l : Bytes) → Lacks b l → position b l ≡ none
unfolding position
position-Lacks b [] h = refl
position-Lacks b (c ∷ l) h = ground (arith, position-Lacks b l h.1)

pub split-append : (b : ℕ) (l r : Bytes) → Lacks b l → split b (l ++ (b ∷ r)) ≡ l ∷ split b r
unfolding split
split-append b [] r h = ground arith
split-append b (c ∷ l) r h = ground (arith, split-append b l r h.1)

pub split-Lacks : (b : ℕ) (l : Bytes) → Lacks b l → split b l ≡ l ∷ []
unfolding split
split-Lacks b [] h = refl
split-Lacks b (c ∷ l) h = ground (arith, split-Lacks b l h.1)
