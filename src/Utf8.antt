-- ===== src/Utf8.antt =====
-- `str::from_utf8` and `str::as_bytes`: a text is the list of its code points.
pub mod RoundTrip
use minibot_rust.Base.{
  ℕ, ◌+◌, ◌-◌, ◌*◌, ◌/◌, ◌%◌, ◌≤◌, ◌<◌, Bool, true, false, ◌&&◌, ◌||◌, not, List, [], ◌∷◌, ◌++◌,
  Option, none, some, ltb, leb, ◌==◌, if◌then◌else◌, Bytes, All, ◌⊎◌,
}
use mathlib.Core.Option

-- A Unicode scalar value, the values of `char`.
unfoldable pub is_scalar : ℕ → Bool
is_scalar c = ltb c 0xD800 || (leb 0xE000 c && ltb c 0x110000)

abbrev pub IsScalar : ℕ → Type 0
IsScalar c = (c < 0xD800) ⊎ ((0xE000 ≤ c) × (c < 0x110000))

unfoldable pub encode_char : ℕ → Bytes
encode_char c =
    if ltb c 0x80
    then c ∷ []
    else if ltb c 0x800
    then (0xC0 + c / 64) ∷ (0x80 + c % 64) ∷ []
    else if ltb c 0x10000
    then (0xE0 + c / 4096) ∷ (0x80 + c / 64 % 64) ∷ (0x80 + c % 64) ∷ []
    else (0xF0 + c / 262144) ∷ (0x80 + c / 4096 % 64) ∷ (0x80 + c / 64 % 64) ∷ (0x80 + c % 64) ∷ []

-- `as_bytes`.
unfoldable pub encode : List ℕ → Bytes
encode [] = []
encode (c ∷ cs) = encode_char c ++ encode cs

-- Between two bytes: `wait n acc least` wants `n + 1` more bytes of a character that has the value
-- `acc` so far and must not be below `least`.
pub data Pending : Type 0 where
  idle : Pending
  wait : ℕ → ℕ → ℕ → Pending

pub data Step : Type 0 where
  emit : ℕ → Step
  more : Pending → Step
  fail : Step

start_char : ℕ → Step
start_char b =
    if ltb b 0x80
    then emit b
    else if ltb b 0xC0
    then fail
    else if ltb b 0xE0
    then more (wait 0 (b - 0xC0) 0x80)
    else if ltb b 0xF0
    then more (wait 1 (b - 0xE0) 0x800)
    else if ltb b 0xF8
    then more (wait 2 (b - 0xF0) 0x10000)
    else fail

step_char : Pending → ℕ → Step
step_char idle b = start_char b
step_char (wait n acc least) b =
    let acc' = acc * 64 + (b - 0x80) in
    if not (leb 0x80 b && ltb b 0xC0)
    then fail
    else if not (n == 0)
    then more (wait (n - 1) acc' least)
    else if leb least acc' && is_scalar acc'
    then emit acc'
    else fail

unfoldable pub decode_from : Pending → Bytes → Option (List ℕ)
unfolding step_char start_char is_scalar
decode_from idle [] = some []
decode_from (wait n acc least) [] = none
decode_from p (b ∷ bs) = elim (step_char p b) [
  | emit c ↦ Option.map (◌∷◌ c) (decode_from idle bs)
  | more q ↦ decode_from q bs
  | fail ↦ none
]

-- `from_utf8`.
unfoldable pub decode : Bytes → Option (List ℕ)
unfolding decode_from
decode = decode_from idle
