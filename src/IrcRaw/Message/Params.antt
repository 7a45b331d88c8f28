-- ===== src/IrcRaw/Message/Params.antt =====
-- crates/irc-raw/src/messages.rs: the words, the spaces and the parameters in
-- `Message::read_bytes`.
use minibot_rust.Base.{
  ℕ, ◌+◌, ◌≤◌, zero, suc, List, [], ◌∷◌, ◌++◌, ◌==◌, ◌≡◌, ◌≢◌, refl, ◌∙◌, arith, Bytes, length, ok,
  ◌>>=◌, Lacks, length-append, Bool-cases, inl, inr,
}
use minibot_rust.IrcRaw.Message.{eat_space, until_space, read_params, write_params}

length-eat_space : (text : Bytes) → length (eat_space text) ≤ length text
unfolding eat_space
length-eat_space [] = omega arith
length-eat_space (c ∷ text) = ground (arith, length-eat_space text)

length-until_space_le : (text : Bytes) → length (until_space text).1 ≤ length text
unfolding until_space
length-until_space_le [] = omega arith
length-until_space_le (c ∷ text) = ground (arith, length-eat_space text, length-until_space_le text)

-- Every round of the loop makes the text shorter.
pub length-until_space : (c : ℕ) (text : Bytes) → length (until_space (c ∷ text)).1 ≤ length text
unfolding until_space
length-until_space c text = ground (arith, length-eat_space text, length-until_space_le text)

-- For every text the loop over the parameters ends with a list, without an error, when the fuel is
-- at least the length of the text.
pub read_params_total :
    (fuel : ℕ) (text : Bytes)
    → length text ≤ fuel
    → (ps : List Bytes) × (read_params fuel text ≡ ok ps)
unfolding read_params
read_params_total fuel [] h = ([], refl)
read_params_total zero (c ∷ text) h = absurd (omega arith)
read_params_total (suc fuel) (c ∷ text) h = elim (Bool-cases (c == b':')) [
  | inl colon ↦ (text ∷ [], rw colon)
  | inr other ↦
      let (ps, e) =
        read_params_total fuel (until_space (c ∷ text)).1
          (omega (arith, length-until_space c text)) in
      ((until_space (c ∷ text)).0 ∷ ps, rw (other, e))
]

pub until_space-append :
    (w rest : Bytes) → Lacks b' ' w → until_space (w ++ b' ' ∷ rest) ≡ (w, eat_space rest)
unfolding until_space
until_space-append [] rest h = refl
until_space-append (c ∷ w) rest h = ground (arith, until_space-append w rest h.1)

-- A text that does not begin with a space.
abbrev pub StartsWord : Bytes → Type 0
StartsWord [] = Unit
StartsWord (c ∷ cs) = c ≢ b' '

pub eat_space-word : (text : Bytes) → StartsWord text → eat_space text ≡ text
unfolding eat_space
eat_space-word [] h = refl
eat_space-word (c ∷ text) h = ground arith

-- Parameters that the format can express: all but the last are words that do not begin with a colon.
abbrev pub IsMiddle : Bytes → Type 0
IsMiddle [] = ⊥
IsMiddle (c ∷ p) = (c ≢ b':') × Lacks b' ' (c ∷ p)

abbrev pub AreParams : List Bytes → Type 0
AreParams [] = Unit
AreParams (last ∷ []) = Unit
AreParams (p ∷ q ∷ ps) = IsMiddle p × AreParams (q ∷ ps)

pub write_params-StartsWord : (ps : List Bytes) → AreParams ps → StartsWord (write_params ps)
unfolding write_params
write_params-StartsWord [] h = tt
write_params-StartsWord (p ∷ []) h = omega arith
write_params-StartsWord ([] ∷ q ∷ ps) h = absurd h.0
write_params-StartsWord ((c ∷ p) ∷ q ∷ ps) h = h.0.1.0

read_params-word :
    (fuel c : ℕ) (text : Bytes)
    → c ≢ b':'
    → read_params (suc fuel) (c ∷ text) ≡ (
        read_params fuel (until_space (c ∷ text)).1 >>= λ params.
        ok ((until_space (c ∷ text)).0 ∷ params))
unfolding read_params
read_params-word fuel c text h = ground arith

read_params-middle :
    (fuel : ℕ) (p : Bytes) (rest : Bytes)
    → IsMiddle p
    → StartsWord rest
    → read_params (suc fuel) (p ++ b' ' ∷ rest) ≡ (read_params fuel rest >>= λ ps. ok (p ∷ ps))
read_params-middle fuel [] rest h s = absurd h
read_params-middle fuel (c ∷ p) rest h s =
    read_params-word fuel c (p ++ b' ' ∷ rest) h.0
    ∙ rw (until_space-append (c ∷ p) rest h.1, eat_space-word rest s)

length-write_params :
    (p q : Bytes) (ps : List Bytes)
    → length (write_params (p ∷ q ∷ ps)) ≡ length p + 1 + length (write_params (q ∷ ps))
unfolding write_params
length-write_params p q ps = omega (arith, length-append p (b' ' ∷ write_params (q ∷ ps)))

write_params-cons :
    (p q : Bytes) (ps : List Bytes) → write_params (p ∷ q ∷ ps) ≡ p ++ b' ' ∷ write_params (q ∷ ps)
unfolding write_params
write_params-cons p q ps = refl

pub read_params-write_params :
    (fuel : ℕ) (ps : List Bytes)
    → AreParams ps
    → length (write_params ps) ≤ fuel
    → read_params fuel (write_params ps) ≡ ok ps
read_params-write_params fuel [] h f = unfold read_params write_params in refl
read_params-write_params zero (last ∷ []) h f = absurd (unfold write_params in omega arith)
read_params-write_params (suc fuel) (last ∷ []) h f = unfold read_params write_params in refl
read_params-write_params zero (p ∷ q ∷ ps) h f = absurd (omega (arith, length-write_params p q ps))
read_params-write_params (suc fuel) (p ∷ q ∷ ps) h f = rw (
  write_params-cons p q ps,
  read_params-middle fuel p (write_params (q ∷ ps)) h.0 (write_params-StartsWord (q ∷ ps) h.1),
  read_params-write_params fuel (q ∷ ps) h.1 (omega (arith, length-write_params p q ps)),
)
