-- ===== src/DockerProc/Numbers.antt =====
-- The decimal forms of a `u16`, which crates/docker-proc/src/lib.rs writes by `format!` and reads by
-- `parse`.
use minibot_rust.Base.{
  ℕ, zero, suc, ◌+◌, ◌-◌, ◌*◌, ◌/◌, ◌%◌, ◌≤◌, ◌<◌, ◌≡◌, ◌≢◌, refl, sym, ap, ◌∙◌, [], ◌∷◌, ◌++◌,
  append-nil, append_assoc, Option, none, some, ◌&&◌, ltb, leb, ◌==◌, if◌then◌else◌, Bytes, All,
  All-append, length, length-append, arith, ltb→lt, Bool-cases, inl, inr,
}

-- With fuel for `suc fuel` digits.
show_fuel : ℕ → ℕ → Bytes
show_fuel zero n = (b'0' + n % 10) ∷ []
show_fuel (suc fuel) n =
    let higher = show_fuel fuel (n / 10) in
    if ltb n 10 then (b'0' + n % 10) ∷ [] else higher ++ (b'0' + n % 10) ∷ []

unfoldable pub show_u16 : ℕ → Bytes
unfolding show_fuel
show_u16 n = show_fuel 4 n

-- The digits behind a number; none at another character, or beyond `u16::MAX`.
read_digits : ℕ → Bytes → Option ℕ
read_digits acc [] = some acc
read_digits acc (c ∷ cs) =
    let rest = read_digits (acc * 10 + (c - b'0')) cs in
    if leb b'0' c && (leb c b'9' && leb (acc * 10 + (c - b'0')) 65535) then rest else none

unsigned : Bytes → Option ℕ
unfolding read_digits
unsigned [] = none
unsigned (c ∷ cs) = read_digits 0 (c ∷ cs)

unfoldable pub parse_u16 : Bytes → Option ℕ
unfolding unsigned
parse_u16 [] = none
parse_u16 (c ∷ cs) = if c == b'+' then unsigned cs else unsigned (c ∷ cs)

abbrev limit : ℕ → ℕ
limit zero = 10
limit (suc fuel) = 10 * limit fuel

read_digits-digit :
    (acc d : ℕ) (rest : Bytes)
    → d < 10
    → acc * 10 + d < 65536
    → read_digits acc ((b'0' + d) ∷ rest) ≡ read_digits (acc * 10 + d) rest
unfolding read_digits
read_digits-digit acc d rest h b = let e : b'0' + d - b'0' ≡ d = omega arith in rw e (ground arith)

-- Reading the digits that have been written of a number goes on with that number.
read_digits-show_fuel :
    (fuel n : ℕ) (rest : Bytes)
    → n < limit fuel
    → n < 65536
    → read_digits 0 (show_fuel fuel n ++ rest) ≡ read_digits n rest
unfolding show_fuel
read_digits-show_fuel zero n rest h b =
    let e : 0 * 10 + n % 10 ≡ n = omega arith in
    read_digits-digit 0 (n % 10) rest (omega arith) (omega arith) ∙ ap (λ k. read_digits k rest) e
read_digits-show_fuel (suc fuel) n rest h b = elim (Bool-cases (ltb n 10)) [
  | inl one ↦
      let e : 0 * 10 + n % 10 ≡ n = omega (arith, ltb→lt n 10 one) in
      rw (one, show_fuel)
        (read_digits-digit 0 (n % 10) rest (omega arith) (omega arith)
          ∙ ap (λ k. read_digits k rest) e)
  | inr more ↦
      let e : n / 10 * 10 + n % 10 ≡ n = omega arith in
      rw (more, show_fuel)
        (ap (read_digits 0) (append_assoc (show_fuel fuel (n / 10)) ((b'0' + n % 10) ∷ []) rest)
          ∙ read_digits-show_fuel fuel (n / 10) ((b'0' + n % 10) ∷ rest) (omega arith) (omega arith)
          ∙ read_digits-digit (n / 10) (n % 10) rest (omega arith) (omega arith)
          ∙ ap (λ k. read_digits k rest) e)
]

-- Decimal digits.
abbrev pub IsDigit : ℕ → Type 0
IsDigit c = (b'0' ≤ c) × (c ≤ b'9')

show_fuel-IsDigit : (fuel n : ℕ) → All IsDigit (show_fuel fuel n)
unfolding show_fuel
show_fuel-IsDigit zero n = (omega arith, tt)
show_fuel-IsDigit (suc fuel) n = elim (Bool-cases (ltb n 10)) [
  | inl one ↦ rw (one, show_fuel) (omega arith, tt)
  | inr more ↦
      rw (more, show_fuel)
        (All-append IsDigit (show_fuel fuel (n / 10)) ((b'0' + n % 10) ∷ [])
          (show_fuel-IsDigit fuel (n / 10)) (omega arith, tt))
]

pub show_u16-IsDigit : (n : ℕ) → All IsDigit (show_u16 n)
unfolding show_u16
show_u16-IsDigit n = show_fuel-IsDigit 4 n

unsigned-read_digits :
    (text : Bytes) (n : ℕ)
    → All IsDigit text
    → read_digits 0 text ≡ some n
    → text ≢ []
    → parse_u16 text ≡ some n
unfolding parse_u16
unsigned-read_digits [] n d h e = absurd (e refl)
unsigned-read_digits (c ∷ cs) n d h e = ground (arith, h, d)

snoc-ne-nil : (xs : Bytes) (x : ℕ) → xs ++ x ∷ [] ≢ []
snoc-ne-nil xs x h = absurd (omega (arith, ap (length {A = ℕ}) h, length-append {0} xs (x ∷ [])))

show_fuel-ne-nil : (fuel n : ℕ) → show_fuel fuel n ≢ []
unfolding show_fuel
show_fuel-ne-nil zero n = λ h. cc
show_fuel-ne-nil (suc fuel) n = elim (Bool-cases (ltb n 10)) [
  | inl one ↦ rw (one, show_fuel) (λ h. cc)
  | inr more ↦ rw (more, show_fuel) (snoc-ne-nil (show_fuel fuel (n / 10)) (b'0' + n % 10))
]

-- Every `u16` is read back as it was written.
pub parse_u16-show_u16 : (n : ℕ) → n < 65536 → parse_u16 (show_u16 n) ≡ some n
unfolding show_u16 read_digits
parse_u16-show_u16 n b =
    unsigned-read_digits (show_fuel 4 n) n (show_fuel-IsDigit 4 n)
      (ap (read_digits 0) (sym (append-nil (show_fuel 4 n)))
        ∙ read_digits-show_fuel 4 n [] (omega arith) b)
      (show_fuel-ne-nil 4 n)
