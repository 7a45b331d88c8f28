-- ===== src/IrcRaw/Command/RoundTrip.antt =====
-- crates/irc-raw/src/messages.rs: reading a `Command` against writing it, and its panic.
use minibot_rust.Base.{
  ℕ, ◌<◌, true, false, List, [], ◌∷◌, ◌≡◌, ◌≢◌, refl, ◌∙◌, arith, some, Bytes, all, &&-eq_true,
  Bool-cases, if-cases, sym, inr, ◌↔◌, ok, panic, All, All-imp, ◌++◌, Lacks, inl, ◌⊎◌,
}
use minibot_rust.Utf8.{encode, decode, encode_char, IsScalar}
use minibot_rust.Utf8.RoundTrip.{decode-encode}
use minibot_rust.IrcRaw.Command.{
  Command, name, num, is_ascii_digit, is_ascii_alphabetic, read_command, read_name, read_numeric,
  write_command, format_number,
}

-- A command that the format can express.
abbrev pub IsCommand : Command → Type 0
IsCommand (name n) = (all is_ascii_alphabetic n ≡ true) × (n ≢ [])
IsCommand (num n) = (0 < n) × (n < 1000)

encode-letters : (n : List ℕ) → all is_ascii_alphabetic n ≡ true → encode n ≡ n
unfolding encode encode_char all is_ascii_alphabetic
encode-letters [] h = refl
encode-letters (c ∷ n) h = ground (arith, encode-letters n)

IsScalar-letters : (n : List ℕ) → all is_ascii_alphabetic n ≡ true → All IsScalar n
unfolding all is_ascii_alphabetic
IsScalar-letters [] h = tt
IsScalar-letters (c ∷ n) h = ground (arith, IsScalar-letters n)

decode-letters : (n : List ℕ) → all is_ascii_alphabetic n ≡ true → decode n ≡ some n
decode-letters n h = rw (encode-letters n h) at (decode-encode n (IsScalar-letters n h))

read_command-letters :
    (n : List ℕ) → all is_ascii_alphabetic n ≡ true → n ≢ [] → read_command n ≡ ok (name n)
unfolding read_command is_ascii_digit
read_command-letters [] h ne = absurd (ne refl)
read_command-letters (c ∷ n) h ne = rw (not_digit, h, decode-letters (c ∷ n) h)
  where
    not_digit : is_ascii_digit c ≡ false
    not_digit = ground arith

read_command-number : (n : ℕ) → 0 < n → n < 1000 → read_command (format_number n) ≡ ok (num n)
unfolding read_command format_number
read_command-number n p h = ground arith

-- Every command that is a nonempty name of ASCII letters or a number from 1 to 999 is read back
-- from what is written for it.
pub read_command-write_command : (c : Command) → IsCommand c → read_command (write_command c) ≡ ok c
unfolding write_command
read_command-write_command (name n) h = rw (encode-letters n h.0) (read_command-letters n h.0 h.1)
read_command-write_command (num n) h = read_command-number n h.0 h.1

-- Written commands hold letters and digits alone.
abbrev IsWordByte : ℕ → Type 0
IsWordByte c = (is_ascii_alphabetic c ≡ true) ⊎ (is_ascii_digit c ≡ true)

letters-word : (n : List ℕ) → all is_ascii_alphabetic n ≡ true → All IsWordByte n
unfolding all
letters-word [] e = tt
letters-word (c ∷ n) e =
    let parts = &&-eq_true (is_ascii_alphabetic c) (all is_ascii_alphabetic n) e in
    (inl parts.0, letters-word n parts.1)

write_command-word : (c : Command) → IsCommand c → All IsWordByte (write_command c)
unfolding write_command format_number is_ascii_digit
write_command-word (name n) h = rw (encode-letters n h.0) (letters-word n h.0)
write_command-word (num n) h = ground arith

pub write_command-Lacks :
    (b : ℕ) (c : Command)
    → (b ≡ b' ') ⊎ (b ≡ b'\r') ⊎ (b ≡ b'\n')
    → IsCommand c
    → Lacks b (write_command c)
unfolding is_ascii_alphabetic is_ascii_digit
write_command-Lacks b c s h =
    All-imp IsWordByte (λ x. x ≢ b) (λ x w. ground arith) (write_command c) (write_command-word c h)

-- So the reader takes their first byte for no tag, no source and no space.
abbrev pub StartsCommand : Bytes → Type 0
StartsCommand [] = ⊥
StartsCommand (c ∷ cs) = (c ≢ b' ') × (c ≢ b'@') × (c ≢ b':')

pub write_command-StartsCommand :
    (c : Command) (rest : Bytes) → IsCommand c → StartsCommand (write_command c ++ rest)
unfolding write_command encode encode_char is_ascii_alphabetic format_number all
write_command-StartsCommand (name []) rest h = absurd (h.1 refl)
write_command-StartsCommand (name (c ∷ n)) rest h = ground arith
write_command-StartsCommand (num n) rest h = ground arith

read_numeric-panic :
    (b : ℕ) (bs : Bytes) → read_numeric (b ∷ bs) ≡ panic → b ∷ bs ≡ b'0' ∷ b'0' ∷ b'0' ∷ []
unfolding read_numeric
read_numeric-panic b [] h = ground arith
read_numeric-panic b (c ∷ []) h = ground arith
read_numeric-panic b (c ∷ d ∷ []) h = ground arith
read_numeric-panic b (c ∷ d ∷ e ∷ bs) h = ground arith

read_name-panic : (buf : Bytes) → read_name buf ≢ panic
unfolding read_name
read_name-panic buf h = elim (Bool-cases (all is_ascii_alphabetic buf)) [
  | inl letters ↦ cc (decode-letters buf letters, h)
  | inr other ↦ cc (other, h)
]

read_command-panic : (buf : Bytes) → read_command buf ≡ panic → buf ≡ b'0' ∷ b'0' ∷ b'0' ∷ []
unfolding read_command
read_command-panic [] h = cc
read_command-panic (b ∷ bs) h =
    elim (if-cases (is_ascii_digit b) (read_numeric (b ∷ bs)) (read_name (b ∷ bs))) [
      | inl numeric ↦ read_numeric-panic b bs (sym numeric ∙ h)
      | inr named ↦ absurd (read_name-panic (b ∷ bs) (sym named ∙ h))
    ]

command_000 : read_command (b'0' ∷ b'0' ∷ b'0' ∷ []) ≡ panic
unfolding read_command
command_000 = refl

-- Reading a command panics for `000` and for nothing else.
pub read_command-panic_iff :
    (buf : Bytes) → (read_command buf ≡ panic) ↔ (buf ≡ b'0' ∷ b'0' ∷ b'0' ∷ [])
read_command-panic_iff buf = (read_command-panic buf, λ e. rw e command_000)
