-- ===== src/IrcRaw/Command.antt =====
-- crates/irc-raw/src/messages.rs: `Command` and `CommandNumber`.
pub mod RoundTrip
use minibot_rust.Base.{
  ℕ, ◌+◌, ◌-◌, ◌*◌, ◌/◌, ◌%◌, ◌^◌, Bool, true, false, List, [], ◌∷◌, ◌==◌, ltb, leb, ◌&&◌, ◌||◌,
  if◌then◌else◌, Bytes, length, all, ok, err, panic, assert, unwrap, ensure, ◌>>=◌, ◌>>◌, is_empty,
  not, Outcome, eq_bytes,
}
use minibot_rust.Utf8.{encode, decode}
use minibot_rust.IrcRaw.Error.{
  Error, Result, empty_command, numeric_length, numeric_not_digits, name_not_letters,
}

-- `CommandNumber(u16)` is its number; `new` is the only way to one.
pub data Command : Type 0 where
  name : List ℕ → Command
  num : ℕ → Command

unfoldable pub new_number : ℕ → Result ℕ
new_number i = do assert (ltb 0 i && ltb i 1000); ok i

unfoldable pub from_numeric : ℕ → Result Command
unfolding new_number
from_numeric n = do i ← new_number n; ok (num i)

unfoldable pub is_ascii_digit : ℕ → Bool
is_ascii_digit b = leb b'0' b && leb b b'9'

unfoldable pub is_ascii_alphabetic : ℕ → Bool
is_ascii_alphabetic b = (leb b'a' b && leb b b'z') || (leb b'A' b && leb b b'Z')

-- `ch.is_ascii()` and `ch.is_alphabetic()` together hold of the ASCII letters.
unfoldable pub from_name : List ℕ → Result Command
unfolding is_ascii_alphabetic all
from_name n = do assert (all is_ascii_alphabetic n); ok (name n)

-- The loop over the digits, in `u16`.
unfoldable pub digits_total : ℕ → Bytes → ℕ
digits_total total [] = total
digits_total total (b ∷ bs) = digits_total ((total * 10 + (b - b'0')) % 2 ^ 16) bs

read_numeric : Bytes → Result Command
unfolding is_ascii_digit all digits_total from_numeric
read_numeric buf = do
  ensure (length buf == 3) (numeric_length buf)
  ensure (all is_ascii_digit buf) numeric_not_digits
  from_numeric (digits_total 0 buf)

read_name : Bytes → Result Command
unfolding is_ascii_alphabetic all decode
read_name buf = do
  ensure (all is_ascii_alphabetic buf) name_not_letters
  n ← unwrap (decode buf)
  ok (name n)

unfoldable pub read_command : Bytes → Result Command
unfolding read_numeric read_name
read_command [] = err empty_command
read_command (b ∷ bs) = if is_ascii_digit b then read_numeric (b ∷ bs) else read_name (b ∷ bs)

-- `format!("{:03}", n)`, for the numbers below 1000.
unfoldable pub format_number : ℕ → Bytes
format_number n = (b'0' + n / 100 % 10) ∷ (b'0' + n / 10 % 10) ∷ (b'0' + n % 10) ∷ []

unfoldable pub write_command : Command → Bytes
unfolding encode format_number
write_command (name n) = encode n
write_command (num n) = format_number n
