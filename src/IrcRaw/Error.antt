-- ===== src/IrcRaw/Error.antt =====
-- crates/irc-raw/src/messages.rs: `Error`. A formatted text is a constructor for its format string.
use minibot_rust.Base.{ℕ, Bytes, Outcome}

pub data Error : Type 0 where
  unexpected_escape : ℕ → Error
  empty_command : Error
  numeric_length : Bytes → Error
  numeric_not_digits : Error
  name_not_letters : Error
  bang_after_at : Bytes → Error
  empty_message : Error
  no_command : Error
  utf8_error : Error

abbrev pub Result : Type 0 → Type 0
Result A = Outcome Error A
