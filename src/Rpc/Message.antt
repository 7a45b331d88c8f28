-- ===== src/Rpc/Message.antt =====
-- crates/common/src/net/rpc/msg.rs.
use minibot_rust.Base.{ℕ, Option, some}

-- The texts of the errors that the broker sends.
pub data ErrorText : Type 0 where
  already_running : ErrorText
  command_failed : ErrorText
  unallocated_id : ErrorText

pub data Message (Value : Type 0) : Type 0 where
  command : ℕ → Value → Value → Message Value
  cancel : ℕ → Message Value
  response : ℕ → Value → Message Value
  end_stream : ℕ → Message Value
  error : ErrorText → Option ℕ → Message Value

unfoldable pub new_error_with_id : {Value : Type 0} → ℕ → ErrorText → Message Value
new_error_with_id id msg = error msg (some id)
