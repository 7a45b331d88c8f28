-- ===== src/IrcRpc/Tests.antt =====
-- Concrete runs of calls over an IRC connection.
use minibot_rust.Base.{
  ℕ, ◌≡◌, refl, true, List, [], ◌∷◌, none, some, ok, err, if◌then◌else◌, inl, inr,
}
use minibot_rust.IrcRaw.Command.{num}
use minibot_rust.IrcRaw.Message.{Message, from_command_params, has_num_command}
use minibot_rust.IrcClient.{message}
use minibot_rust.IrcRpc.{next, skip, end, RpcCall, Connection, responses, call_during, call_result}
use minibot_rust.IrcRpc.Calls.{call_during-completes, idle}

abbrev numbered : ℕ → Message
numbered n = from_command_params (num n) []

-- A call that keeps 1, ends at 2, fails at 3 and skips all else.
abbrev call : RpcCall (List Message) ℕ
call = record {
  send_messages = [];
  msg_filter = λ m.
      if has_num_command m 1
      then ok next
      else (if has_num_command m 2
          then ok end
          else (if has_num_command m 3 then err 7 else ok skip));
  recv_messages = λ ms. ok ms;
}

abbrev connection : Connection (List Message) ℕ
connection = record { stream_state = none; reply = none; handled = []; handler = λ before m. none }

call_during-completes_example :
    call_during call true
      (message (numbered 1) ∷ message (numbered 9) ∷ message (numbered 2) ∷ [])
      connection
    ≡ (
      some (ok (numbered 1 ∷ numbered 2 ∷ [])),
      idle call
          (responses (numbered 1 ∷ numbered 2 ∷ []))
          (numbered 1 ∷ numbered 9 ∷ [])
          connection,
    )
unfolding has_num_command from_command_params call_result
call_during-completes_example =
    call_during-completes call (numbered 1 ∷ numbered 9 ∷ []) (numbered 2) connection refl
      (λ before m. refl) (inl refl, (inr refl, tt)) refl
