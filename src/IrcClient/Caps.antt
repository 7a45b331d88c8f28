-- ===== src/IrcClient/Caps.antt =====
-- crates/irc/src/client.rs: the two loops of `initialize_irc_channel` over the replies to CAP. They
-- differ in the word that they expect, `LS` or `ACK`, and are one function here.
pub mod Replies
use minibot_rust.Base.{
  ℕ, zero, suc, ◌+◌, Bool, true, false, List, [], ◌∷◌, ◌++◌, eq_bytes, Bytes, length, Outcome, ok,
  err, panic, out_of_fuel, codes, assert, ◌>>=◌, ◌>>◌,
}
use minibot_rust.IrcRaw.Message.{Message, has_named_command}
use minibot_rust.ByteString.{collect}
use minibot_rust.IrcClient.{ClientResult, unexpected_end, irc, Incoming, message, failed}

-- The words of `split_spaces`, with fuel that is enough by `collect-words`.
unfoldable pub split_spaces : Bytes → ClientResult (List Bytes)
split_spaces text = elim (collect (suc (length text)) text) [
  | ok words ↦ ok words
  | err e ↦ absurd e
  | panic ↦ panic
  | out_of_fuel ↦ out_of_fuel
]

-- What a reply says: whether it is the last, and the caps that it lists.
unfoldable pub read_cap_params : Bytes → List Bytes → ClientResult (Bool × List Bytes)
unfolding split_spaces
read_cap_params verb (a ∷ caps_list ∷ []) = do
  assert (eq_bytes a verb)
  words ← split_spaces caps_list
  ok (false, words)
read_cap_params verb (a ∷ b ∷ caps_list ∷ []) = do
  assert (eq_bytes a (codes "*"))
  assert (eq_bytes b verb)
  words ← split_spaces caps_list
  ok (true, words)
read_cap_params verb _ = panic

unfoldable pub read_cap : Bytes → Message → ClientResult (Bool × List Bytes)
unfolding read_cap_params
read_cap verb m = do assert (has_named_command m (codes "CAP")); read_cap_params verb m.params

-- The loop: the caps, or how it fails, and what the stream gives behind it.
unfoldable pub read_caps :
    Bytes → List Bytes → List Incoming → ClientResult (List Bytes) × List Incoming
read_caps verb caps [] = (err unexpected_end, [])
read_caps verb caps (failed e ∷ rest) = (err (irc e), rest)
read_caps verb caps (message m ∷ rest) = elim (read_cap verb m) [
  | ok (false, words) ↦ read_caps verb (caps ++ words) rest
  | ok (true, words) ↦ (ok (caps ++ words), rest)
  | err e ↦ (err e, rest)
  | panic ↦ (panic, rest)
  | out_of_fuel ↦ (out_of_fuel, rest)
]
