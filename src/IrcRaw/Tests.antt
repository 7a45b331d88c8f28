-- ===== src/IrcRaw/Tests.antt =====
-- Concrete runs of the IRC message format.
use minibot_rust.Base.{
  ℕ, all, List, [], ◌∷◌, ◌++◌, none, some, Bytes, All, ok, ◌≡◌, refl, arith, inl, Lacks,
}
use minibot_rust.IrcRaw.Tags.RoundTrip.{IsTag, Distinct}
use minibot_rust.IrcRaw.Source.{Source}
use minibot_rust.IrcRaw.Source.RoundTrip.{IsSource, SourceLacks}
use minibot_rust.IrcRaw.Command.{Command, name, num, write_command, is_ascii_alphabetic}
use minibot_rust.IrcRaw.Command.RoundTrip.{IsCommand}
use minibot_rust.IrcRaw.Message.{Message, read_message, write_message}
use minibot_rust.IrcRaw.Message.RoundTrip.{IsMessage, read_message-write_message}
use minibot_rust.IrcRaw.Message.Lines.{MessageLacks, write_message-Lacks}
use minibot_rust.IrcRaw.Codec.{decode_buffer}
use minibot_rust.IrcRaw.Codec.Stream.{IsLine, Decodes, encode_all, decode-encode_all}
use minibot_rust.IrcRaw.Codec.Total.{Settled, decode_buffer_total}

-- `@id=a b;mod :bot!bot@host PRIVMSG #room :hi all`.
abbrev tags : List (List ℕ × List ℕ)
tags = (b'i' ∷ b'd' ∷ [], b'a' ∷ b' ' ∷ b'b' ∷ []) ∷ (b'm' ∷ b'o' ∷ b'd' ∷ [], []) ∷ []

abbrev bot : Source
bot = record {
  nick = some (b'b' ∷ b'o' ∷ b't' ∷ []);
  user = some (b'b' ∷ b'o' ∷ b't' ∷ []);
  host = some (b'h' ∷ b'o' ∷ b's' ∷ b't' ∷ []);
}

abbrev privmsg : Command
privmsg = name (b'P' ∷ b'R' ∷ b'I' ∷ b'V' ∷ b'M' ∷ b'S' ∷ b'G' ∷ [])

abbrev greeting : Message
greeting = record {
  tags = tags;
  source = some bot;
  command = privmsg;
  params = (b'#' ∷ b'r' ∷ []) ∷ (b'h' ∷ b'i' ∷ b' ' ∷ b'a' ∷ []) ∷ [];
}

abbrev welcome : Message
welcome = record { tags = []; source = none; command = num 1; params = [] }

tags-IsTag : All IsTag tags
tags-IsTag = (
  record {
    key_scalar = ground arith;
    key_ne_nil = ground arith;
    key_no_equals = ground arith;
    key_no_semicolon = ground arith;
    key_no_space = ground arith;
    value_scalar = ground arith;
  },
  (
    record {
      key_scalar = ground arith;
      key_ne_nil = ground arith;
      key_no_equals = ground arith;
      key_no_semicolon = ground arith;
      key_no_space = ground arith;
      value_scalar = ground arith;
    },
    tt,
  ),
)

tags-Distinct : Distinct tags
tags-Distinct = ground arith

bot-IsSource : IsSource bot
bot-IsSource = record {
  nick_text = ground arith;
  user_text = ground arith;
  nick_no_bang = ground arith;
  nick_no_at = ground arith;
  user_no_at = ground arith;
  host_ne_nil = ground arith;
  host_fits = tt;
}

bot-SourceLacks_space : SourceLacks b' ' bot
bot-SourceLacks_space = record {
  in_nick = ground arith;
  in_user = ground arith;
  in_host = ground arith;
}

bot-SourceLacks_return : SourceLacks b'\r' bot
bot-SourceLacks_return = record {
  in_nick = ground arith;
  in_user = ground arith;
  in_host = ground arith;
}

privmsg-IsCommand : IsCommand privmsg
unfolding is_ascii_alphabetic all
privmsg-IsCommand = ground arith

greeting-IsMessage : IsMessage greeting
greeting-IsMessage = record {
  are_tags = tags-IsTag;
  distinct_tags = tags-Distinct;
  is_source = (bot-IsSource, bot-SourceLacks_space);
  is_command = privmsg-IsCommand;
  are_params = ground arith;
}

greeting-MessageLacks : MessageLacks b'\r' greeting
greeting-MessageLacks = record {
  in_keys = ground arith;
  in_source = bot-SourceLacks_return;
  in_params = ground arith;
}

welcome-IsLine : IsLine welcome
welcome-IsLine = (
  record {
    are_tags = tt;
    distinct_tags = tt;
    is_source = tt;
    is_command = ground arith;
    are_params = tt;
  },
  record { in_keys = tt; in_source = tt; in_params = tt },
)

read_message-write_message_example :
    (w : Bytes) × (write_message greeting ≡ ok w) × (read_message w ≡ ok greeting)
read_message-write_message_example = read_message-write_message greeting greeting-IsMessage

decode-encode_all_example :
    (w : Bytes) × (encode_all (greeting ∷ welcome ∷ []) [] ≡ ok w)
    × Decodes (greeting ∷ welcome ∷ []) (w ++ b'P' ∷ []) (b'P' ∷ [])
decode-encode_all_example =
    decode-encode_all (greeting ∷ welcome ∷ []) [] (b'P' ∷ [])
      ((greeting-IsMessage, greeting-MessageLacks), (welcome-IsLine, tt))

decode_buffer_total_example : Settled (decode_buffer (b'\r' ∷ b'\n' ∷ b'P' ∷ []))
decode_buffer_total_example = decode_buffer_total (b'\r' ∷ b'\n' ∷ b'P' ∷ [])

welcome_written : write_message welcome ≡ ok (b'0' ∷ b'0' ∷ b'1' ∷ b' ' ∷ [])
unfolding write_message write_command
welcome_written = refl

write_message-Lacks_example : Lacks b'\r' (b'0' ∷ b'0' ∷ b'1' ∷ b' ' ∷ [])
write_message-Lacks_example =
    write_message-Lacks b'\r' (inl refl) welcome welcome-IsLine.0 welcome-IsLine.1 welcome_written
