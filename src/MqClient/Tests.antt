-- ===== src/MqClient/Tests.antt =====
-- Concrete runs of the client of the message queue.
use minibot_rust.Base.{
  ℕ, ◌^◌, ◌≡◌, refl, List, [], ◌∷◌, ◌++◌, Option, none, some, ok, err, panic, codes, length, take,
  ◌==◌, if◌then◌else◌,
}
use minibot_rust.Pipe.{left, right}
use minibot_rust.MqClient.{
  Text, MessageSource, user, Call, create_channel, exchange_bind, queue_bind, basic_publish,
  publisher_confirm, primary_exchange, create_queue, send_message, into_stream,
}
use minibot_rust.MqClient.Calls.{Runs, create_queue-Runs, fanout_plan, queue_plan, queue_of}
use minibot_rust.MqClient.Routes.{Made, create_queue-send_message}

-- A server that grants everything, and one that refuses the fifth call.
abbrev grants : List Call → Option ℕ
grants calls = none

abbrev refuses_fifth : List Call → Option ℕ
refuses_fifth calls = if length calls == 5 then some 404 else none

abbrev ada : MessageSource
ada = user (codes "ada")

abbrev id : Text
id = codes "1-2"

abbrev all_calls : List Call
all_calls = fanout_plan ada ++ queue_plan ada 60000 id

create_queue-Runs_example :
    Runs refuses_fifth (create_queue refuses_fifth ada 60000 id) all_calls (ok (queue_of id))
create_queue-Runs_example = create_queue-Runs refuses_fifth ada 60000 id

granted_run : create_queue grants ada 60000 id [] ≡ (ok (queue_of id), all_calls)
unfolding create_queue
granted_run = refl

refused_run :
    create_queue refuses_fifth ada 60000 id []
    ≡ (err 404, fanout_plan ada ++ take 2 (queue_plan ada 60000 id))
unfolding create_queue
refused_run = refl

panic_run : create_queue grants ada (2 ^ 63) id [] ≡ (panic, fanout_plan ada)
unfolding create_queue
panic_run = refl

sent_run : send_message grants ada (7 ∷ []) [] ≡ (
  ok tt,
  create_channel
      ∷ basic_publish primary_exchange (codes "irc:ada") (7 ∷ [])
      ∷ publisher_confirm
      ∷ [],
)
unfolding send_message
sent_run = refl

create_queue-send_message_example :
    (queue_of id ≡ record { id = id; consumer = codes "recv_queue:1-2" })
    × Made
        (exchange_bind (codes "fanout_excg:irc:ada") primary_exchange (codes "irc:ada"))
        all_calls
    × Made (queue_bind (codes "recv_queue:1-2") (codes "fanout_excg:irc:ada") []) all_calls
    × ((create_channel
          ∷ basic_publish primary_exchange (codes "irc:ada") (7 ∷ [])
          ∷ publisher_confirm
          ∷ [])
        ≡ create_channel
          ∷ basic_publish primary_exchange (codes "irc:ada") (7 ∷ [])
          ∷ publisher_confirm
          ∷ [])
create_queue-send_message_example =
    create_queue-send_message grants (codes "ada") 60000 id (queue_of id) (7 ∷ []) [] all_calls []
      (create_channel
        ∷ basic_publish primary_exchange (codes "irc:ada") (7 ∷ [])
        ∷ publisher_confirm
        ∷ [])
      granted_run sent_run

-- A delivery that is an error is neither acknowledged nor handed over.
stream_run :
    into_stream {E = ℕ} (left (1, 7 ∷ []) ∷ right 404 ∷ left (2, 8 ∷ []) ∷ [])
    ≡ (1 ∷ 2 ∷ [], (7 ∷ []) ∷ (8 ∷ []) ∷ [])
unfolding into_stream
stream_run = refl
