-- ===== src/Mq/Tests.antt =====
-- Concrete runs of the message broker in memory.
use minibot_rust.Base.{
  ℕ, true, false, List, [], ◌∷◌, ◌++◌, some, none, if◌then◌else◌, eq_bytes, Bytes, ◌≡◌, refl, arith,
}
use minibot_rust.Mq.{
  SubscriptionState, Subscriptions, BrokerState, publish, task_step, find, subscribers,
  publish_message,
}
use minibot_rust.Mq.Delivery.{Run, stay, message, move, on_way, Run-in_order}
use minibot_rust.Mq.Topics.{IsBroker, Running, with_message}
use minibot_rust.Mq.Publish.{publish_message-exact}

abbrev chat : List ℕ
chat = b'c' ∷ []

abbrev hello : Bytes
hello = b'h' ∷ []

abbrev quiet : SubscriptionState
quiet = record {
  topic = chat;
  queue = [];
  holding = none;
  output = none;
  offered = 7 ∷ [];
  ended = false;
}

abbrev told : SubscriptionState
told = record quiet { queue = hello ∷ [] }

abbrev held : SubscriptionState
held = record quiet { holding = some hello }

abbrev ready : SubscriptionState
ready = record held { output = some 7; offered = [] }

abbrev served : SubscriptionState
served = record ready { holding = none }

run : Run quiet (hello ∷ []) served ((7, hello) ∷ [])
unfolding publish task_step
run = message {next = told} refl (move (λ _. true) (move (λ _. true) (move (λ _. true) stay)))

Run-in_order_example : hello ∷ [] ++ on_way served ≡ on_way quiet ++ hello ∷ []
Run-in_order_example = Run-in_order run

abbrev one : BrokerState
one = record {
  topics = (chat, 0 ∷ []) ∷ [];
  subscriptions = (0, quiet) ∷ [];
  sub_id_gen = record { next_id = 1; free_list = [] };
}

one-IsBroker : IsBroker one
unfolding find subscribers
one-IsBroker = record {
  listed = λ channel id. ground arith;
  below = λ id h. ground arith;
  none_free = refl;
}

one-Running : Running (subscribers chat one.topics) one.subscriptions
unfolding find subscribers eq_bytes
one-Running = ((quiet, refl, refl), tt)

publish_message-exact_example :
    (subs : Subscriptions) × (publish_message chat hello one
      ≡ some (record one { subscriptions = subs }))
    × ((id : ℕ)
        → find id subs ≡ elim (find id one.subscriptions) [
          | none ↦ none
          | some s ↦ some (if eq_bytes s.topic chat then with_message hello s else s)
        ])
publish_message-exact_example = publish_message-exact chat hello one one-IsBroker one-Running

abbrev gone : SubscriptionState
gone = record quiet { offered = []; ended = true }

abbrev stuck : BrokerState
stuck = record one { subscriptions = (0, gone) ∷ [] }

stuck-IsBroker : IsBroker stuck
unfolding find subscribers
stuck-IsBroker = record {
  listed = λ channel id. ground arith;
  below = λ id h. ground arith;
  none_free = refl;
}
