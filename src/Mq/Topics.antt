-- ===== src/Mq/Topics.antt =====
-- crates/server/src/services/fake/mq.rs: topics, subscriptions and `add_subscriber`.
use minibot_rust.Base.{
  ℕ, ◌+◌, ◌-◌, ◌^◌, ◌<◌, ◌≤◌, false, ◌&&◌, List, [], ◌∷◌, ◌++◌, Option, none, some, ◌==◌,
  if◌then◌else◌, eq_bytes, eq_bytes_iff, Bytes, ◌≡◌, refl, arith,
}
use minibot_rust.Mq.{
  IdGen, gen_id, SubscriptionState, new_subscription, replace, Subscriptions, Topics, BrokerState,
  new, find, store, subscribers, subscribe, add_subscriber,
}

abbrev pub count : ℕ → List ℕ → ℕ
count id [] = 0
count id (i ∷ ids) = if i == id then 1 + count id ids else count id ids

-- Whether an id has a subscription to a topic, as a number.
abbrev pub subscribed : List ℕ → Option SubscriptionState → ℕ
subscribed channel none = 0
subscribed channel (some s) = if eq_bytes s.topic channel then 1 else 0

-- The sets of the topics hold the subscriptions to them, each once; ids are below the next one.
pub record IsBroker (b : BrokerState) : Type 0 where
  pub listed :
      (channel : List ℕ) (id : ℕ)
      → count id (subscribers channel b.topics) ≡ subscribed channel (find id b.subscriptions)
  pub below : (id : ℕ) → b.sub_id_gen.next_id ≤ id → find id b.subscriptions ≡ none
  pub none_free : b.sub_id_gen.free_list ≡ []

pub find-store :
    (id asked : ℕ) (s : SubscriptionState) (subs : Subscriptions)
    → find asked (store id s subs) ≡ (if id == asked then some s else find asked subs)
unfolding find store
find-store id asked s [] = refl
find-store id asked s (entry ∷ subs) = ground (arith, find-store id asked s subs)

pub count-append : (id : ℕ) (xs ys : List ℕ) → count id (xs ++ ys) ≡ count id xs + count id ys
count-append id [] ys = omega arith
count-append id (x ∷ xs) ys = ground (arith, count-append id xs ys)

pub count-subscribe :
    (channel asked : List ℕ) (new_id id : ℕ) (topics : Topics)
    → count id (subscribers asked (subscribe channel new_id topics))
      ≡ count id (subscribers asked topics)
        + (if eq_bytes channel asked && new_id == id then 1 else 0)
unfolding subscribers subscribe
count-subscribe channel asked new_id id [] = ground arith
count-subscribe channel asked new_id id ((t, ids) ∷ topics) =
    let rest = count-subscribe channel asked new_id id topics in
    ground (
      arith,
      rest,
      count-append id ids (new_id ∷ []),
      eq_bytes_iff t channel,
      eq_bytes_iff t asked,
      eq_bytes_iff channel asked,
    )

-- A message that was published to a subscription.
abbrev pub with_message : Bytes → SubscriptionState → SubscriptionState
with_message body s = record s { queue = s.queue ++ body ∷ [] }

-- The ids have subscriptions whose tasks run.
abbrev pub Running : List ℕ → Subscriptions → Type 0
Running [] subs = Unit
Running (id ∷ ids) subs =
    ((s : SubscriptionState) × (find id subs ≡ some s) × (s.ended ≡ false)) × Running ids subs

pub new-IsBroker : IsBroker new
unfolding new subscribers find
new-IsBroker = record { listed = λ channel id. refl; below = λ id h. refl; none_free = refl }

pub gen_id-next :
    (g : IdGen)
    → g.free_list ≡ []
    → g.next_id < 2 ^ 64 - 1
    → gen_id g ≡ some (g.next_id, record g { next_id = g.next_id + 1 })
unfolding gen_id
gen_id-next g h m = let more : (g.next_id == 2 ^ 64 - 1) ≡ false = ground arith in rw (h, more) refl

pub add-free :
    (channel : List ℕ) (listener : ℕ) (b : BrokerState)
    → b.sub_id_gen.free_list ≡ []
    → b.sub_id_gen.next_id < 2 ^ 64 - 1
    → add_subscriber channel listener b
      ≡ some (
        b.sub_id_gen.next_id,
        record {
          topics = subscribe channel b.sub_id_gen.next_id b.topics;
          subscriptions =
              store b.sub_id_gen.next_id
                (record (new_subscription channel) { offered = listener ∷ [] })
                b.subscriptions;
          sub_id_gen = record b.sub_id_gen { next_id = b.sub_id_gen.next_id + 1 };
        },
      )
unfolding add_subscriber replace new_subscription
add-free channel listener b h m = rw (gen_id-next b.sub_id_gen h m) refl

-- Where the topics and the subscriptions fit together and there are ids left, a new subscriber gets
-- the next id, which no subscription has, without a panic; it has a subscription to the topic then,
-- and topics and subscriptions fit together again.
pub add_subscriber-IsBroker :
    (channel : List ℕ) (listener : ℕ) (b : BrokerState)
    → IsBroker b
    → b.sub_id_gen.next_id < 2 ^ 64 - 1
    → (next : BrokerState) × (add_subscriber channel listener b ≡ some (b.sub_id_gen.next_id, next))
      × IsBroker next
      × (find b.sub_id_gen.next_id b.subscriptions ≡ none)
      × (subscribed channel (find b.sub_id_gen.next_id next.subscriptions) ≡ 1)
unfolding new_subscription
add_subscriber-IsBroker channel listener b h m =
    let id = b.sub_id_gen.next_id in
    let s = record (new_subscription channel) { offered = listener ∷ [] } in
    (
      _,
      add-free channel listener b h.none_free m,
      record {
        listed = λ asked i. ground (
          arith,
          h.listed asked i,
          h.below i,
          count-subscribe channel asked id i b.topics,
          find-store id i s b.subscriptions,
        );
        below = λ i le. ground (arith, h.below i, find-store id i s b.subscriptions);
        none_free = h.none_free;
      },
      h.below id (omega arith),
      ground (arith, find-store id id s b.subscriptions, eq_bytes_iff channel channel),
    )
