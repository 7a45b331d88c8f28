-- ===== src/Mq/Publish.antt =====
-- crates/server/src/services/fake/mq.rs: `publish_message`.
use minibot_rust.Base.{
  ℕ, ◌<◌, ◌≤◌, Bool, true, false, List, [], ◌∷◌, Option, none, some, ◌==◌, if◌then◌else◌, eq_bytes,
  Bytes, ltb, Option-cases, Bool-cases, ==_iff, subst, ◌≡◌, refl, ap, arith, inl, inr,
}
use minibot_rust.Mq.{
  bind, SubscriptionState, publish, Subscriptions, BrokerState, find, store, subscribers,
  publish_all, publish_message,
}
use minibot_rust.Mq.Topics.{count, IsBroker, find-store, with_message, Running}

Running-store :
    (ids : List ℕ) (id : ℕ) (s : SubscriptionState) (subs : Subscriptions)
    → count id ids ≡ 0
    → Running ids subs
    → Running ids (store id s subs)
Running-store [] id s subs h r = tt
Running-store (i ∷ ids) id s subs h ((t, at, runs), r) = (
  (t, ground (arith, at, h, find-store id i s subs), runs),
  Running-store ids id s subs (ground (arith, h)) r,
)

abbrev with_message_if : Bool → Bytes → Option SubscriptionState → Option SubscriptionState
with_message_if b body none = none
with_message_if b body (some s) = some (if b then with_message body s else s)

publish-runs :
    (body : Bytes) (s : SubscriptionState)
    → s.ended ≡ false
    → publish body s ≡ some (with_message body s)
unfolding publish
publish-runs body s h = ground (arith, h)

untouched : (body : Bytes) (o : Option SubscriptionState) → o ≡ with_message_if false body o
untouched body none = refl
untouched body (some s) = refl

publish_all-each :
    (ids : List ℕ) (body : Bytes) (subs : Subscriptions)
    → ((id : ℕ) → count id ids ≤ 1)
    → Running ids subs
    → (next : Subscriptions) × (publish_all ids body subs ≡ some next)
      × ((id : ℕ) → find id next ≡ with_message_if (ltb 0 (count id ids)) body (find id subs))
unfolding publish_all
publish_all-each [] body subs once r = (subs, refl, λ id. untouched body (find id subs))
publish_all-each (i ∷ ids) body subs once ((s, at, runs), r) =
    let first = store i (with_message body s) subs in
    let alone : count i ids ≡ 0 = ground (arith, once i) in
    let (next, published, each) =
      publish_all-each ids body first (λ id. ground (arith, once id))
        (Running-store ids i (with_message body s) subs alone r) in
    (
      next,
      rw (at, bind, publish-runs body s runs) published,
      λ id. elim (Bool-cases (i == id)) [
        | inl same ↦
            subst
              (λ j. find j next ≡ with_message_if (ltb 0 (count j (i ∷ ids))) body (find j subs))
              ((==_iff i id).0 same)
              (ground (arith, each i, find-store i i (with_message body s) subs, alone, at))
        | inr other ↦ ground (arith, each id, find-store i id (with_message body s) subs, other)
      ],
    )

-- Where the topics and the subscriptions fit together and the tasks of all subscribers of a topic
-- run, a message on the topic is published without a panic: it is put behind the messages of each
-- subscription to the topic, and all else stays as it is.
pub publish_message-exact :
    (channel : List ℕ) (body : Bytes) (b : BrokerState)
    → IsBroker b
    → Running (subscribers channel b.topics) b.subscriptions
    → (subs : Subscriptions) × (publish_message channel body b
        ≡ some (record b { subscriptions = subs }))
      × ((id : ℕ)
          → find id subs ≡ elim (find id b.subscriptions) [
            | none ↦ none
            | some s ↦ some (if eq_bytes s.topic channel then with_message body s else s)
          ])
unfolding publish_message
publish_message-exact channel body b h r =
    let (subs, published, each) =
      publish_all-each (subscribers channel b.topics) body b.subscriptions
        (λ id. ground (arith, h.listed channel id)) r in
    (subs, rw published refl, λ id. ground (arith, each id, h.listed channel id))

publish_all-ended :
    (ids : List ℕ) (body : Bytes) (subs : Subscriptions) (id : ℕ) (s : SubscriptionState)
    → 0 < count id ids
    → find id subs ≡ some s
    → s.ended ≡ true
    → publish_all ids body subs ≡ none
unfolding publish_all publish
publish_all-ended [] body subs id s h at over = absurd (omega arith)
publish_all-ended (i ∷ ids) body subs id s h at over = elim (Option-cases (find i subs)) [
  | inl missing ↦ rw missing refl
  | inr (t, there) ↦
      let later = publish_all-ended ids body (store i (with_message body t) subs) id s in
      let moved = find-store i id (with_message body t) subs in
      let same : i ≡ id → find i subs ≡ find id subs = λ e. ap (λ j. find j subs) e in
      elim (Bool-cases t.ended) [
        | inl stopped ↦ ground (arith, there, stopped)
        | inr runs ↦ ground (arith, there, runs, h, at, over, later, moved, same)
      ]
]

-- Where the topics and the subscriptions fit together and the task of one subscription to a topic
-- has ended, a message on the topic panics the broker.
pub publish_message-panics :
    (channel : List ℕ) (body : Bytes) (b : BrokerState) (id : ℕ) (s : SubscriptionState)
    → IsBroker b
    → find id b.subscriptions ≡ some s
    → eq_bytes s.topic channel ≡ true
    → s.ended ≡ true
    → publish_message channel body b ≡ none
unfolding publish_message
publish_message-panics channel body b id s h at here over =
    let dead =
      publish_all-ended (subscribers channel b.topics) body b.subscriptions id s
        (ground (arith, h.listed channel id, at, here)) at over in
    rw dead refl
