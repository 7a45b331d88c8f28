-- ===== src/Mq.antt =====
-- crates/server/src/services/fake/mq.rs with util/id.rs and util/future/opt_cell.rs: the message
-- broker in memory. None is a panic. A subscription has a task of its own, whose moves are steps;
-- a channel is the list of what it holds, and a sender that finds it full comes later.
pub mod Delivery
pub mod Topics
pub mod Publish
mod Tests
use minibot_rust.Base.{
  ℕ, ◌+◌, ◌-◌, ◌^◌, Bool, true, false, List, [], ◌∷◌, ◌++◌, Option, none, some, ◌==◌, if◌then◌else◌,
  eq_bytes, Bytes,
}

abbrev pub bind {ℓ κ} : {A : Type ℓ} {B : Type κ} → Option A → (A → Option B) → Option B
bind none f = none
bind (some a) f = f a

pub record IdGen : Type 0 where
  pub next_id : ℕ
  pub free_list : List ℕ

pub new_id_gen : IdGen
new_id_gen = record { next_id = 0; free_list = [] }

-- `gen_id`: the last id of the free list stands first here.
unfoldable pub gen_id : IdGen → Option (ℕ × IdGen)
gen_id g = elim g.free_list [
  | id ∷ rest ↦ some (id, record g { free_list = rest })
  | [] ↦
      if g.next_id == 2 ^ 64 - 1
      then none
      else some (g.next_id, record g { next_id = g.next_id + 1 })
]

-- A topic, the messages in the channel to the task and the one that the task holds, the listener
-- in the cell, and those that the replacer has for it. A task that ended has dropped its ends.
pub record SubscriptionState : Type 0 where
  pub topic : List ℕ
  pub queue : List Bytes
  pub holding : Option Bytes
  pub output : Option ℕ
  pub offered : List ℕ
  pub ended : Bool

unfoldable pub new_subscription : List ℕ → SubscriptionState
new_subscription topic = record {
  topic = topic;
  queue = [];
  holding = none;
  output = none;
  offered = [];
  ended = false;
}

-- `SubscriptionState::publish`, with the `unwrap` of its caller.
unfoldable pub publish : Bytes → SubscriptionState → Option SubscriptionState
publish body s = if s.ended then none else some (record s { queue = s.queue ++ body ∷ [] })

unfoldable pub replace : ℕ → SubscriptionState → Option SubscriptionState
replace listener s =
    if s.ended then none else some (record s { offered = s.offered ++ listener ∷ [] })

-- One move of the task, with the delivery that it makes: it takes a message, fills the cell, or
-- sends; a listener that is closed is dropped from the cell and the message is kept.
unfoldable pub task_step : (ℕ → Bool) → SubscriptionState → SubscriptionState × List (ℕ × Bytes)
task_step is_open s = if s.ended then (s, []) else elim s.holding [
  | none ↦ elim s.queue [
    | [] ↦ (s, [])
    | m ∷ rest ↦ (record s { queue = rest; holding = some m }, [])
  ]
  | some m ↦ elim s.output [
    | none ↦ elim s.offered [
      | [] ↦ (s, [])
      | l ∷ rest ↦ (record s { output = some l; offered = rest }, [])
    ]
    | some l ↦
        if is_open l
        then (record s { holding = none }, (l, m) ∷ [])
        else (record s { output = none }, [])
  ]
]

-- The wait for a listener runs out: the task returns.
unfoldable pub time_out : SubscriptionState → SubscriptionState
time_out s = elim s.holding [
  | none ↦ s
  | some m ↦ elim s.output [
    | some l ↦ s
    | none ↦ elim s.offered [
      | l ∷ rest ↦ s
      | [] ↦ record s { queue = []; holding = none; ended = true }
    ]
  ]
]

abbrev pub Subscriptions : Type 0
Subscriptions = List (ℕ × SubscriptionState)

abbrev pub Topics : Type 0
Topics = List (List ℕ × List ℕ)

pub record BrokerState : Type 0 where
  pub topics : Topics
  pub subscriptions : Subscriptions
  pub sub_id_gen : IdGen

pub new : BrokerState
new = record {
  topics = [];
  subscriptions = [];
  sub_id_gen = record { next_id = 0; free_list = [] };
}

unfoldable pub find : ℕ → Subscriptions → Option SubscriptionState
find id [] = none
find id ((i, s) ∷ rest) = if i == id then some s else find id rest

unfoldable pub store : ℕ → SubscriptionState → Subscriptions → Subscriptions
store id s [] = (id, s) ∷ []
store id s ((i, was) ∷ rest) = if i == id then (i, s) ∷ rest else (i, was) ∷ store id s rest

-- The subscribers of a topic; a new id is greater than the others, so it comes last in the set.
unfoldable pub subscribers : List ℕ → Topics → List ℕ
subscribers channel [] = []
subscribers channel ((t, ids) ∷ rest) = if eq_bytes t channel then ids else subscribers channel rest

unfoldable pub subscribe : List ℕ → ℕ → Topics → Topics
subscribe channel id [] = (channel, id ∷ []) ∷ []
subscribe channel id ((t, ids) ∷ rest) =
    if eq_bytes t channel then (t, ids ++ id ∷ []) ∷ rest else (t, ids) ∷ subscribe channel id rest

unfoldable pub add_subscriber : List ℕ → ℕ → BrokerState → Option (ℕ × BrokerState)
add_subscriber channel listener b = bind (gen_id b.sub_id_gen) (λ new_id.
    bind (replace listener (new_subscription channel)) (λ s. some (
      new_id.0,
      record {
        topics = subscribe channel new_id.0 b.topics;
        subscriptions = store new_id.0 s b.subscriptions;
        sub_id_gen = new_id.1;
      },
    )))

-- The loop over the subscribers.
unfoldable pub publish_all : List ℕ → Bytes → Subscriptions → Option Subscriptions
publish_all [] body subs = some subs
publish_all (id ∷ ids) body subs =
    bind (find id subs) (λ s. bind (publish body s) (λ s'. publish_all ids body (store id s' subs)))

unfoldable pub publish_message : List ℕ → Bytes → BrokerState → Option BrokerState
publish_message channel body b =
    bind (publish_all (subscribers channel b.topics) body b.subscriptions)
      (λ subs. some (record b { subscriptions = subs }))
