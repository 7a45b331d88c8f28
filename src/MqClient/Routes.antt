-- ===== src/MqClient/Routes.antt =====
-- crates/mq/src/lib.rs: the way of a message from `send_message` to the queues of its source.
use minibot_rust.Base.{
  ℕ, ◌^◌, ◌≡◌, sym, ap, subst, ◌∙◌, List, [], ◌∷◌, ◌++◌, append_assoc, codes, Option, inl, inr,
  Bytes, take, drop, Outcome, ok, err, ltb, Bool-cases,
}
use minibot_rust.MqClient.{
  Text, user, to_routing_key, QueueId, queue_name, primary_exchange, Call, create_channel,
  exchange_bind, queue_bind, basic_publish, publisher_confirm, Queue, create_queue, send_message,
  fanout_name,
}
use minibot_rust.MqClient.Calls.{
  Runs, create_queue-Runs, send_message-Runs, fanout_plan, queue_plan, queue_of,
}

-- The log has the call.
abbrev pub Made : Call → List Call → Type 0
Made c calls = (before : List Call) × (behind : List Call) × (calls ≡ before ++ c ∷ behind)

Made-nth : (calls before behind : List Call) (c : Call) → Made c (calls ++ (before ++ c ∷ behind))
Made-nth calls before behind c =
    (calls ++ before, behind, sym (append_assoc calls before (c ∷ behind)))

module _ {E : Type 0} (answer : List Call → Option E) where
  -- An operation that gives a value has made all its calls.
  Runs-ok :
      {A : Type 0} (m : List Call → Outcome E A × List Call) (plan : List Call) (o : Outcome E A)
      (a : A) (calls calls' : List Call)
      → Runs answer m plan o
      → m calls ≡ (ok a, calls')
      → (o ≡ ok a) × (calls' ≡ calls ++ plan)
  Runs-ok m plan o a calls calls' runs h = elim (runs calls) [
    | inl (granted, ends) ↦
        (sym (ap (λ r. r.0) ends) ∙ ap (λ r. r.0) h, sym (ap (λ r. r.1) h) ∙ ap (λ r. r.1) ends)
    | inr (made, c, rest, e, split, granted, refused, ends) ↦
        let clash : err e ≡ ok a = sym (ap (λ r. r.0) ends) ∙ ap (λ r. r.0) h in absurd cc
  ]

  -- A queue that `create_queue` gives for a user has the name recv_queue: and its id, and is bound to
  -- the exchange fanout_excg:irc: and the user's name, which is bound to the primary exchange under
  -- the key irc: and the name. When `send_message` for the same user is done, it has published the
  -- message on the primary exchange under that key, and has made no other call but to open a channel
  -- before, and to wait for the confirmation of the package behind.
  pub create_queue-send_message :
      (username : Text) (millis : ℕ) (id : QueueId) (queue : Queue) (msg : Bytes)
      (calls calls' later later' : List Call)
      → create_queue answer (user username) millis id calls ≡ (ok queue, calls')
      → send_message answer (user username) msg later ≡ (ok tt, later')
      → let fanout_exchange = codes "fanout_excg:irc:" ++ username in
        let key = codes "irc:" ++ username in
        let name = codes "recv_queue:" ++ id in
        (queue ≡ record { id = id; consumer = name })
        × Made (exchange_bind fanout_exchange (codes "primary_exchange") key) calls'
        × Made (queue_bind name fanout_exchange []) calls'
        × (later'
            ≡ later
              ++ (create_channel
                  ∷ basic_publish (codes "primary_exchange") key msg
                  ∷ publisher_confirm
                  ∷ []))
  unfolding to_routing_key queue_name
  create_queue-send_message username millis id queue msg calls calls' later later' h k =
      let source = user username in
      elim (Bool-cases (ltb millis (2 ^ 63))) [
        | inl fits ↦
            let always = create_queue-Runs answer source millis id in
            let runs = rw fits at always in
            let made =
              Runs-ok (create_queue answer source millis id) _ _ queue calls calls' runs h in
            let same : queue ≡ queue_of id = cc in
            let plan = fanout_plan source ++ queue_plan source millis id in
            (
              same,
              subst
                  (Made
                    (exchange_bind (fanout_name source) primary_exchange (to_routing_key source)))
                  (sym made.1) (Made-nth calls (take 2 plan) (drop 3 plan) _),
              subst (Made (queue_bind (queue_name id) (fanout_name source) [])) (sym made.1)
                  (Made-nth calls (take 4 plan) (drop 5 plan) _),
              (Runs-ok (send_message answer source msg) _ _ tt later later'
                  (send_message-Runs answer source msg) k).1,
            )
        | inr beyond ↦
            let always = create_queue-Runs answer source millis id in
            let runs = rw beyond at always in
            let made =
              Runs-ok (create_queue answer source millis id) _ _ queue calls calls' runs h in
            absurd cc
      ]
