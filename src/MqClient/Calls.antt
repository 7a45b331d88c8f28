-- ===== src/MqClient/Calls.antt =====
-- crates/mq/src/lib.rs: which calls the operations make, and how they end when one is refused.
use minibot_rust.Base.{
  ℕ, ◌^◌, ◌≡◌, refl, sym, ap, subst, ◌∙◌, true, false, List, [], ◌∷◌, ◌++◌, append-nil,
  append_assoc, Option, none, some, ◌⊎◌, inl, inr, Bytes, Outcome, ok, err, panic, ltb,
  if◌then◌else◌, Option-cases, Bool-cases,
}
use minibot_rust.MqClient.{
  MessageSource, to_routing_key, QueueId, queue_name, primary_exchange, fanout, Call,
  create_channel, exchange_declare, exchange_bind, queue_declare, queue_bind, basic_consume,
  basic_publish, publisher_confirm, Queue, M, ◌>>=◌, ◌>>◌, pure, request, expiry, fanout_name,
  create_queue, open_queue, send_message,
}

-- What `create_queue` asks for: a queue of its own behind the fanout of the source. A time that an
-- `i64` does not hold is a panic behind the calls for the fanout.
abbrev pub fanout_plan : MessageSource → List Call
fanout_plan source =
    create_channel
    ∷ exchange_declare (fanout_name source) fanout true false
    ∷ exchange_bind (fanout_name source) primary_exchange (to_routing_key source)
    ∷ []

abbrev pub queue_plan : MessageSource → ℕ → QueueId → List Call
queue_plan source millis id =
    queue_declare (queue_name id) millis
    ∷ queue_bind (queue_name id) (fanout_name source) []
    ∷ basic_consume (queue_name id)
    ∷ []

abbrev pub queue_of : QueueId → Queue
queue_of id = record { id = id; consumer = queue_name id }

module _ {E : Type 0} (answer : List Call → Option E) where
  -- The server grants every call of a list, behind the calls so far.
  abbrev pub Granted : List Call → List Call → Type 0
  Granted [] calls = Unit
  Granted (c ∷ plan) calls = (answer (calls ++ c ∷ []) ≡ none) × Granted plan (calls ++ c ∷ [])

  -- Every call is granted, all of them are made, and then the operation ends with `o`.
  abbrev pub Finishes : {A : Type 0} → M E A → List Call → Outcome E A → List Call → Type 0
  Finishes m plan o calls = Granted plan calls × (m calls ≡ (o, calls ++ plan))

  -- The calls are granted up to one that is refused with an error. The operation ends with that error
  -- and makes no other call.
  abbrev pub Stops : {A : Type 0} → M E A → List Call → List Call → Type 0
  Stops m plan calls =
      (made : List Call) × (c : Call) × (rest : List Call) × (e : E) × (plan ≡ made ++ c ∷ rest)
      × Granted made calls
      × (answer (calls ++ (made ++ c ∷ [])) ≡ some e)
      × (m calls ≡ (err e, calls ++ (made ++ c ∷ [])))

  abbrev pub Runs : {A : Type 0} → M E A → List Call → Outcome E A → Type 0
  Runs m plan o = (calls : List Call) → Finishes m plan o calls ⊎ Stops m plan calls

  pub done-Runs :
      {A : Type 0} (m : M E A) (o : Outcome E A)
      → ((calls : List Call) → m calls ≡ (o, calls))
      → Runs m [] o
  done-Runs m o h calls = inl (tt, h calls ∙ ap (λ cs. (o, cs)) (sym (append-nil calls)))

  last-Runs : (c : Call) → Runs (request answer c) (c ∷ []) (ok tt)
  unfolding request
  last-Runs c calls = elim (Option-cases (answer (calls ++ c ∷ []))) [
    | inl granted ↦ inl ((granted, tt), rw (granted, request) refl)
    | inr (e, refused) ↦ inr ([], c, [], e, refl, tt, refused, rw (refused, request) refl)
  ]

  pub request-Runs :
      {A : Type 0} (c : Call) (m : M E A) (plan : List Call) (o : Outcome E A)
      → Runs m plan o
      → Runs (request answer c >> m) (c ∷ plan) o
  unfolding request
  request-Runs c m plan o runs calls = elim (Option-cases (answer (calls ++ c ∷ []))) [
    | inr (e, refused) ↦ inr ([], c, plan, e, refl, tt, refused, rw (refused, request) refl)
    | inl granted ↦ elim (runs (calls ++ c ∷ [])) [
      | inl (rest, ends) ↦
          inl ((granted, rest), rw (granted, request, ends, append_assoc calls (c ∷ []) plan) refl)
      | inr (made, d, rest, e, split, before, refused, ends) ↦
          let order = append_assoc calls (c ∷ []) (made ++ d ∷ []) in
          inr (
            c ∷ made,
            d,
            rest,
            e,
            ap (λ cs. c ∷ cs) split,
            (granted, before),
            subst (λ cs. answer cs ≡ some e) order refused,
            rw (granted, request, ends, order) refl,
          )
    ]
  ]

  abbrev fanout_steps : {A : Type 0} → MessageSource → M E A → M E A
  fanout_steps source m = do
    request answer create_channel
    request answer (exchange_declare (fanout_name source) fanout true false)
    request answer (exchange_bind (fanout_name source) primary_exchange (to_routing_key source))
    m

  fanout_steps-Runs :
      {A : Type 0} (source : MessageSource) (m : M E A) (plan : List Call) (o : Outcome E A)
      → Runs m plan o
      → Runs (fanout_steps source m) (fanout_plan source ++ plan) o
  fanout_steps-Runs source m plan o runs = request-Runs create_channel _ _ o (
      request-Runs (exchange_declare (fanout_name source) fanout true false) _ _ o (
        request-Runs (exchange_bind (fanout_name source) primary_exchange (to_routing_key source)) m
          plan o runs))

  abbrev queue_steps : MessageSource → QueueId → ℕ → M E Queue
  queue_steps source id expires = do
    request answer (queue_declare (queue_name id) expires)
    request answer (queue_bind (queue_name id) (fanout_name source) [])
    request answer (basic_consume (queue_name id))
    pure (queue_of id)

  queue_steps-Runs :
      (source : MessageSource) (id : QueueId) (expires : ℕ)
      → Runs (queue_steps source id expires) (queue_plan source expires id) (ok (queue_of id))
  queue_steps-Runs source id expires = request-Runs (queue_declare (queue_name id) expires) _ _ _ (
      request-Runs (queue_bind (queue_name id) (fanout_name source) []) _ _ _ (
        request-Runs (basic_consume (queue_name id)) _ _ _
          (done-Runs (pure (queue_of id)) _ (λ calls. refl))))

  expiry-Runs :
      (source : MessageSource) (millis : ℕ) (id : QueueId)
      → Runs
          (expiry millis >>= queue_steps source id)
          (if ltb millis (2 ^ 63) then queue_plan source millis id else [])
          (if ltb millis (2 ^ 63) then ok (queue_of id) else panic)
  unfolding expiry
  expiry-Runs source millis id = elim (Bool-cases (ltb millis (2 ^ 63))) [
    | inl fits ↦ rw fits (queue_steps-Runs source id millis)
    | inr beyond ↦ rw beyond (done-Runs (λ calls. (panic, calls)) panic (λ calls. refl))
  ]

  -- `create_queue` makes the calls for the fanout of the source and, when the time fits into an `i64`,
  -- those for the queue, and gives the queue; with a time that does not fit it panics behind the calls
  -- for the fanout. The first call that is refused ends it with the error of the server, and no
  -- other call is made.
  pub create_queue-Runs :
      (source : MessageSource) (millis : ℕ) (id : QueueId)
      → Runs
          (create_queue answer source millis id)
          (fanout_plan source ++ (if ltb millis (2 ^ 63) then queue_plan source millis id else []))
          (if ltb millis (2 ^ 63) then ok (queue_of id) else panic)
  unfolding create_queue
  create_queue-Runs source millis id =
      fanout_steps-Runs source (expiry millis >>= queue_steps source id) _ _
        (expiry-Runs source millis id)

  pub open_queue-Runs :
      (id : QueueId)
      → Runs
          (open_queue answer id)
          (create_channel ∷ basic_consume (queue_name id) ∷ [])
          (ok (queue_of id))
  unfolding open_queue
  open_queue-Runs id = request-Runs create_channel _ _ _ (
      request-Runs (basic_consume (queue_name id)) _ _ _
        (done-Runs (pure (queue_of id)) _ (λ calls. refl)))

  pub send_message-Runs :
      (source : MessageSource) (msg : Bytes)
      → Runs
          (send_message answer source msg)
          (create_channel
            ∷ basic_publish primary_exchange (to_routing_key source) msg
            ∷ publisher_confirm
            ∷ [])
          (ok tt)
  unfolding send_message
  send_message-Runs source msg = request-Runs create_channel _ _ _ (
      request-Runs (basic_publish primary_exchange (to_routing_key source) msg) _ _ _
        (last-Runs publisher_confirm))
