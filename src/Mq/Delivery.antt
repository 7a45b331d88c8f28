-- ===== src/Mq/Delivery.antt =====
-- crates/server/src/services/fake/mq.rs: runs of the task of a `SubscriptionState`.
use minibot_rust.Base.{
  ℕ, Bool, List, [], ◌∷◌, ◌++◌, none, some, Bytes, append-nil, append_assoc, ◌≡◌, refl, sym, ap,
  ◌∙◌, arith,
}
use minibot_rust.Mq.{SubscriptionState, publish, replace, task_step}

abbrev pub Deliveries : Type 0
Deliveries = List (ℕ × Bytes)

-- What happens to a subscription until it ends: messages and listeners come, the task moves.
pub data Run : SubscriptionState → List Bytes → SubscriptionState → Deliveries → Type 0 where
  stay : {s : SubscriptionState} → Run s [] s []
  message :
      {s next last : SubscriptionState} {m : Bytes} {ms : List Bytes} {ds : Deliveries}
      → publish m s ≡ some next
      → Run next ms last ds
      → Run s (m ∷ ms) last ds
  listener :
      {s next last : SubscriptionState} {ms : List Bytes} {ds : Deliveries} (l : ℕ)
      → replace l s ≡ some next
      → Run next ms last ds
      → Run s ms last ds
  move :
      {s last : SubscriptionState} {ms : List Bytes} {ds : Deliveries} (is_open : ℕ → Bool)
      → Run (task_step is_open s).0 ms last ds
      → Run s ms last ((task_step is_open s).1 ++ ds)

-- The messages that are on their way.
abbrev pub on_way : SubscriptionState → List Bytes
on_way s = elim s.holding [ none ↦ s.queue | some m ↦ m ∷ s.queue ]

abbrev pub bodies : Deliveries → List Bytes
bodies [] = []
bodies ((l, m) ∷ ds) = m ∷ bodies ds

bodies-append : (xs ys : Deliveries) → bodies (xs ++ ys) ≡ bodies xs ++ bodies ys
bodies-append [] ys = refl
bodies-append ((l, m) ∷ xs) ys = ap (◌∷◌ m) (bodies-append xs ys)

move-on_way :
    (is_open : ℕ → Bool) (s : SubscriptionState)
    → bodies (task_step is_open s).1 ++ on_way (task_step is_open s).0 ≡ on_way s
unfolding task_step
move-on_way is_open s = ground arith

publish-on_way :
    (m : Bytes) (s next : SubscriptionState)
    → publish m s ≡ some next
    → on_way next ≡ on_way s ++ m ∷ []
unfolding publish
publish-on_way m s next h = ground arith

replace-on_way :
    (l : ℕ) (s next : SubscriptionState) → replace l s ≡ some next → on_way next ≡ on_way s
unfolding replace
replace-on_way l s next h = ground arith

-- In every run of a subscription without a time-out, what is delivered and then what is on its way
-- are together what was on its way at the start and then what was published: in order, none twice,
-- and none lost, also when listeners close.
pub Run-in_order :
    {s last : SubscriptionState} {ms : List Bytes} {ds : Deliveries}
    → Run s ms last ds
    → bodies ds ++ on_way last ≡ on_way s ++ ms
Run-in_order {s} stay = sym (append-nil (on_way s))
Run-in_order {s} {last} (message {next = next} {m = m} {ms = ms} {ds = ds} h rest) =
    Run-in_order rest
    ∙ ap (λ t. t ++ ms) (publish-on_way m s next h)
    ∙ append_assoc (on_way s) (m ∷ []) ms
Run-in_order {s} (listener {next = next} {ms = ms} l h rest) =
    Run-in_order rest ∙ ap (λ t. t ++ ms) (replace-on_way l s next h)
Run-in_order {s} {last} (move {ms = ms} {ds = ds} is_open rest) =
    let moved = (task_step is_open s) in
    ap (λ t. t ++ on_way last) (bodies-append moved.1 ds)
    ∙ append_assoc (bodies moved.1) (bodies ds) (on_way last)
    ∙ ap (λ t. bodies moved.1 ++ t) (Run-in_order rest)
    ∙ sym (append_assoc (bodies moved.1) (on_way moved.0) ms)
    ∙ ap (λ t. t ++ ms) (move-on_way is_open s)
