-- ===== src/Pipe/Reference.antt =====
-- crates/common/src/future/pipe.rs: the tasks of the pipes against functions on lists. A receiver
-- that goes away cuts off the end, and nothing else.
use minibot_rust.Base.{
  ℕ, zero, suc, ◌-◌, ◌≡◌, refl, sym, subst, ◌∙◌, List, [], ◌∷◌, ◌++◌, append-nil, append_assoc,
  Option, none, some, ◌⊎◌, inl, inr, length, take, arith, Option-cases,
}
use minibot_rust.Pipe.{Sink, send, end_map, filter_map}

module _ {A : Type 0} where
  -- A sink that has been sent a list, as far as its receiver took it.
  abbrev pub fill : Sink A → List A → Sink A
  fill sink xs = record { taken = sink.taken ++ take sink.room xs; room = sink.room - length xs }

  abbrev pub Taken : Sink A → A → Type 0
  Taken sink a =
      (sink' : Sink A) × (send sink a ≡ some sink')
      × (sink.room ≡ suc sink'.room)
      × (sink'.taken ≡ sink.taken ++ a ∷ [])

  put-cases :
      (room : ℕ) (taken : List A) (a : A)
      → ((send (record { taken = taken; room = room }) a ≡ none) × (room ≡ 0))
        ⊎ Taken (record { taken = taken; room = room }) a
  unfolding send
  put-cases zero taken a = inl (refl, refl)
  put-cases (suc room) taken a =
      inr (record { taken = taken ++ a ∷ []; room = room }, refl, refl, refl)

  pub send-cases : (sink : Sink A) (a : A) → ((send sink a ≡ none) × (sink.room ≡ 0)) ⊎ Taken sink a
  send-cases sink a = put-cases sink.room sink.taken a

  take-nil : (n : ℕ) → take {A = A} n [] ≡ []
  take-nil zero = refl
  take-nil (suc n) = refl

  Sink-path : (s t : Sink A) → s.taken ≡ t.taken → s.room ≡ t.room → s ≡ t
  Sink-path s t p q = λ i. record { taken = p i; room = q i }

  pub fill-nil : (sink : Sink A) → fill sink [] ≡ sink
  fill-nil sink =
      Sink-path (fill sink []) sink (rw (take-nil sink.room) (append-nil sink.taken)) (omega arith)

  pub fill-none : (sink : Sink A) (xs : List A) → sink.room ≡ 0 → fill sink xs ≡ sink
  fill-none sink xs h =
      Sink-path (fill sink xs) sink
        (subst (λ r. sink.taken ++ take r xs ≡ sink.taken) (sym h) (append-nil sink.taken))
        (omega arith)

  pub fill-some :
      (sink sink' : Sink A) (a : A) (xs : List A)
      → sink.room ≡ suc sink'.room
      → sink'.taken ≡ sink.taken ++ a ∷ []
      → fill sink' xs ≡ fill sink (a ∷ xs)
  fill-some sink sink' a xs r t =
      Sink-path (fill sink' xs) (fill sink (a ∷ xs))
        (rw (t, r) (append_assoc sink.taken (a ∷ []) (take sink'.room xs))) (omega arith)

  -- The rest of a task that sends an item: it goes on when the item is taken, and is over otherwise.
  -- When what goes on fills the sink with a list, the task fills it with the item and that list.
  pub send-fill :
      (sink : Sink A) (a : A) (xs : List A) (goes_on : Sink A → Sink A)
      → ((sink' : Sink A) → goes_on sink' ≡ fill sink' xs)
      → elim (send sink a) [ none ↦ sink | some sink' ↦ goes_on sink' ] ≡ fill sink (a ∷ xs)
  send-fill sink a xs goes_on h = elim (send-cases sink a) [
    | inl (none_taken, full) ↦ rw none_taken (sym (fill-none sink (a ∷ xs) full))
    | inr (sink', sent, room, taken) ↦ rw sent (h sink' ∙ fill-some sink sink' a xs room taken)
  ]

module _ {S T U : Type 0} (f : S → T → Option U × S) where
  -- `filter_map` and `map_while` on a list, with the state of the closure.
  unfoldable pub somes : S → List T → List U
  somes s [] = []
  somes s (item ∷ items) = elim ((f s item).0) [
    | none ↦ somes ((f s item).1) items
    | some v ↦ v ∷ somes ((f s item).1) items
  ]

  unfoldable pub until_none : S → List T → List U
  until_none s [] = []
  until_none s (item ∷ items) = elim ((f s item).0) [
    | none ↦ []
    | some v ↦ v ∷ until_none ((f s item).1) items
  ]

  -- The task of `filter_map` gives its sink, as far as the receiver takes them, the results of the
  -- closure that are something, in order.
  pub filter_map-somes :
      (s : S) (items : List T) (sink : Sink U)
      → filter_map f s items sink ≡ fill sink (somes s items)
  unfolding filter_map somes
  filter_map-somes s [] sink = sym (fill-nil sink)
  filter_map-somes s (item ∷ items) sink = elim (Option-cases ((f s item).0)) [
    | inl dropped ↦ rw (dropped, filter_map, somes) (filter_map-somes ((f s item).1) items sink)
    | inr (v, kept) ↦
        rw (kept, filter_map, somes)
          (send-fill sink v (somes ((f s item).1) items) (filter_map f ((f s item).1) items)
            (filter_map-somes ((f s item).1) items))
  ]

  -- The task of `end_map` gives its sink, as far as the receiver takes them, the results of the
  -- closure up to the first that is nothing.
  pub end_map-until_none :
      (s : S) (items : List T) (sink : Sink U)
      → end_map f s items sink ≡ fill sink (until_none s items)
  unfolding end_map until_none
  end_map-until_none s [] sink = sym (fill-nil sink)
  end_map-until_none s (item ∷ items) sink = elim (Option-cases ((f s item).0)) [
    | inl ends ↦ rw (ends, end_map, until_none) (sym (fill-nil sink))
    | inr (v, kept) ↦
        rw (kept, end_map, until_none)
          (send-fill sink v (until_none ((f s item).1) items) (end_map f ((f s item).1) items)
            (end_map-until_none ((f s item).1) items))
  ]
