-- ===== src/Pipe/Cloner/FanOut.antt =====
-- crates/common/src/future/pipe/cloner.rs: what the receivers of `run_cloner` get.
use minibot_rust.Base.{
  ◌≡◌, refl, ap, ◌∙◌, Bool, true, false, List, [], ◌∷◌, ◌++◌, append-nil, append_assoc, map, none,
  some, All, ◌&&◌, is_empty,
}
use minibot_rust.Pipe.Cloner.{
  SafeSender, send, is_closed, retain, Event, item, next_sender, hang_up, Cloner, step, run_cloner,
}

and_false : (b : Bool) → (b && false) ≡ false
and_false true = refl
and_false false = refl

module _ {A : Type 0} where
  abbrev pub fresh : List A → SafeSender A
  fresh received = record { received = received; alive = true }

  -- Items and new receivers, each fresh, and no end.
  abbrev pub Flows : Event A → Type 0
  Flows (item none) = ⊥
  Flows (item (some a)) = Unit
  Flows (next_sender none) = ⊥
  Flows (next_sender (some ss)) = ss ≡ fresh []
  Flows (hang_up i) = ⊥

  abbrev pub items_of : List (Event A) → List A
  items_of [] = []
  items_of (item (some a) ∷ events) = a ∷ items_of events
  items_of (_ ∷ events) = items_of events

  -- For each new receiver, the items behind it.
  abbrev pub later_items : List (Event A) → List (List A)
  later_items [] = []
  later_items (next_sender (some ss) ∷ events) = items_of events ∷ later_items events
  later_items (_ ∷ events) = later_items events

  -- Lists with the same list put behind each.
  abbrev pub each_with : List (List A) → List A → List (List A)
  each_with got items = map (λ (g : List A). g ++ items) got

  abbrev pub senders_of : List (List A) → List (SafeSender A)
  senders_of got = map fresh got

  retain-senders_of : (got : List (List A)) → retain (senders_of got) ≡ senders_of got
  unfolding retain is_closed
  retain-senders_of [] = refl
  retain-senders_of (g ∷ got) = ap (◌∷◌ (fresh g)) (retain-senders_of got)

  send-senders_of :
      (a : A) (got : List (List A))
      → map (send a) (senders_of got) ≡ senders_of (each_with got (a ∷ []))
  unfolding send
  send-senders_of a [] = refl
  send-senders_of a (g ∷ got) = ap (◌∷◌ (fresh (g ++ a ∷ []))) (send-senders_of a got)

  step-item :
      (a : A) (got : List (List A))
      → step (item (some a)) (record { senders = senders_of got; terminated = false })
        ≡ some (record { senders = senders_of (each_with got (a ∷ [])); terminated = false })
  unfolding step
  step-item a got =
      rw (retain-senders_of got, send-senders_of a got, and_false (is_empty (senders_of got))) refl

  each_with-nil : (got : List (List A)) → each_with got [] ≡ got
  each_with-nil [] = refl
  each_with-nil (g ∷ got) = rw (append-nil g, each_with-nil got) refl

  each_with-cons :
      (a : A) (items : List A) (got : List (List A))
      → each_with (each_with got (a ∷ [])) items ≡ each_with got (a ∷ items)
  each_with-cons a items [] = refl
  each_with-cons a items (g ∷ got) =
      rw (append_assoc g (a ∷ []) items, each_with-cons a items got) refl

  each_with-new :
      (items : List A) (got : List (List A))
      → each_with (got ++ [] ∷ []) items ≡ each_with got items ++ items ∷ []
  each_with-new items [] = refl
  each_with-new items (g ∷ got) = rw (each_with-new items got) refl

  senders_of-new :
      (got : List (List A)) → senders_of got ++ fresh [] ∷ [] ≡ senders_of (got ++ [] ∷ [])
  senders_of-new [] = refl
  senders_of-new (g ∷ got) = ap (◌∷◌ (fresh g)) (senders_of-new got)

  abbrev pub cloner : List (List A) → Cloner A
  cloner got = record { senders = senders_of got; terminated = false }

  run_cloner-step :
      (e : Event A) (events : List (Event A)) (c c' : Cloner A)
      → step e c ≡ some c'
      → run_cloner (e ∷ events) c ≡ run_cloner events c'
  unfolding run_cloner
  run_cloner-step e events c c' h = rw (h, run_cloner) refl

  step-next_sender :
      (ss : SafeSender A) (got : List (List A))
      → ss ≡ fresh []
      → step (next_sender (some ss)) (cloner got) ≡ some (cloner (got ++ [] ∷ []))
  unfolding step
  step-next_sender ss got h = rw (h, senders_of-new got) refl

  -- While no receiver goes away and neither stream ends, every receiver that is there gets every
  -- item, and every new one all items behind its arrival, each in order and once. An item that
  -- comes when there is no receiver is lost.
  pub run_cloner-each :
      (events : List (Event A)) (got : List (List A))
      → All Flows events
      → run_cloner events (cloner got)
        ≡ cloner (each_with got (items_of events) ++ later_items events)
  run_cloner-each [] got h = unfold run_cloner in (rw (each_with-nil got, append-nil got) refl)
  run_cloner-each (item none ∷ events) got h = absurd h.0
  run_cloner-each (next_sender none ∷ events) got h = absurd h.0
  run_cloner-each (hang_up i ∷ events) got h = absurd h.0
  run_cloner-each (item (some a) ∷ events) got h =
      run_cloner-step (item (some a)) events (cloner got) (cloner (each_with got (a ∷ [])))
        (step-item a got)
      ∙ run_cloner-each events (each_with got (a ∷ [])) h.1
      ∙ ap (λ g. cloner (g ++ later_items events)) (each_with-cons a (items_of events) got)
  run_cloner-each (next_sender (some ss) ∷ events) got h =
      run_cloner-step (next_sender (some ss)) events (cloner got) (cloner (got ++ [] ∷ []))
        (step-next_sender ss got h.0)
      ∙ run_cloner-each events (got ++ [] ∷ []) h.1
      ∙ ap cloner (
          ap (λ g. g ++ later_items events) (each_with-new (items_of events) got)
          ∙ append_assoc (each_with got (items_of events)) (items_of events ∷ [])
              (later_items events))
