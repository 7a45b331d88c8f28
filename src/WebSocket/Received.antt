-- ===== src/WebSocket/Received.antt =====
-- crates/common/src/net/ws.rs: what a socket yields when another end has written it.
use minibot_rust.Base.{
  ℕ, suc, ◌+◌, ◌≤◌, ◌≡◌, refl, sym, ap, subst, List, [], ◌∷◌, length, map, arith, All,
}
use minibot_rust.Pipe.{Either, left, right}
use minibot_rust.WebSocket.{
  Message, text, binary, BaseMessage, base_text, base_binary, base_ping, base_pong, base_close,
  to_base,
}
use minibot_rust.WebSocket.Exchange.{
  received, keep_alives, answers, Merged, none_left, of_first, of_second,
}

module _ {E : Type 0} where
  pub length-received :
      (items : List (Either BaseMessage E)) → length (received items) ≤ length items
  unfolding received
  length-received [] = omega arith
  length-received (right e ∷ items) = omega arith
  length-received (left (base_close reason) ∷ items) = omega arith
  length-received (left (base_text t) ∷ items) = omega (arith, length-received items)
  length-received (left (base_binary b) ∷ items) = omega (arith, length-received items)
  length-received (left (base_ping p) ∷ items) = omega (arith, length-received items)
  length-received (left (base_pong p) ∷ items) = omega (arith, length-received items)

  pub length-keep_alives :
      (items : List (Either BaseMessage E)) → length (keep_alives items) ≤ length items
  unfolding keep_alives
  length-keep_alives [] = omega arith
  length-keep_alives (right e ∷ items) = omega arith
  length-keep_alives (left (base_close reason) ∷ items) = omega arith
  length-keep_alives (left (base_text t) ∷ items) = omega (arith, length-keep_alives items)
  length-keep_alives (left (base_binary b) ∷ items) = omega (arith, length-keep_alives items)
  length-keep_alives (left (base_ping p) ∷ items) = omega (arith, length-keep_alives items)
  length-keep_alives (left (base_pong p) ∷ items) = omega (arith, length-keep_alives items)

  pub length-answers : (items : List (Either BaseMessage E)) → length (answers items) ≤ length items
  unfolding answers
  length-answers [] = omega arith
  length-answers (right e ∷ items) = omega arith
  length-answers (left (base_close reason) ∷ items) = omega arith
  length-answers (left (base_text t) ∷ items) = omega (arith, length-answers items)
  length-answers (left (base_binary b) ∷ items) = omega (arith, length-answers items)
  length-answers (left (base_ping p) ∷ items) = omega (arith, length-answers items)
  length-answers (left (base_pong p) ∷ items) = omega (arith, length-answers items)

-- What one end writes, as the other end's socket yields it.
abbrev pub yields : {E : Type 0} → List BaseMessage → List (Either BaseMessage E)
yields output = map left output

pub length-Merged :
    {A : Type 0} {xs ys zs : List A} → Merged xs ys zs → length zs ≡ length xs + length ys
length-Merged none_left = omega arith
length-Merged (of_first m) = omega (arith, length-Merged m)
length-Merged (of_second m) = omega (arith, length-Merged m)

abbrev IsPong : BaseMessage → Type 0
IsPong b = (p : List ℕ) × (b ≡ base_pong p)

module _ {E : Type 0} where
  pub answers-IsPong : (items : List (Either BaseMessage E)) → All IsPong (answers items)
  unfolding answers
  answers-IsPong [] = tt
  answers-IsPong (right e ∷ items) = tt
  answers-IsPong (left (base_close reason) ∷ items) = tt
  answers-IsPong (left (base_text t) ∷ items) = answers-IsPong items
  answers-IsPong (left (base_binary b) ∷ items) = answers-IsPong items
  answers-IsPong (left (base_ping p) ∷ items) = ((p, refl), answers-IsPong items)
  answers-IsPong (left (base_pong p) ∷ items) = answers-IsPong items

  received-after :
      (x : BaseMessage) (xs zs : List (Either BaseMessage E))
      → received zs ≡ received xs
      → received (left x ∷ zs) ≡ received (left x ∷ xs)
  unfolding received
  received-after (base_text t) xs zs h = ap (λ ms. text t ∷ ms) h
  received-after (base_binary b) xs zs h = ap (λ ms. binary b ∷ ms) h
  received-after (base_ping p) xs zs h = h
  received-after (base_pong p) xs zs h = h
  received-after (base_close reason) xs zs h = refl

module _ (E : Type 0) where
  -- Messages among answers to pings are received as without these.
  pub received-Merged :
      {xs ys zs : List BaseMessage}
      → Merged xs ys zs
      → All IsPong ys
      → received {E = E} (yields zs) ≡ received {E = E} (yields xs)
  unfolding received
  received-Merged none_left h = refl
  received-Merged (of_first {x} {xs} {ys} {zs} m) h =
      received-after x (yields xs) (yields zs) (received-Merged m h)
  received-Merged (of_second {y} {xs} {ys} {zs} m) h =
      subst (λ b. received {E = E} (left b ∷ yields zs) ≡ received {E = E} (yields xs))
        (sym (h.0).1) (received-Merged m h.1)

  pub received-to_base : (sent : List Message) → received {E = E} (yields (map to_base sent)) ≡ sent
  unfolding received to_base
  received-to_base [] = refl
  received-to_base (text t ∷ sent) = ap (λ ms. text t ∷ ms) (received-to_base sent)
  received-to_base (binary b ∷ sent) = ap (λ ms. binary b ∷ ms) (received-to_base sent)

pub length-map : {A B : Type 0} (f : A → B) (xs : List A) → length (map f xs) ≡ length xs
length-map f [] = refl
length-map f (x ∷ xs) = ap (λ n. suc n) (length-map f xs)
