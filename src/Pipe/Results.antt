-- ===== src/Pipe/Results.antt =====
-- crates/common/src/future: `pipe`, `try_map_pipe`, `end_on_error_oneshot` and `either_split`, whose
-- tasks also say how they ended or have two sinks, against functions on lists.
use minibot_rust.Base.{
  ℕ, suc, ◌≤◌, ◌≡◌, refl, sym, ap, ◌∙◌, Bool, true, false, List, [], ◌∷◌, Option, none, some, ◌⊎◌,
  inl, inr, length, arith, leb, if◌then◌else◌,
}
use minibot_rust.Pipe.{
  Either, left, right, Sink, pipe, PipeError, in_stream, in_sink, try_map_pipe, either_split,
  end_on_error_oneshot,
}
use minibot_rust.Pipe.Reference.{fill, fill-nil, fill-none, fill-some, send-cases}

pair_path : {A B : Type 0} {a a' : A} {b b' : B} → a ≡ a' → b ≡ b' → ◌≡◌ {A = A × B} (a, b) (a', b')
pair_path p q = λ i. (p i, q i)

leb-zero : (r : ℕ) → true ≡ leb 0 r
leb-zero r = ground arith

leb-full : (n r : ℕ) → r ≡ 0 → false ≡ leb (suc n) r
leb-full n r h = ground arith

leb-room : (n r r' : ℕ) → r ≡ suc r' → leb n r' ≡ leb (suc n) r
leb-room n r r' h = ground arith

-- A stream goes through a sink when the receiver takes as many items as it has; the sink has them as
-- far as the receiver took them.
pub pipe-fill :
    {A : Type 0} (items : List A) (sink : Sink A)
    → pipe items sink ≡ (leb (length items) sink.room, fill sink items)
unfolding pipe
pipe-fill [] sink = pair_path (leb-zero sink.room) (sym (fill-nil sink))
pipe-fill (a ∷ items) sink = elim (send-cases sink a) [
  | inl (refused, full) ↦
      rw (refused, pipe)
        (pair_path (leb-full (length items) sink.room full) (sym (fill-none sink (a ∷ items) full)))
  | inr (sink', sent, room, taken) ↦
      rw (sent, pipe)
        (pipe-fill items sink'
          ∙ pair_path (leb-room (length items) sink.room sink'.room room)
              (fill-some sink sink' a items room taken))
]

if_same : {A : Type 0} {a : A} (b : Bool) → a ≡ (if b then a else a)
if_same true = refl
if_same false = refl

module _ {T E : Type 0} where
  -- The items up to the first error, and that error.
  unfoldable pub oks : List (Either T E) → List T
  oks [] = []
  oks (left item ∷ items) = item ∷ oks items
  oks (right e ∷ items) = []

  unfoldable pub first_error : List (Either T E) → Option E
  first_error [] = none
  first_error (left item ∷ items) = first_error items
  first_error (right e ∷ items) = some e

  -- The task of `end_on_error_oneshot` gives its sink the items up to the first error, as far as the
  -- receiver takes them; it gives the error away exactly when the receiver has taken all of those.
  pub end_on_error_oneshot-oks :
      (items : List (Either T E)) (sink : Sink T)
      → end_on_error_oneshot items sink ≡ (
        (if leb (length (oks items)) sink.room then first_error items else none),
        fill sink (oks items),
      )
  unfolding end_on_error_oneshot oks first_error
  end_on_error_oneshot-oks [] sink = pair_path (if_same (leb 0 sink.room)) (sym (fill-nil sink))
  end_on_error_oneshot-oks (right e ∷ items) sink =
      pair_path (rw (← (leb-zero sink.room)) refl) (sym (fill-nil sink))
  end_on_error_oneshot-oks (left a ∷ items) sink = elim (send-cases sink a) [
    | inl (refused, full) ↦
        rw (refused, end_on_error_oneshot)
          (pair_path
            (ap (λ b. if b then first_error items else none)
              (leb-full (length (oks items)) sink.room full))
            (sym (fill-none sink (a ∷ oks items) full)))
    | inr (sink', sent, room, taken) ↦
        rw (sent, end_on_error_oneshot)
          (end_on_error_oneshot-oks items sink'
            ∙ pair_path
                (ap (λ b. if b then first_error items else none)
                  (leb-room (length (oks items)) sink.room sink'.room room))
                (fill-some sink sink' a (oks items) room taken))
  ]

module _ {S T A B : Type 0} (f : S → T → Either A B × S) where
  -- What the closure gives for the items, with its state.
  unfoldable pub results : S → List T → List (Either A B)
  results s [] = []
  results s (item ∷ items) = (f s item).0 ∷ results ((f s item).1) items

-- The results for the one sink, and for the other.
unfoldable pub lefts : {A B : Type 0} → List (Either A B) → List A
lefts [] = []
lefts (left a ∷ es) = a ∷ lefts es
lefts (right b ∷ es) = lefts es

unfoldable pub rights : {A B : Type 0} → List (Either A B) → List B
rights [] = []
rights (left a ∷ es) = rights es
rights (right b ∷ es) = b ∷ rights es

Either-cases :
    {A B : Type 0} (e : Either A B) → ((a : A) × (e ≡ left a)) ⊎ ((b : B) × (e ≡ right b))
Either-cases (left a) = inl (a, refl)
Either-cases (right b) = inr (b, refl)

module _ {S T A B : Type 0} (f : S → T → Either A B × S) where
  -- While both receivers take what they are sent, the task of `either_split` gives each sink the
  -- results of the closure that are for it, in order.
  pub either_split-results :
      (s : S) (items : List T) (t_sink : Sink A) (f_sink : Sink B)
      → length (lefts (results f s items)) ≤ t_sink.room
      → length (rights (results f s items)) ≤ f_sink.room
      → either_split f s items t_sink f_sink
        ≡ (fill t_sink (lefts (results f s items)), fill f_sink (rights (results f s items)))
  unfolding either_split results lefts rights
  either_split-results s [] t_sink f_sink h k =
      pair_path (sym (fill-nil t_sink)) (sym (fill-nil f_sink))
  either_split-results s (item ∷ items) t_sink f_sink h k = elim (Either-cases ((f s item).0)) [
    | inl (a, one) ↦ elim (send-cases t_sink a) [
      | inl (refused, full) ↦ let h' = rw (one, lefts) at h in absurd (omega arith)
      | inr (t', sent, room, taken) ↦
          let h' = rw (one, lefts) at h in
          let k' = rw (one, rights) at k in
          rw (one, sent, either_split, lefts, rights)
            (either_split-results ((f s item).1) items t' f_sink (omega arith) k'
              ∙ pair_path
                  (fill-some t_sink t' a (lefts (results f ((f s item).1) items)) room taken) refl)
    ]
    | inr (b, other) ↦ elim (send-cases f_sink b) [
      | inl (refused, full) ↦ let k' = rw (other, rights) at k in absurd (omega arith)
      | inr (f', sent, room, taken) ↦
          let h' = rw (other, lefts) at h in
          let k' = rw (other, rights) at k in
          rw (other, sent, either_split, lefts, rights)
            (either_split-results ((f s item).1) items t_sink f' h' (omega arith)
              ∙ pair_path refl
                  (fill-some f_sink f' b (rights (results f ((f s item).1) items)) room taken))
    ]
  ]

module _ {S T U E : Type 0} (f : S → T → Either U E × S) where
  -- How `try_map_pipe` ends: by the first error of the closure, if the receiver has taken all
  -- results before it.
  abbrev pub ending : Bool → Option E → Option (PipeError E)
  ending true none = none
  ending true (some e) = some (in_stream e)
  ending false o = some in_sink

  -- `try_map_pipe` gives the sink the results of the closure up to its first error, as far as the
  -- receiver takes them. Its own error is that of the sink when the receiver has not taken all of
  -- them, that of the closure when there is one behind them, and none otherwise.
  pub try_map_pipe-oks :
      (s : S) (items : List T) (sink : Sink U)
      → try_map_pipe f s items sink ≡ (
        ending (leb (length (oks (results f s items))) sink.room) (first_error (results f s items)),
        fill sink (oks (results f s items)),
      )
  unfolding try_map_pipe oks first_error results
  try_map_pipe-oks s [] sink =
      pair_path (ap (λ b. ending b none) (leb-zero sink.room)) (sym (fill-nil sink))
  try_map_pipe-oks s (item ∷ items) sink = elim (Either-cases ((f s item).0)) [
    | inr (e, stops) ↦
        rw (stops, try_map_pipe, oks, first_error)
          (pair_path (ap (λ b. ending b (some e)) (leb-zero sink.room)) (sym (fill-nil sink)))
    | inl (a, goes_on) ↦
        let rest = results f ((f s item).1) items in
        elim (send-cases sink a) [
          | inl (refused, full) ↦
              rw (goes_on, refused, try_map_pipe, oks, first_error)
                (pair_path
                  (ap (λ b. ending b (first_error rest))
                    (leb-full (length (oks rest)) sink.room full))
                  (sym (fill-none sink (a ∷ oks rest) full)))
          | inr (sink', sent, room, taken) ↦
              rw (goes_on, sent, try_map_pipe, oks, first_error)
                (try_map_pipe-oks ((f s item).1) items sink'
                  ∙ pair_path
                      (ap (λ b. ending b (first_error rest))
                        (leb-room (length (oks rest)) sink.room sink'.room room))
                      (fill-some sink sink' a (oks rest) room taken))
        ]
  ]
