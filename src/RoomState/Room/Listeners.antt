-- ===== src/RoomState/Room/Listeners.antt =====
-- crates/irc/src/futures_util/event_sink.rs: the delivery of the events of a room to one listener.
use minibot_rust.Base.{
  ℕ, ◌+◌, Bool, true, List, [], ◌∷◌, ◌++◌, none, some, if◌then◌else◌, ◌==◌, Option-cases, inl, inr,
  ◌≡◌, ◌≢◌, refl, sym, ◌∙◌, ap, append-nil, append_assoc, arith,
}
use minibot_rust.RoomState.Room.{
  RoomEvent, RoomState, retain, hand_out, notify_members_list, notify_join_room, notify_part_room,
  notify_message, add_listener, start_sending, finish_sending,
}
use minibot_rust.RoomState.Room.Replay.{
  Op, list, join, part, say, add, start, finish, apply, sent, sent_all, Run, stay, go,
}

abbrev pub count : ℕ → List ℕ → ℕ
count l [] = 0
count l (s ∷ rest) = if s == l then 1 + count l rest else count l rest

-- The listeners of the event on its way.
abbrev pub taken : RoomState → List ℕ
taken room = elim room.sending [ none ↦ [] | some (event, listeners) ↦ listeners ]

-- The listener is registered once, under the lock or with the event on its way.
abbrev pub Registered : ℕ → RoomState → Type 0
Registered l room = count l room.sinks + count l (taken room) ≡ 1

-- What was delivered to one listener.
unfoldable pub got : ℕ → List (ℕ × RoomEvent) → List RoomEvent
got l [] = []
got l ((s, event) ∷ rest) = let others = got l rest in if s == l then event ∷ others else others

-- The events that are still to come to it.
unfoldable pub pending : ℕ → RoomState → List RoomEvent
pending l room = elim room.sending [
  | none ↦ room.events
  | some (event, listeners) ↦ if count l listeners == 0 then room.events else event ∷ room.events
]

-- The step does not drop the listener, nor add it again.
abbrev pub Keeps : ℕ → Op → Type 0
Keeps l (finish alive) = alive l ≡ true
Keeps l (add s) = s ≢ l
Keeps l _ = Unit

abbrev pub AllKeep : ℕ → List Op → Type 0
AllKeep l [] = Unit
AllKeep l (op ∷ ops) = Keeps l op × AllKeep l ops

count-append : (l : ℕ) (xs ys : List ℕ) → count l (xs ++ ys) ≡ count l xs + count l ys
count-append l [] ys = omega arith
count-append l (x ∷ xs) ys = ground (arith, count-append l xs ys)

count-retain :
    (l : ℕ) (alive : ℕ → Bool) (xs : List ℕ)
    → alive l ≡ true
    → count l (retain alive xs) ≡ count l xs
unfolding retain
count-retain l alive [] h = refl
count-retain l alive (x ∷ xs) h = ground (arith, count-retain l alive xs h)

got-append : (l : ℕ) (xs ys : List (ℕ × RoomEvent)) → got l (xs ++ ys) ≡ got l xs ++ got l ys
unfolding got
got-append l [] ys = refl
got-append l ((s, event) ∷ xs) ys = ground (arith, got-append l xs ys)

got-hand_out_none :
    (l : ℕ) (event : RoomEvent) (xs : List ℕ) → count l xs ≡ 0 → got l (hand_out event xs) ≡ []
unfolding got hand_out
got-hand_out_none l event [] h = refl
got-hand_out_none l event (x ∷ xs) h = ground (arith, got-hand_out_none l event xs)

got-hand_out_once :
    (l : ℕ) (event : RoomEvent) (xs : List ℕ)
    → count l xs ≡ 1
    → got l (hand_out event xs) ≡ event ∷ []
unfolding got hand_out
got-hand_out_once l event [] h = ground arith
got-hand_out_once l event (x ∷ xs) h =
    ground (arith, got-hand_out_once l event xs, got-hand_out_none l event xs)

abbrev Step : ℕ → Op → RoomState → RoomState → List (ℕ × RoomEvent) → Type 0
Step l op room next d = Registered l next × (got l d ++ pending l next ≡ pending l room ++ sent op)

step :
    (l : ℕ) (op : Op) (room next : RoomState) (d : List (ℕ × RoomEvent))
    → apply op room ≡ some (next, d)
    → Keeps l op
    → Registered l room
    → Step l op room next d
unfolding apply sent pending got notify_members_list notify_join_room notify_part_room
    notify_message add_listener start_sending finish_sending
step l (list m) room next d h k r = grind arith
step l (join u) room next d h k r = grind arith
step l (part u) room next d h k r = grind arith
step l (say u t) room next d h k r = grind arith
step l (add s) room next d h k r =
    ground (arith, count-append l room.sinks (s ∷ []), append-nil (pending l room))
step l start room next d h k r = ground (arith, append-nil (pending l room), append-nil room.events)
step l (finish alive) room next d h k r = elim (Option-cases room.sending) [
  | inl e ↦ ground (arith, e, append-nil room.events)
  | inr ((event, tk), e) ↦ ground (
    arith,
    e,
    append-nil room.events,
    append-nil (event ∷ room.events),
    count-append l (retain alive tk) room.sinks,
    count-retain l alive tk k,
    got-hand_out_none l event (retain alive tk),
    got-hand_out_once l event (retain alive tk),
  )
]

-- In every run that neither drops a registered listener nor adds it again, the listener stays
-- registered, and it gets the events that were on their way to it and those that are sent in the
-- run, in order and once each, but for the ones that are still to come at the end.
pub Run-got :
    (l : ℕ) {room last : RoomState} {ops : List Op} {ds : List (ℕ × RoomEvent)}
    → Run room ops last ds
    → AllKeep l ops
    → Registered l room
    → Registered l last × (got l ds ++ pending l last ≡ pending l room ++ sent_all ops)
unfolding got sent_all
Run-got l {room} stay k r = (r, sym (append-nil (pending l room)))
Run-got l {room} {last} (go {next = next} {op = op} {ops = ops} {d = d} {ds = ds} h rest) k r =
    let (r', here) = step l op room next d h k.0 r in
    let (end, later) = Run-got l rest k.1 r' in
    (
      end,
      ap (λ t. t ++ pending l last) (got-append l d ds)
          ∙ append_assoc (got l d) (got l ds) (pending l last)
          ∙ ap (λ t. got l d ++ t) later
          ∙ sym (append_assoc (got l d) (pending l next) (sent_all ops))
          ∙ ap (λ t. t ++ sent_all ops) here
          ∙ append_assoc (pending l room) (sent op) (sent_all ops),
    )
