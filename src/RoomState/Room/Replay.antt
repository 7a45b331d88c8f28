-- ===== src/RoomState/Room/Replay.antt =====
-- crates/irc/src/room_state/room_state.rs: runs of a room, and a reader of its events.
use minibot_rust.Base.{
  ℕ, Bool, true, false, inl, inr, Option-cases, append-nil, append_assoc, subst, List, [], ◌∷◌,
  ◌++◌, Option, none, some, ◌≡◌, refl, sym, ◌∙◌, ap, arith,
}
use minibot_rust.RoomState.Members.{
  Str, UserState, MembersList, MembersState, lookup, contains, update, from_list,
}
use minibot_rust.RoomState.Members.Update.{lookup-update_users, lookup-collect_all}
use minibot_rust.RoomState.Room.{
  RoomEvent, members_list_update, user_joined, user_left, message, RoomState, update_members,
  notify_members_list, notify_join_room, notify_part_room, notify_message, add_listener,
  start_sending, finish_sending,
}

-- What may happen to a room.
pub data Op : Type 0 where
  list : MembersList → Op
  join part : Str → Op
  say : Str → Str → Op
  add : ℕ → Op
  start : Op
  finish : (ℕ → Bool) → Op

abbrev Deliveries : Type 0
Deliveries = List (ℕ × RoomEvent)

-- The room behind it and what was delivered; none for the panic of `add_listener`.
unfoldable pub apply : Op → RoomState → Option (RoomState × Deliveries)
apply (list members_list) room = some (notify_members_list members_list room, [])
apply (join user) room = some (notify_join_room user room, [])
apply (part user) room = some (notify_part_room user room, [])
apply (say user text) room = some (notify_message user text room, [])
apply (add listener) room = elim (add_listener listener room) [
  | none ↦ none
  | some r ↦ some (r, [])
]
apply start room = some (start_sending room, [])
apply (finish alive) room = some (finish_sending alive room)

-- The events that it sends.
unfoldable pub sent : Op → List RoomEvent
sent (list members_list) = members_list_update members_list ∷ []
sent (join user) = user_joined user ∷ []
sent (part user) = user_left user ∷ []
sent (say user text) = message user text ∷ []
sent _ = []

unfoldable pub sent_all : List Op → List RoomEvent
sent_all [] = []
sent_all (op ∷ ops) = sent op ++ sent_all ops

-- A run from one room to another, with all that is delivered in it.
pub data Run : RoomState → List Op → RoomState → Deliveries → Type 0 where
  stay : {room : RoomState} → Run room [] room []
  go :
      {room next last : RoomState} {op : Op} {ops : List Op} {d ds : Deliveries}
      → apply op room ≡ some (next, d)
      → Run next ops last ds
      → Run room (op ∷ ops) last (d ++ ds)

-- The event that a step takes out of the channel: the one that is on its way behind the step, when
-- none was before it.
abbrev pub took : Option (RoomEvent × List ℕ) → Option (RoomEvent × List ℕ) → List RoomEvent
took none none = []
took none (some (event, listeners)) = event ∷ []
took (some busy) after = []

-- The events that a run takes out of the channel.
unfoldable pub taken_in :
    {room last : RoomState} {ops : List Op} {ds : Deliveries}
    → Run room ops last ds
    → List RoomEvent
taken_in stay = []
taken_in (go {room} {next} h rest) = took room.sending next.sending ++ taken_in rest

-- What a reader of the events has of the members: the last list, where there was one.
unfoldable pub last_list : Option MembersList → List RoomEvent → Option MembersList
last_list shown [] = shown
last_list shown (members_list_update members_list ∷ rest) = last_list (some members_list) rest
last_list shown (user_joined user ∷ rest) = last_list shown rest
last_list shown (user_left user ∷ rest) = last_list shown rest
last_list shown (message user text ∷ rest) = last_list shown rest

abbrev pub is_some : Option (Option UserState) → Bool
is_some none = false
is_some (some v) = true

-- The room knows as its members exactly the users of the list, or their number.
abbrev pub Shows : Option MembersState → Option MembersList → Type 0
Shows none none = Unit
Shows (some (MembersState.users members)) (some (MembersList.users names)) =
    (user : Str) → is_some (lookup user members) ≡ contains user names
Shows (some (MembersState.lots state)) (some (MembersList.lots n)) = state.num_members ≡ n
Shows _ _ = ⊥

last_list-append :
    (shown : Option MembersList) (xs ys : List RoomEvent)
    → last_list shown (xs ++ ys) ≡ last_list (last_list shown xs) ys
unfolding last_list
last_list-append shown [] ys = refl
last_list-append shown (members_list_update m ∷ xs) ys = last_list-append (some m) xs ys
last_list-append shown (user_joined u ∷ xs) ys = last_list-append shown xs ys
last_list-append shown (user_left u ∷ xs) ys = last_list-append shown xs ys
last_list-append shown (message u t ∷ xs) ys = last_list-append shown xs ys

update-Shows : (state : MembersState) (m : MembersList) → Shows (some (update state m)) (some m)
unfolding update
update-Shows (MembersState.users members) (MembersList.users names) =
    λ user. ground (arith, lookup-update_users user members names)
update-Shows (MembersState.users members) (MembersList.lots n) = refl
update-Shows (MembersState.lots state) (MembersList.users names) =
    λ user. ground (arith, lookup-collect_all user names)
update-Shows (MembersState.lots state) (MembersList.lots n) = refl

update_members-Shows :
    (members : Option MembersState) (m : MembersList)
    → Shows (some (update_members members m)) (some m)
unfolding update_members from_list
update_members-Shows none m = update-Shows _ m
update_members-Shows (some state) m = update-Shows state m

apply-events :
    (op : Op) (room next : RoomState) (d : Deliveries)
    → apply op room ≡ some (next, d)
    → took room.sending next.sending ++ next.events ≡ room.events ++ sent op
unfolding apply sent notify_members_list notify_join_room notify_part_room notify_message
    add_listener start_sending finish_sending
apply-events (list m) room next d h = elim (Option-cases room.sending) [
  | inl e ↦ ground (arith, e, h)
  | inr (p, e) ↦ ground (arith, e, h)
]
apply-events (join u) room next d h = elim (Option-cases room.sending) [
  | inl e ↦ ground (arith, e, h)
  | inr (p, e) ↦ ground (arith, e, h)
]
apply-events (part u) room next d h = elim (Option-cases room.sending) [
  | inl e ↦ ground (arith, e, h)
  | inr (p, e) ↦ ground (arith, e, h)
]
apply-events (say u t) room next d h = elim (Option-cases room.sending) [
  | inl e ↦ ground (arith, e, h)
  | inr (p, e) ↦ ground (arith, e, h)
]
apply-events (add l) room next d h = ground (arith, append-nil room.events)
apply-events start room next d h = ground (arith, append-nil room.events)
apply-events (finish alive) room next d h = ground (arith, append-nil room.events)

-- What a step makes of the members.
abbrev members_after : Op → Option MembersState → Option MembersState
members_after (list m) members = some (update_members members m)
members_after _ members = members

apply-members_after :
    (op : Op) (room next : RoomState) (d : Deliveries)
    → apply op room ≡ some (next, d)
    → next.members ≡ members_after op room.members
unfolding apply notify_members_list notify_join_room notify_part_room notify_message add_listener
    start_sending finish_sending
apply-members_after (list m) room next d h = grind arith
apply-members_after (join u) room next d h = grind arith
apply-members_after (part u) room next d h = grind arith
apply-members_after (say u t) room next d h = grind arith
apply-members_after (add l) room next d h = ground arith
apply-members_after start room next d h = ground arith
apply-members_after (finish alive) room next d h = ground arith

members_after-Shows :
    (op : Op) (members : Option MembersState) (shown : Option MembersList)
    → Shows members shown
    → Shows (members_after op members) (last_list shown (sent op))
unfolding sent last_list
members_after-Shows (list m) members shown k = update_members-Shows members m
members_after-Shows (join u) members shown k = k
members_after-Shows (part u) members shown k = k
members_after-Shows (say u t) members shown k = k
members_after-Shows (add l) members shown k = k
members_after-Shows start members shown k = k
members_after-Shows (finish alive) members shown k = k

-- In every run of a room whose members are those that the reader of its events has, or unknown to
-- both: the events that go through the channel, taken out or still in it at the end, are those that
-- were in it and those of the run, one for every list of members, join, part and message, in order; and
-- the members at the end are those of the last list among the events of the run, by user or by
-- number, or the reader's where there was none.
pub Run-replay :
    {room last : RoomState} {ops : List Op} {ds : Deliveries} (run : Run room ops last ds)
    (shown : Option MembersList)
    → Shows room.members shown
    → (taken_in run ++ last.events ≡ room.events ++ sent_all ops)
      × Shows last.members (last_list shown (sent_all ops))
unfolding sent_all taken_in
Run-replay {room} stay shown h = (sym (append-nil room.events), unfold last_list in h)
Run-replay {room} {last} (go {next = next} {op = op} {ops = ops} {d = d} h rest) shown k =
    let seen = last_list shown (sent op) in
    let k' =
      subst (λ ms. Shows ms seen) (sym (apply-members_after op room next d h))
        (members_after-Shows op room.members shown k) in
    let (through, shows) = Run-replay rest seen k' in
    (
      append_assoc (took room.sending next.sending) (taken_in rest) last.events
          ∙ ap (λ es. took room.sending next.sending ++ es) through
          ∙ sym (append_assoc (took room.sending next.sending) next.events (sent_all ops))
          ∙ ap (λ es. es ++ sent_all ops) (apply-events op room next d h)
          ∙ append_assoc room.events (sent op) (sent_all ops),
      subst (Shows last.members) (sym (last_list-append shown (sent op) (sent_all ops))) shows,
    )
