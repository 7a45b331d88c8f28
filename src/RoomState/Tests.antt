-- ===== src/RoomState/Tests.antt =====
-- Concrete runs of a room.
use minibot_rust.Base.{true, List, [], ◌∷◌, ◌++◌, some, none, ◌≡◌, refl, arith, if◌then◌else◌}
use minibot_rust.RoomState.Members.{
  Str, Members, MembersList, MembersState, lookup, contains, update,
}
use minibot_rust.RoomState.Members.Update.{known, update-users}
use minibot_rust.RoomState.Room.{
  RoomState, message, members_list_update, notify_members_list, notify_message, start_sending,
  finish_sending, hand_out, retain,
}
use minibot_rust.RoomState.Room.Replay.{
  Op, say, start, finish, apply, sent, sent_all, Run, stay, go, list, taken_in, last_list, Shows,
  Run-replay,
}
use minibot_rust.RoomState.Room.Listeners.{Registered, got, pending, Run-got}

abbrev ann : Str
ann = b'a' ∷ []

abbrev bob : Str
bob = b'b' ∷ []

abbrev present_ann : Members
present_ann = (ann, some (record { display_name = b'A' ∷ [] })) ∷ []

update-users_example :
    (m : Members) × (update (MembersState.users present_ann) (MembersList.users (bob ∷ ann ∷ []))
      ≡ MembersState.users m)
    × (lookup ann m
        ≡ (if contains ann (bob ∷ ann ∷ []) then some (known (lookup ann present_ann)) else none))
update-users_example = update-users ann (MembersState.users present_ann) (bob ∷ ann ∷ [])

-- A room with one listener.
abbrev room : RoomState
room = record { members = none; events = []; sinks = 1 ∷ []; sending = none }

abbrev said : RoomState
said = record room { events = message bob ann ∷ [] }

abbrev sending : RoomState
sending = record room { sinks = []; sending = some (message bob ann, 1 ∷ []) }

abbrev ops : List Op
ops = say bob ann ∷ start ∷ finish (λ _. true) ∷ []

run : Run room ops room ((1, message bob ann) ∷ [])
unfolding apply notify_message start_sending finish_sending hand_out retain
run = go {next = said} refl (go {next = sending} refl (go {next = room} refl stay))

-- Two lists of members, a delivery that begins, and a message.
abbrev first_list : MembersList
first_list = MembersList.users (bob ∷ ann ∷ [])

abbrev second_list : MembersList
second_list = MembersList.users (ann ∷ [])

abbrev listed : RoomState
listed = notify_members_list second_list (notify_members_list first_list room)

abbrev listed_ops : List Op
listed_ops = list first_list ∷ list second_list ∷ start ∷ say ann bob ∷ []

abbrev listed_end : RoomState
listed_end = notify_message ann bob (start_sending listed)

listed_run : Run room listed_ops listed_end []
unfolding apply
listed_run = go {d = []} refl (go {d = []} refl (go {d = []} refl (go {d = []} refl stay)))

Run-replay_example :
    (taken_in listed_run ++ listed_end.events
      ≡ members_list_update first_list ∷ members_list_update second_list ∷ message ann bob ∷ [])
    × Shows listed_end.members (some second_list)
unfolding sent_all sent last_list
Run-replay_example = Run-replay listed_run none tt

-- The first list is on its way, the rest is in the channel.
listed_taken : taken_in listed_run ≡ members_list_update first_list ∷ []
unfolding taken_in listed_run notify_members_list start_sending notify_message
listed_taken = refl

Run-got_example :
    Registered 1 room
    × (got 1 ((1, message bob ann) ∷ []) ++ pending 1 room ≡ pending 1 room ++ sent_all ops)
Run-got_example = Run-got 1 run (tt, (tt, (refl, tt))) (ground arith)
