-- ===== src/RoomState/Room.antt =====
-- crates/irc/src/room_state/room_state.rs (`RoomState`, `ConnectionState`), room_state/events.rs
-- and futures_util/{event_sink,simple_sender}.rs: a room sends its events to a channel, and the
-- task of its `EventSink` hands each one to the listeners. The lock is held for a moment before a
-- delivery and for a moment after it, so a delivery is two steps, and a listener may be added in
-- between.
-- The task holds the receiver of the channel as long as there is a sender, so a send does not fail.
pub mod Replay
pub mod Listeners
use minibot_rust.Base.{
  ℕ, Bool, true, false, List, [], ◌∷◌, ◌++◌, Option, none, some, if◌then◌else◌, eq_bytes,
}
use minibot_rust.RoomState.Members.{Str, MembersList, MembersState, from_list, update}

pub data RoomEvent : Type 0 where
  members_list_update : MembersList → RoomEvent
  user_joined : Str → RoomEvent
  user_left : Str → RoomEvent
  message : Str → Str → RoomEvent

-- `events` is what the channel holds, the oldest event first; `sinks` are the connected listeners
-- under the lock, by number, and `sending` the event on its way with the listeners it goes to.
pub record RoomState : Type 0 where
  pub members : Option MembersState
  pub events : List RoomEvent
  pub sinks : List ℕ
  pub sending : Option (RoomEvent × List ℕ)

pub new : RoomState
new = record { members = none; events = []; sinks = []; sending = none }

abbrev send_event : RoomEvent → RoomState → RoomState
send_event event room = record room { events = room.events ++ event ∷ [] }

unfoldable pub update_members : Option MembersState → MembersList → MembersState
update_members none members_list = from_list members_list
update_members (some members) members_list = update members members_list

unfoldable pub notify_members_list : MembersList → RoomState → RoomState
notify_members_list members_list room =
    let sent = send_event (members_list_update members_list) room in
    record sent { members = some (update_members room.members members_list) }

unfoldable pub notify_join_room : Str → RoomState → RoomState
notify_join_room user room = send_event (user_joined user) room

unfoldable pub notify_part_room : Str → RoomState → RoomState
notify_part_room user room = send_event (user_left user) room

unfoldable pub notify_message : Str → Str → RoomState → RoomState
notify_message user text room = send_event (message user text) room

-- None is a panic: `to_list` is a `todo!()`, called where the members are known.
unfoldable pub add_listener : ℕ → RoomState → Option RoomState
add_listener listener room = elim room.members [
  | none ↦ some (record room { sinks = room.sinks ++ listener ∷ [] })
  | some members ↦ none
]

-- The first half of a round of the task: the next event is taken, and all listeners.
unfoldable pub start_sending : RoomState → RoomState
start_sending room = elim room.sending [
  | some busy ↦ room
  | none ↦ elim room.events [
    | [] ↦ room
    | event ∷ rest ↦ record room { events = rest; sinks = []; sending = some (event, room.sinks) }
  ]
]

-- `retain(is_connected)` behind the delivery: `alive` says which of the receivers still take it.
unfoldable pub retain : (ℕ → Bool) → List ℕ → List ℕ
retain alive [] = []
retain alive (s ∷ rest) = let kept = retain alive rest in if alive s then s ∷ kept else kept

unfoldable pub hand_out : RoomEvent → List ℕ → List (ℕ × RoomEvent)
hand_out event [] = []
hand_out event (s ∷ rest) = (s, event) ∷ hand_out event rest

-- The second half: the event is delivered, and the listeners that took it go back, before those
-- that were added in the meantime. With the room comes what each listener got.
unfoldable pub finish_sending : (ℕ → Bool) → RoomState → RoomState × List (ℕ × RoomEvent)
finish_sending alive room = elim room.sending [
  | none ↦ (room, [])
  | some (event, taken) ↦ (
    record room { sinks = retain alive taken ++ room.sinks; sending = none },
    hand_out event (retain alive taken),
  )
]

-- `ConnectionState`: a map from the name of a room to the room.
abbrev pub Rooms : Type 0
Rooms = List (Str × RoomState)

unfoldable pub get_room : Str → Rooms → Option RoomState
get_room name [] = none
get_room name ((n, room) ∷ rest) = if eq_bytes n name then some room else get_room name rest

-- `ConnectionState::notify_join_room`.
unfoldable pub join : Str → Rooms → Rooms
unfolding get_room
join name rooms = elim (get_room name rooms) [ some room ↦ rooms | none ↦ (name, new) ∷ rooms ]
