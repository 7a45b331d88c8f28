-- ===== src/RoomState/Members.antt =====
-- crates/irc/src/room_state/room_state.rs: `MembersState` and its update from a list of members.
-- A `BTreeMap<String, _>` is an association list and a `BTreeSet<String>` a list without
-- repetitions: the code asks them for nothing but membership.
pub mod Update
use minibot_rust.Base.{
  ℕ, Bool, true, false, not, List, [], ◌∷◌, ◌++◌, Option, none, some, if◌then◌else◌, eq_bytes, ◌||◌,
}

abbrev pub Str : Type 0
Str = List ℕ

pub record UserState : Type 0 where
  pub display_name : Str

abbrev pub Members : Type 0
Members = List (Str × Option UserState)

unfoldable pub lookup : Str → Members → Option (Option UserState)
lookup k [] = none
lookup k ((j, v) ∷ m) = if eq_bytes j k then some v else lookup k m

-- `VacantEntry::insert`, or the insertion of `collect`.
unfoldable pub insert : Str → Option UserState → Members → Members
insert k v [] = (k, v) ∷ []
insert k v ((j, w) ∷ m) = if eq_bytes j k then (j, v) ∷ m else (j, w) ∷ insert k v m

unfoldable pub remove : Str → Members → Members
remove k [] = []
remove k ((j, w) ∷ m) = let rest = remove k m in if eq_bytes j k then rest else (j, w) ∷ rest

unfoldable pub keys : Members → List Str
keys [] = []
keys ((j, w) ∷ m) = j ∷ keys m

unfoldable pub contains : Str → List Str → Bool
contains k [] = false
contains k (j ∷ s) = eq_bytes j k || contains k s

-- `BTreeSet::remove`.
unfoldable pub remove_name : Str → List Str → List Str
remove_name k [] = []
remove_name k (j ∷ s) = let rest = remove_name k s in if eq_bytes j k then rest else j ∷ rest

pub record BigRoomMembersState : Type 0 where
  pub num_members : ℕ
  pub recent_users : List (Str × UserState)

pub data MembersList : Type 0 where
  lots : ℕ → MembersList
  users : List Str → MembersList

pub data MembersState : Type 0 where
  lots : BigRoomMembersState → MembersState
  users : Members → MembersState

unfoldable pub new : MembersState
new = MembersState.users []

-- The loop over `new_members`: the members, and the users that are still to be dropped.
unfoldable pub add_members : List Str → Members → List Str → Members × List Str
add_members [] members dropped = (members, dropped)
add_members (n ∷ rest) members dropped =
    let occupied = add_members rest members (remove_name n dropped) in
    let vacant = add_members rest (insert n none members) dropped in
    elim (lookup n members) [ none ↦ vacant | some v ↦ occupied ]

unfoldable pub drop_members : List Str → Members → Members
drop_members [] members = members
drop_members (d ∷ rest) members = drop_members rest (remove d members)

unfoldable pub update_users : Members → List Str → Members
update_users members new_members =
    let (added, dropped) = add_members new_members members (keys members) in
    drop_members dropped added

unfoldable pub collect : List Str → Members → Members
collect [] m = m
collect (n ∷ rest) m = collect rest (insert n none m)

unfoldable pub update : MembersState → MembersList → MembersState
update (MembersState.users members) (MembersList.users new_members) =
    MembersState.users (update_users members new_members)
update (MembersState.users members) (MembersList.lots num_members) =
    MembersState.lots (record { num_members = num_members; recent_users = [] })
update (MembersState.lots state) (MembersList.lots num_members) =
    MembersState.lots (record state { num_members = num_members })
update (MembersState.lots state) (MembersList.users new_members) =
    MembersState.users (collect new_members [])

unfoldable pub from_list : MembersList → MembersState
from_list members_list = update new members_list
