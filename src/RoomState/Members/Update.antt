-- ===== src/RoomState/Members/Update.antt =====
-- crates/irc/src/room_state/room_state.rs: membership under `MembersState::update`.
use minibot_rust.Base.{
  true, not, List, [], ◌∷◌, Option, none, some, if◌then◌else◌, eq_bytes, eq_bytes_iff, ◌&&◌, ◌≡◌,
  ◌≢◌, refl, arith, Option-cases, ◌⊎◌, inl, inr,
}
use minibot_rust.RoomState.Members.{
  Str, UserState, Members, lookup, insert, remove, keys, contains, remove_name, MembersList,
  MembersState, add_members, drop_members, update_users, collect, update,
}

lookup-insert :
    (user asked : Str) (state : Option UserState) (members : Members)
    → lookup asked (insert user state members)
      ≡ (if eq_bytes user asked then some state else lookup asked members)
unfolding insert lookup
lookup-insert user asked state [] = refl
lookup-insert user asked state ((name, was) ∷ members) =
    let rest = lookup-insert user asked state members in
    ground (arith, rest, eq_bytes_iff name user, eq_bytes_iff name asked, eq_bytes_iff user asked)

lookup-remove :
    (user asked : Str) (members : Members)
    → lookup asked (remove user members)
      ≡ (if eq_bytes user asked then none else lookup asked members)
unfolding remove lookup
lookup-remove user asked [] = ground arith
lookup-remove user asked ((name, was) ∷ members) =
    let rest = lookup-remove user asked members in
    ground (arith, rest, eq_bytes_iff name user, eq_bytes_iff name asked, eq_bytes_iff user asked)

contains-remove_name :
    (k j : Str) (s : List Str) → contains j (remove_name k s) ≡ (contains j s && not (eq_bytes k j))
unfolding contains remove_name
contains-remove_name k j [] = refl
contains-remove_name k j (i ∷ s) =
    ground (arith, eq_bytes_iff k j, eq_bytes_iff i k, eq_bytes_iff i j, contains-remove_name k j s)

contains-keys : (k : Str) (m : Members) → contains k (keys m) ≡ true → lookup k m ≢ none
unfolding contains keys lookup
contains-keys k [] h = cc
contains-keys k ((j, w) ∷ m) h = ground (arith, contains-keys k m)

lookup-drop_members :
    (ds : List Str) (k : Str) (m : Members)
    → lookup k (drop_members ds m) ≡ (if contains k ds then none else lookup k m)
unfolding drop_members contains
lookup-drop_members [] k m = refl
lookup-drop_members (d ∷ ds) k m =
    ground (arith, lookup-drop_members ds k (remove d m), lookup-remove d k m)

-- What a member is known by: what was known, or nothing yet.
abbrev pub known : Option (Option UserState) → Option UserState
known none = none
known (some v) = v

lookup-add_members :
    (ns : List Str) (k : Str) (m : Members) (dropped : List Str)
    → lookup k (add_members ns m dropped).0
      ≡ (if contains k ns then some (known (lookup k m)) else lookup k m)
unfolding add_members contains
lookup-add_members [] k m dropped = refl
lookup-add_members (n ∷ ns) k m dropped = ground (
  arith,
  lookup-add_members ns k m (remove_name n dropped),
  lookup-add_members ns k (insert n none m) dropped,
  lookup-insert n k none m,
  eq_bytes_iff n k,
)

-- Of the users to be dropped, those that are listed are kept.
contains-add_members :
    (ns : List Str) (k : Str) (m : Members) (dropped : List Str)
    → (contains k dropped ≡ true → lookup k m ≢ none)
    → contains k (add_members ns m dropped).1 ≡ (contains k dropped && not (contains k ns))
unfolding add_members contains
contains-add_members [] k m dropped h = ground arith
contains-add_members (n ∷ ns) k m dropped h = elim (Option-cases (lookup n m)) [
  | inl e ↦ ground (
    arith,
    e,
    lookup-insert n k none m,
    eq_bytes_iff n k,
    contains-add_members ns k (insert n none m) dropped,
  )
  | inr e ↦ ground (
    arith,
    e.1,
    contains-remove_name n k dropped,
    eq_bytes_iff n k,
    contains-add_members ns k m (remove_name n dropped),
  )
]

keys-contains : (k : Str) (m : Members) → lookup k m ≢ none → contains k (keys m) ≡ true
unfolding contains keys lookup
keys-contains k [] h = ground arith
keys-contains k ((j, w) ∷ m) h = ground (arith, keys-contains k m)

pub lookup-update_users :
    (k : Str) (m : Members) (ns : List Str)
    → lookup k (update_users m ns) ≡ (if contains k ns then some (known (lookup k m)) else none)
unfolding update_users
lookup-update_users k m ns = ground (
  arith,
  lookup-drop_members (add_members ns m (keys m)).1 k (add_members ns m (keys m)).0,
  lookup-add_members ns k m (keys m),
  contains-add_members ns k m (keys m) (contains-keys k m),
  keys-contains k m,
)

-- What a state knows of the members: one with a count knows none by name, as its recent_users are
-- filled nowhere, and `update` does not read them.
abbrev pub by_name : MembersState → Members
by_name (MembersState.users members) = members
by_name (MembersState.lots state) = []

lookup-collect :
    (k : Str) (ns : List Str) (m : Members)
    → (lookup k m ≡ none) ⊎ (lookup k m ≡ some none)
    → lookup k (collect ns m) ≡ (if contains k ns then some none else lookup k m)
unfolding collect contains
lookup-collect k [] m h = refl
lookup-collect k (n ∷ ns) m h =
    ground
      (arith, lookup-insert n k none m, eq_bytes_iff n k, lookup-collect k ns (insert n none m))

pub lookup-collect_all :
    (k : Str) (ns : List Str)
    → lookup k (collect ns []) ≡ (if contains k ns then some none else none)
unfolding lookup
lookup-collect_all k ns = lookup-collect k ns [] (inl refl)

-- An update from a list of users gives a state of users by name. A user is a member in it exactly
-- when the list has it; one that was known by name before keeps what was known, and of the others
-- nothing is known.
pub update-users :
    (k : Str) (state : MembersState) (ns : List Str)
    → (m : Members) × (update state (MembersList.users ns) ≡ MembersState.users m)
      × (lookup k m ≡ (if contains k ns then some (known (lookup k (by_name state))) else none))
unfolding update
update-users k (MembersState.users members) ns =
    (update_users members ns, refl, lookup-update_users k members ns)
update-users k (MembersState.lots state) ns =
    (collect ns [], refl, unfold lookup in lookup-collect_all k ns)
