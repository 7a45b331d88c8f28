-- ===== src/Table/Index/Upkeep.antt =====
-- crates/server/src/util/table/index_store.rs: `add_entry`, `update_entry` and `remove_entry`.
use minibot_rust.Base.{
  ℕ, ◌<◌, List, none, some, ◌≡◌, ◌≢◌, get_elem?, refl, arith, ◌⊎◌, inl, ok, unwrap,
}
use minibot_rust.Table.{
  Rows, get, insert, remove, IndexStore, add_entry, update_entry, remove_entry,
}
use minibot_rust.Table.Index.{key_of, present, count, Ordered, IsIndex}
use minibot_rust.Table.Index.Lookup.{Backed, IsIndex-Backed, inside-get_elem?}
use minibot_rust.Table.Index.Places.{put, cut, count-put, count-cut}
use minibot_rust.Table.Index.Changes.{
  get-insert, get-remove, cut-Ordered, Backed-cut, key, add_entry-put, take_out-cut,
}

-- A list of ids stays ordered when only the key of an id that is not in it changes.
Ordered-agree :
    (key key' : ℕ → ℕ) (xs : List ℕ)
    → ((i x : ℕ) → get_elem? xs i ≡ some x → key x ≡ key' x)
    → Ordered key xs
    → Ordered key' xs
Ordered-agree key key' xs same o i j a b h at at' =
    omega (arith, o i j a b h at at', same i a at, same j b at')

listed-present :
    {T : Type 0} (rows : Rows T) (store : IndexStore T) (id : ℕ) (v : T)
    → IsIndex rows store
    → get id rows ≡ some v
    → 0 < count id store.entries
listed-present rows store id v h is = let once = h.each_once id in ground (arith, is)

module _ {T : Type 0} (rows : Rows T) (store : IndexStore T) (id : ℕ) where
  abbrev acc : T → ℕ
  acc = store.accessor

  key-insert :
      (v : T) (x : ℕ)
      → (id ≢ x) ⊎ (key_of rows acc x ≡ acc v)
      → key_of rows acc x ≡ key_of (insert id v rows) acc x
  key-insert v x h = ground (arith, get-insert id x v rows)

  Backed-insert : (v : T) → IsIndex rows store → Backed (insert id v rows) store.entries
  Backed-insert v h i x at missing =
      let before = IsIndex-Backed rows store h i x at in
      ground (arith, get-insert id x v rows, before, missing)

  get-insert_self : (v : T) → get id (insert id v rows) ≡ some v
  get-insert_self v = ground (arith, get-insert id id v rows)

  -- A new row is indexed, without a panic.
  pub add_entry-IsIndex :
      (v : T)
      → IsIndex rows store
      → get id rows ≡ none
      → (next : IndexStore T) × (add_entry (insert id v rows) id store ≡ ok next)
        × IsIndex (insert id v rows) next
  add_entry-IsIndex v h fresh =
      let rows' = insert id v rows in
      let once = h.each_once id in
      let new_id : (i x : ℕ) → get_elem? store.entries i ≡ some x → id ≢ x =
        λ i x at e. ground (arith, inside-get_elem? store.entries i x at, once, fresh) in
      let o =
        Ordered-agree (key_of rows acc) (key_of rows' acc) store.entries
          (λ i x at. key-insert v x (inl (new_id i x at))) h.in_order in
      let (e, added, o') =
        add_entry-put rows' store id (Backed-insert v h) o
          (λ missing. cc (get-insert_self v, missing)) in
      (
        record store { entries = put e id store.entries },
        added,
        record {
          each_once = λ x. ground (
            arith,
            h.each_once x,
            once,
            fresh,
            count-put x e id store.entries,
            get-insert id x v rows,
          );
          in_order = o';
        },
      )

  -- A row that goes is taken out of the index, without a panic.
  pub remove_entry-IsIndex :
      (v : T)
      → IsIndex rows store
      → get id rows ≡ some v
      → (next : IndexStore T) × (remove_entry rows id store ≡ ok next)
        × IsIndex (remove id rows) next
  unfolding remove_entry
  remove_entry-IsIndex v h is =
      let own : key_of rows acc id ≡ acc v = rw (is, key_of) refl in
      let (n, taken, at) =
        take_out-cut rows store id (IsIndex-Backed rows store h) h.in_order
          (listed-present rows store id v h is) in
      let next : IndexStore T = record store { entries = cut n store.entries } in
      let once : (x : ℕ) → count x next.entries ≡ present (get x (remove id rows)) = λ x.
        ground
          (arith, h.each_once x, is, count-cut x n id store.entries at, get-remove id x rows) in
      let gone = once id in
      let same : (i x : ℕ)
          → get_elem? next.entries i ≡ some x
          → key_of rows acc x ≡ key_of (remove id rows) acc x =
        λ i x at'. ground (
          arith,
          gone,
          inside-get_elem? next.entries i x at',
          get-remove id id rows,
          get-remove id x rows,
        ) in
      (
        next,
        rw (is, unwrap) (rw (← own) taken),
        record {
          each_once = once;
          in_order =
              Ordered-agree (key_of rows acc) (key_of (remove id rows) acc) next.entries same
                (cut-Ordered (key_of rows acc) n store.entries h.in_order);
        },
      )

  -- A row that is replaced by one with the same key stays indexed, without a panic.
  pub update_entry-IsIndex :
      (old v : T)
      → IsIndex rows store
      → get id rows ≡ some old
      → acc old ≡ acc v
      → (next : IndexStore T) × (update_entry (insert id v rows) id old store ≡ ok next)
        × IsIndex (insert id v rows) next
  unfolding update_entry
  update_entry-IsIndex old v h is same =
      let rows' = insert id v rows in
      let key' = key_of rows' acc in
      let agree : (x : ℕ) → key_of rows acc x ≡ key' x =
        λ x. ground (arith, is, same, get-insert id x v rows) in
      let own : key' id ≡ acc old = ground (arith, get-insert_self v, same) in
      let o = Ordered-agree (key_of rows acc) key' store.entries (λ i x at. agree x) h.in_order in
      let backed = Backed-insert v h in
      let (n, taken, at) =
        take_out-cut rows' store id backed o (listed-present rows store id old h is) in
      let rest : IndexStore T = record store { entries = cut n store.entries } in
      let backed' = Backed-cut rows' n store.entries backed in
      let (e, added, o') =
        add_entry-put rows' rest id backed' (cut-Ordered key' n store.entries o)
          (λ missing. cc (get-insert_self v, missing)) in
      (
        record rest { entries = put e id rest.entries },
        rw (← own, taken) added,
        record {
          each_once = λ x. ground (
            arith,
            h.each_once x,
            is,
            count-cut x n id store.entries at,
            count-put x e id rest.entries,
            get-insert id x v rows,
          );
          in_order = o';
        },
      )
