-- ===== src/Table/Core/Keeps.antt =====
-- crates/server/src/util/table/table_core.rs: tables whose indexes fit their rows, under its
-- operations.
use minibot_rust.Base.{
  ℕ, ◌+◌, ◌-◌, ◌%◌, ◌^◌, ◌<◌, List, [], ◌∷◌, none, some, ok, assert, ensure, ◌==◌, if◌then◌else◌,
  ◌≡◌, ◌≢◌, refl, arith, All,
}
use minibot_rust.Table.{
  Rows, ids_of, get, insert, remove, IndexStore, Result, check_add, check_update, add_entry,
  update_entry, remove_entry,
}
use minibot_rust.Table.Core.{
  TableCore, new, contains_key, apply_check, apply, add, update, remove_row,
}
use minibot_rust.Table.Index.{IsIndex, count, present}
use minibot_rust.Table.Index.Upkeep.{add_entry-IsIndex, remove_entry-IsIndex, update_entry-IsIndex}
use minibot_rust.Table.Index.Changes.{get-insert, get-remove}

pub record IsTable {T : Type 0} (t : TableCore T) : Type 0 where
  pub each_id : (id : ℕ) → count id (ids_of t.rows) ≡ present (get id t.rows)
  pub below : (id : ℕ) → get id t.rows ≢ none → id < t.next_id
  pub indexed : All (IsIndex t.rows) t.indexes

module _ {T : Type 0} where
  count-ids_of-insert :
      (id j : ℕ) (v : T) (rows : Rows T)
      → count j (ids_of (insert id v rows))
        ≡ count j (ids_of rows) + (if id == j then 1 - present (get id rows) else 0)
  unfolding ids_of insert get
  count-ids_of-insert id j v [] = ground arith
  count-ids_of-insert id j v (row ∷ rows) = ground (arith, count-ids_of-insert id j v rows)

  count-ids_of-remove :
      (id j : ℕ) (rows : Rows T)
      → count j (ids_of (remove id rows)) ≡ (if id == j then 0 else count j (ids_of rows))
  unfolding ids_of remove
  count-ids_of-remove id j [] = ground arith
  count-ids_of-remove id j (row ∷ rows) = ground (arith, count-ids_of-remove id j rows)

  apply-All :
      (P Q : IndexStore T → Type 0) (change : IndexStore T → Result (IndexStore T))
      → ((i : IndexStore T) → P i → (next : IndexStore T) × (change i ≡ ok next) × Q next)
      → (is : List (IndexStore T)) → All P is
      → (nexts : List (IndexStore T)) × (apply change is ≡ ok nexts) × All Q nexts
  unfolding apply
  apply-All P Q change f [] h = ([], refl, tt)
  apply-All P Q change f (i ∷ is) h =
      let (next, e, q) = f i h.0 in
      let (nexts, es, qs) = apply-All P Q change f is h.1 in
      (next ∷ nexts, rw (e, es) refl, (q, qs))

  pub new-IsTable : IsTable {T = T} new
  unfolding new get ids_of
  new-IsTable = record { each_id = λ id. refl; below = λ id h. absurd (h refl); indexed = tt }

  -- In a table whose indexes fit its rows, while there are ids left, a row that passes the checks
  -- of all indexes is added under the next id without an error or a panic: it is there, every other
  -- id has the row that it had, and the indexes fit the rows again.
  pub add-IsTable :
      (value : T) (t : TableCore T)
      → IsTable t
      → t.next_id + 1 < 2 ^ 64
      → apply_check (check_add t.rows value) t.indexes ≡ ok tt
      → (next : TableCore T) × (add value t ≡ ok (t.next_id, next))
        × IsTable next
        × ((j : ℕ) → get j next.rows ≡ (if t.next_id == j then some value else get j t.rows))
  unfolding add contains_key
  add-IsTable value t h b passed =
      let fresh : get t.next_id t.rows ≡ none = ground (arith, h.below t.next_id) in
      let rows' = insert t.next_id value t.rows in
      let (indexes, applied, fit) =
        apply-All (IsIndex t.rows) (IsIndex rows') (add_entry rows' t.next_id)
          (λ i fits. add_entry-IsIndex t.rows i t.next_id value fits fresh) t.indexes h.indexed in
      let small : (t.next_id + 1) % 2 ^ 64 ≡ t.next_id + 1 = omega arith in
      (
        record { next_id = (t.next_id + 1) % 2 ^ 64; rows = rows'; indexes = indexes },
        rw (fresh, assert) (rw (passed, applied) refl),
        record {
          each_id = λ j. ground (
            arith,
            h.each_id j,
            fresh,
            count-ids_of-insert t.next_id j value t.rows,
            get-insert t.next_id j value t.rows,
          );
          below = λ id there.
              ground (arith, small, get-insert t.next_id id value t.rows, h.below id, there);
          indexed = fit;
        },
        λ j. get-insert t.next_id j value t.rows,
      )

  -- In a table whose indexes fit its rows, a row that is there is removed and given back without an
  -- error or a panic: its id has no row then, every other id has the row that it had, and the
  -- indexes fit the rows again.
  pub remove-IsTable :
      (id : ℕ) (value : T) (t : TableCore T)
      → IsTable t
      → get id t.rows ≡ some value
      → (next : TableCore T) × (remove_row id t ≡ ok (value, next))
        × IsTable next
        × ((j : ℕ) → get j next.rows ≡ (if id == j then none else get j t.rows))
  unfolding remove_row contains_key
  remove-IsTable id value t h is =
      let (indexes, applied, fit) =
        apply-All (IsIndex t.rows) (IsIndex (remove id t.rows)) (remove_entry t.rows id)
          (λ i fits. remove_entry-IsIndex t.rows i id value fits is) t.indexes h.indexed in
      (
        record t { rows = remove id t.rows; indexes = indexes },
        rw (is, ensure) (rw applied refl),
        record {
          each_id = λ j.
              ground (arith, h.each_id j, count-ids_of-remove id j t.rows, get-remove id j t.rows);
          below = λ j there. ground (arith, get-remove id j t.rows, h.below j, there);
          indexed = fit;
        },
        λ j. get-remove id j t.rows,
      )

  abbrev pub SameKey : T → T → IndexStore T → Type 0
  SameKey old value i = i.accessor old ≡ i.accessor value

  All-pair :
      (P Q : IndexStore T → Type 0) (is : List (IndexStore T))
      → All P is
      → All Q is
      → All (λ i. P i × Q i) is
  All-pair P Q [] h k = tt
  All-pair P Q (i ∷ is) h k = ((h.0, k.0), All-pair P Q is h.1 k.1)

  -- In a table whose indexes fit its rows, a row that is there is replaced without an error or a
  -- panic by one that has the same key in every index and passes the checks: the id has the new
  -- row, every other id the row that it had, and the indexes fit the rows again.
  pub update-IsTable :
      (id : ℕ) (old value : T) (t : TableCore T)
      → IsTable t
      → get id t.rows ≡ some old
      → All (SameKey old value) t.indexes
      → apply_check (check_update t.rows id value) t.indexes ≡ ok tt
      → (next : TableCore T) × (update id value t ≡ ok next)
        × IsTable next
        × ((j : ℕ) → get j next.rows ≡ (if id == j then some value else get j t.rows))
  unfolding update contains_key
  update-IsTable id old value t h is same passed =
      let rows' = insert id value t.rows in
      let (indexes, applied, fit) =
        apply-All (λ i. IsIndex t.rows i × SameKey old value i) (IsIndex rows')
          (update_entry rows' id old)
          (λ i fits. update_entry-IsIndex t.rows i id old value fits.0 is fits.1) t.indexes
          (All-pair (IsIndex t.rows) (SameKey old value) t.indexes h.indexed same) in
      (
        record t { rows = rows'; indexes = indexes },
        rw (is, ensure) (rw passed (rw applied refl)),
        record {
          each_id = λ j. ground (
            arith,
            h.each_id j,
            is,
            count-ids_of-insert id j value t.rows,
            get-insert id j value t.rows,
          );
          below = λ j there.
              ground (arith, get-insert id j value t.rows, h.below j, h.below id, is, there);
          indexed = fit;
        },
        λ j. get-insert id j value t.rows,
      )
