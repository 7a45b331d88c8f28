-- ===== src/Table/Core.antt =====
-- crates/server/src/util/table/{table,table_core,index_set}.rs: the table with all its indexes. An
-- index that was dropped is skipped and forgotten, so the list holds the live ones.
pub mod Keeps
pub mod Indexing
use minibot_rust.Base.{
  ℕ, ◌+◌, ◌%◌, ◌^◌, Bool, true, false, not, List, [], ◌∷◌, ◌++◌, Option, none, some, Outcome, ok,
  err, panic, ◌>>=◌, ◌>>◌, unwrap, assert, ensure, is_empty, map, ltb, leb, if◌then◌else◌,
}
use minibot_rust.Table.{ids_of, sort_by}
use minibot_rust.Table.Index.{key_of}
use minibot_rust.Table.{
  Rows, get, insert, remove, Error, updated_nonexistent_entry, removing_nonexistent_id, IndexStore,
  Result, check_add, check_update, add_entry, update_entry, remove_entry, get_entries,
}

pub record TableCore (T : Type 0) : Type 0 where
  pub next_id : ℕ
  pub rows : Rows T
  pub indexes : List (IndexStore T)

unfoldable pub new : {T : Type 0} → TableCore T
new = record { next_id = 0; rows = []; indexes = [] }

module _ {T : Type 0} where
  unfoldable pub contains_key : ℕ → Rows T → Bool
  contains_key id rows = elim (get id rows) [ none ↦ false | some v ↦ true ]

  -- `IndexSet::apply` with a check, and with a change: the first error ends it.
  unfoldable pub apply_check :
      (IndexStore T → Result (Unit {0})) → List (IndexStore T) → Result (Unit {0})
  apply_check check [] = ok tt
  apply_check check (i ∷ is) = do check i; apply_check check is

  unfoldable pub apply :
      (IndexStore T → Result (IndexStore T)) → List (IndexStore T) → Result (List (IndexStore T))
  apply change [] = ok []
  apply change (i ∷ is) = do i' ← change i; is' ← apply change is; ok (i' ∷ is')

  -- `IndexStore::new`: the keys are those of rows that are there.
  unfoldable pub new_index : Rows T → Bool → (T → ℕ) → IndexStore T
  new_index rows unique accessor = record {
    accessor = accessor;
    entries = sort_by (key_of rows accessor) (ids_of rows);
    unique = unique;
  }

  unfoldable pub add_index : Bool → (T → ℕ) → TableCore T → TableCore T
  unfolding new_index
  add_index unique accessor t = record t {
    indexes = t.indexes ++ new_index t.rows unique accessor ∷ [];
  }

  unfoldable pub add : T → TableCore T → Result (ℕ × TableCore T)
  add value t = do
    assert (not (contains_key t.next_id t.rows))
    apply_check (check_add t.rows value) t.indexes
    indexes ← apply (add_entry (insert t.next_id value t.rows) t.next_id) t.indexes
    ok (
      t.next_id,
      record {
        next_id = (t.next_id + 1) % 2 ^ 64;
        rows = insert t.next_id value t.rows;
        indexes = indexes;
      },
    )

  unfoldable pub update : ℕ → T → TableCore T → Result (TableCore T)
  update id value t = do
    ensure (contains_key id t.rows) (updated_nonexistent_entry id)
    apply_check (check_update t.rows id value) t.indexes
    old ← unwrap (get id t.rows)
    indexes ← apply (update_entry (insert id value t.rows) id old) t.indexes
    ok (record t { rows = insert id value t.rows; indexes = indexes })

  -- `check_remove` lets every removal pass.
  unfoldable pub remove_row : ℕ → TableCore T → Result (T × TableCore T)
  remove_row id t = do
    ensure (contains_key id t.rows) (removing_nonexistent_id id)
    indexes ← apply (remove_entry t.rows id) t.indexes
    value ← unwrap (get id t.rows)
    ok (value, record t { rows = remove id t.rows; indexes = indexes })

  -- `Index::get_values`: the rows of the ids.
  unfoldable pub rows_of : Rows T → List ℕ → Result (List T)
  rows_of rows [] = ok []
  rows_of rows (id ∷ ids) = do v ← unwrap (get id rows); vs ← rows_of rows ids; ok (v ∷ vs)

  unfoldable pub get_values : TableCore T → ℕ → IndexStore T → Result (List T)
  get_values t k index = do ids ← unwrap (get_entries t.rows k index); rows_of t.rows ids
