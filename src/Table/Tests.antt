-- ===== src/Table/Tests.antt =====
-- Concrete runs of a table of numbers, with an index by the number itself.
use minibot_rust.Base.{
  ℕ, zero, suc, ◌≤◌, get_elem?, true, false, [], ◌∷◌, some, none, ok, panic, ◌==◌, if◌then◌else◌,
  ◌≡◌, refl, arith,
}
use minibot_rust.Table.{
  ids_of, Rows, get, IndexStore, get_entries, check_add, check_update, update_entry,
}
use minibot_rust.Table.Index.{key_of, Ordered, IsIndex, select}
use minibot_rust.Table.Index.Lookup.{get_entries-select}
use minibot_rust.Table.Index.Rekey.{update_entry-panics}
use minibot_rust.Table.Core.{TableCore, apply_check, add, remove_row}
use minibot_rust.Table.Core.Keeps.{IsTable, add-IsTable, remove-IsTable}

abbrev rows : Rows ℕ
rows = (0, 9) ∷ (1, 5) ∷ []

abbrev by_value : IndexStore ℕ
by_value = record { accessor = λ v. v; entries = 1 ∷ 0 ∷ []; unique = false }

abbrev table : TableCore ℕ
table = record { next_id = 2; rows = rows; indexes = by_value ∷ [] }

-- The first entry is that of 5, the second that of 9.
by_value-first : (j b : ℕ) → get_elem? (1 ∷ 0 ∷ []) j ≡ some b → 5 ≤ key_of rows (λ v. v) b
unfolding get
by_value-first zero b e = ground arith
by_value-first (suc zero) b e = ground arith
by_value-first (suc (suc j)) b e = ground arith

by_value-Ordered : Ordered (key_of rows (λ v. v)) (1 ∷ 0 ∷ [])
unfolding get
by_value-Ordered zero j a b h at at' = ground (arith, by_value-first j b at')
by_value-Ordered (suc zero) zero a b h at at' = absurd (omega arith)
by_value-Ordered (suc zero) (suc zero) a b h at at' = ground arith
by_value-Ordered (suc zero) (suc (suc j)) a b h at at' = ground arith
by_value-Ordered (suc (suc i)) j a b h at at' = ground arith

by_value-IsIndex : IsIndex rows by_value
unfolding get
by_value-IsIndex = record { each_once = λ id. ground arith; in_order = by_value-Ordered }

table-IsTable : IsTable table
unfolding get ids_of
table-IsTable = record {
  each_id = λ id. ground arith;
  below = λ id h. ground arith;
  indexed = (by_value-IsIndex, tt);
}

get_entries-select_example :
    get_entries rows 9 by_value ≡ some (select (key_of rows (λ v. v)) 9 (1 ∷ 0 ∷ []))
get_entries-select_example = get_entries-select rows by_value 9 by_value-IsIndex

abbrev unique_value : IndexStore ℕ
unique_value = record by_value { unique = true }

unique_value-IsIndex : IsIndex rows unique_value
unique_value-IsIndex = record {
  each_once = by_value-IsIndex.each_once;
  in_order = by_value-Ordered;
}

update_entry-panics_example : update_entry ((0, 9) ∷ (1, 6) ∷ []) 1 5 by_value ≡ panic
unfolding get
update_entry-panics_example =
    update_entry-panics ((0, 9) ∷ (1, 6) ∷ []) by_value 1 5 6 refl (omega arith)

passes : apply_check (check_add rows 7) (by_value ∷ []) ≡ ok tt
unfolding apply_check check_add
passes = refl

add-IsTable_example :
    (next : TableCore ℕ) × (add 7 table ≡ ok (2, next))
    × IsTable next
    × ((j : ℕ) → get j next.rows ≡ (if 2 == j then some 7 else get j rows))
add-IsTable_example = add-IsTable 7 table table-IsTable (omega arith) passes

remove-IsTable_example :
    (next : TableCore ℕ) × (remove_row 1 table ≡ ok (5, next))
    × IsTable next
    × ((j : ℕ) → get j next.rows ≡ (if 1 == j then none else get j rows))
unfolding get
remove-IsTable_example = remove-IsTable 1 5 table table-IsTable refl

update_passes : apply_check (check_update rows 1 5) (by_value ∷ []) ≡ ok tt
unfolding apply_check check_update
update_passes = refl
