-- ===== src/Accounts/Ids.antt =====
-- crates/server/src/services/fake/account.rs: the ids of accounts.
use minibot_rust.Base.{
  ℕ, zero, suc, ◌+◌, ◌%◌, ◌^◌, ◌<◌, ◌≡◌, refl, sym, ap, subst, ◌∙◌, false, List, [], ◌∷◌, none,
  some, inl, inr, ok, bind-eq-ok, assert, not, unwrap, length, get_elem?, All, arith, ◌==◌,
  if◌then◌else◌, Option-cases,
}
use minibot_rust.Table
use minibot_rust.Table.{Rows, IndexStore, Result, get, check_add, add_entry, find_range, insert_at}
use minibot_rust.Table.Core.{TableCore, add, apply, apply_check, contains_key, add_index}
use minibot_rust.Table.Core
use minibot_rust.Table.Core.Keeps.{IsTable, new-IsTable, add-IsTable}
use minibot_rust.Table.Core.Indexing.{add_index-IsTable}
use minibot_rust.Accounts.{Account, Service, new, create_account, get_account, create_all}

module _ {T : Type 0} where
  -- No index asks for unique keys.
  abbrev AnyKeys : List (IndexStore T) → Type 0
  AnyKeys indexes = All (λ i. i.unique ≡ false) indexes

  apply_check-AnyKeys :
      (rows : Rows T) (value : T) (indexes : List (IndexStore T))
      → AnyKeys indexes
      → apply_check (check_add rows value) indexes ≡ ok tt
  unfolding apply_check check_add
  apply_check-AnyKeys rows value [] h = refl
  apply_check-AnyKeys rows value (i ∷ is) h =
      rw (h.0, check_add) (apply_check-AnyKeys rows value is h.1)

  add_entry-unique :
      (rows : Rows T) (id : ℕ) (store store' : IndexStore T)
      → add_entry rows id store ≡ ok store'
      → store'.unique ≡ store.unique
  unfolding add_entry
  add_entry-unique rows id store store' h =
      let (value, there, h1) = bind-eq-ok (unwrap (get id rows)) _ h in
      let (r, range, h2) =
        bind-eq-ok (unwrap (find_range rows (store.accessor value) store)) _ h1 in
      let (entries, put, h3) = bind-eq-ok (unwrap (insert_at r.1 id store.entries)) _ h2 in
      let same : store' ≡ record store { entries = entries } = cc in ap (λ s. s.unique) same

  apply-AnyKeys :
      (rows : Rows T) (id : ℕ) (indexes indexes' : List (IndexStore T))
      → apply (add_entry rows id) indexes ≡ ok indexes'
      → AnyKeys indexes
      → AnyKeys indexes'
  unfolding apply
  apply-AnyKeys rows id [] [] e h = tt
  apply-AnyKeys rows id [] (j ∷ js) e h = absurd cc
  apply-AnyKeys rows id (i ∷ is) js e h =
      let (i', added, e1) = bind-eq-ok (add_entry rows id i) _ e in
      let (is', rest, e2) = bind-eq-ok (apply (add_entry rows id) is) _ e1 in
      let same : i' ∷ is' ≡ js = cc in
      subst AnyKeys same
        (add_entry-unique rows id i i' added ∙ h.0, apply-AnyKeys rows id is is' rest h.1)

  add-next :
      (value : T) (t next : TableCore T)
      → add value t ≡ ok (t.next_id, next)
      → AnyKeys t.indexes
      → (next.next_id ≡ (t.next_id + 1) % 2 ^ 64) × AnyKeys next.indexes
  unfolding add
  add-next value t next e h =
      let (u, fresh, e1) = bind-eq-ok (assert (not (contains_key t.next_id t.rows))) _ e in
      let (v, passed, e2) = bind-eq-ok (apply_check (check_add t.rows value) t.indexes) _ e1 in
      let (is', added, e3) =
        bind-eq-ok (apply (add_entry (Table.insert t.next_id value t.rows) t.next_id) t.indexes) _
          e2 in
      let pair : ◌≡◌ {A = ℕ × TableCore T}
          (
            t.next_id,
            record {
              next_id = (t.next_id + 1) % 2 ^ 64;
              rows = Table.insert t.next_id value t.rows;
              indexes = is';
            },
          )
          (t.next_id, next) =
        cc in
      (
        sym (ap (λ p. (p.1).next_id) pair),
        subst AnyKeys (ap (λ p. (p.1).indexes) pair)
            (apply-AnyKeys (Table.insert t.next_id value t.rows) t.next_id t.indexes is' added h),
      )

-- The indexes of the store fit its rows, and ask for no unique keys.
abbrev pub IsStore : Service → Type 0
IsStore s = IsTable s × AnyKeys s.indexes

new-IsStore : IsStore new
unfolding new add_index Core.new
new-IsStore = (
  add_index-IsTable false (λ a. a.bot_account.user_id)
      (add_index false (λ a. a.streamer_account.user_id) Core.new)
      (add_index-IsTable false (λ a. a.streamer_account.user_id) Core.new new-IsTable),
  (refl, (refl, tt)),
)

-- A store that accounts were added to: they have the ids from the first one on, in order; the ids
-- before have what they had, and those behind nothing.
abbrev pub Holds : List Account → Service → Service → Type 0
Holds accts s next =
    IsStore next
    × (next.next_id ≡ s.next_id + length accts)
    × ((i : ℕ) → get (s.next_id + i) next.rows ≡ get_elem? accts i)
    × ((j : ℕ) → j < s.next_id → get j next.rows ≡ get j s.rows)

nothing-behind : (s : Service) (i : ℕ) → IsStore s → get (s.next_id + i) s.rows ≡ none
nothing-behind s i h = elim (Option-cases (get (s.next_id + i) s.rows)) [
  | inl nothing ↦ nothing
  | inr (a, there) ↦ absurd (omega (arith, (h.0).below (s.next_id + i) (λ e. cc)))
]

after_one :
    (next s : Service) (acct : Account) (i : ℕ)
    → ((j : ℕ) → get j next.rows ≡ (if s.next_id == j then some acct else get j s.rows))
    → get (s.next_id + i) s.rows ≡ none
    → get (s.next_id + i) next.rows ≡ get_elem? (acct ∷ []) i
after_one next s acct zero rows nothing = ground (arith, rows (s.next_id + 0))
after_one next s acct (suc i) rows nothing = ground (arith, rows (s.next_id + suc i), nothing)

create_account-Holds :
    (acct : Account) (s : Service)
    → IsStore s
    → s.next_id + 1 < 2 ^ 64
    → (next : Service) × (create_account acct s ≡ ok (s.next_id, next)) × Holds (acct ∷ []) s next
unfolding create_account
create_account-Holds acct s h room =
    let (next, added, fits, rows) =
      add-IsTable acct s h.0 room (apply_check-AnyKeys s.rows acct s.indexes h.1) in
    let step = add-next acct s next added h.1 in
    let nothing = nothing-behind s in
    (
      next,
      added,
      (
        (fits, step.1),
        omega (arith, step.0),
        λ i. after_one next s acct i rows (nothing-behind s i h),
        λ j before. ground (arith, rows j),
      ),
    )

-- `n` numbers from `a` on.
unfoldable pub numbers : ℕ → ℕ → List ℕ
numbers a zero = []
numbers a (suc n) = a ∷ numbers (a + 1) n

-- The accounts behind the first are found behind its id.
found_all :
    (s mid next : Service) (acct : Account) (accts : List Account)
    → mid.next_id ≡ s.next_id + 1
    → ((i : ℕ) → get (s.next_id + i) mid.rows ≡ get_elem? (acct ∷ []) i)
    → ((i : ℕ) → get (mid.next_id + i) next.rows ≡ get_elem? accts i)
    → ((j : ℕ) → j < mid.next_id → get j next.rows ≡ get j mid.rows)
    → (i : ℕ) → get (s.next_id + i) next.rows ≡ get_elem? (acct ∷ accts) i
found_all s mid next acct accts one found found' before' zero =
    before' (s.next_id + 0) (omega (arith, one)) ∙ found 0
found_all s mid next acct accts one found found' before' (suc i) =
    let shift : s.next_id + suc i ≡ mid.next_id + i = omega (arith, one) in rw shift (found' i)

create_all-Holds :
    (accts : List Account) (s : Service)
    → IsStore s
    → s.next_id + length accts < 2 ^ 64
    → (next : Service) × (create_all accts s ≡ ok (numbers s.next_id (length accts), next))
      × Holds accts s next
unfolding create_all numbers
create_all-Holds [] s h room =
    (s, refl, (h, omega arith, λ i. nothing-behind s i h, λ j before. refl))
create_all-Holds (acct ∷ accts) s h room =
    let (mid, made, (kept, follows, found, before)) = create_account-Holds acct s h (omega arith) in
    let one : mid.next_id ≡ s.next_id + 1 = follows in
    let (next, rest, (kept', follows', found', before')) =
      create_all-Holds accts mid kept (omega (arith, one)) in
    (
      next,
      rw (made, rest, one) refl,
      (
        kept',
        omega (arith, one, follows'),
        λ i. found_all s mid next acct accts one found found' before' i,
        λ j lower. before' j (omega (arith, one, lower)) ∙ before j lower,
      ),
    )

-- While there are ids left, accounts created one after the other in a new store get the ids from 0 on,
-- with no error and no panic; the store then gives for each of these ids the account that it was
-- given to, and none for any other id.
pub create_all-get_account :
    (accts : List Account) (i : ℕ)
    → length accts < 2 ^ 64
    → (next : Service) × (create_all accts new ≡ ok (numbers 0 (length accts), next))
      × (get_account i next ≡ ok (get_elem? accts i))
unfolding get_account new add_index Core.new
create_all-get_account accts i room =
    let (next, made, (kept, follows, found, before)) =
      create_all-Holds accts new new-IsStore (omega (arith, room)) in
    let shift : 0 + i ≡ i = omega arith in
    (next, made, ap (λ o. ok o) (subst (λ j. get j next.rows ≡ get_elem? accts i) shift (found i)))
