-- ===== src/Accounts.antt =====
-- crates/server/src/services/base/account.rs and crates/server/src/services/fake/account.rs: the store
-- of accounts, over a table with two indexes. The index handles are the indexes of the table.
pub mod Ids
mod Tests
use minibot_rust.Base.{ℕ, false, List, [], ◌∷◌, Option, Outcome, ok, ◌>>=◌}
use minibot_rust.Table
use minibot_rust.Table.{Result}
use minibot_rust.Table.Core.{TableCore, add, add_index}
use minibot_rust.Table.Core

abbrev pub Text : Type 0
Text = List ℕ

pub record TwitchAccount : Type 0 where
  pub user_id : ℕ
  pub display_name : Text
  pub access_token : Text
  pub refresh_token : Text

pub record Account : Type 0 where
  pub streamer_account : TwitchAccount
  pub bot_account : TwitchAccount

-- `InMemoryAccountService`. Every error of the table is an internal error of the store.
abbrev pub Service : Type 0
Service = TableCore Account

unfoldable pub new : Service
unfolding add_index
new =
    add_index false (λ a. a.bot_account.user_id)
      (add_index false (λ a. a.streamer_account.user_id) Core.new)

unfoldable pub create_account : Account → Service → Result (ℕ × Service)
unfolding add
create_account acct s = add acct s

unfoldable pub get_account : ℕ → Service → Result (Option Account)
get_account id s = ok (Table.get id s.rows)

-- Accounts created one after the other: their ids, and the store.
unfoldable pub create_all : List Account → Service → Result (List ℕ × Service)
unfolding create_account
create_all [] s = ok ([], s)
create_all (acct ∷ accts) s = do
  made ← create_account acct s
  rest ← create_all accts made.1
  ok (made.0 ∷ rest.0, rest.1)
