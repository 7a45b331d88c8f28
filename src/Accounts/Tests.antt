-- ===== src/Accounts/Tests.antt =====
-- Concrete runs of the store of accounts.
use minibot_rust.Base.{ℕ, ◌+◌, ◌≡◌, [], ◌∷◌, some, ok, codes, arith}
use minibot_rust.Accounts.{TwitchAccount, Account, Service, new, get_account, create_all}
use minibot_rust.Accounts.Ids.{create_all-get_account, numbers}

abbrev twitch : ℕ → TwitchAccount
twitch n = record { user_id = n; display_name = codes "ada"; access_token = []; refresh_token = [] }

abbrev account : ℕ → Account
account n = record { streamer_account = twitch n; bot_account = twitch (n + 1) }

create_all-get_account_example :
    (next : Service) × (create_all (account 5 ∷ account 5 ∷ account 3 ∷ []) new
      ≡ ok (0 ∷ 1 ∷ 2 ∷ [], next))
    × (get_account 2 next ≡ ok (some (account 3)))
unfolding numbers
create_all-get_account_example =
    create_all-get_account (account 5 ∷ account 5 ∷ account 3 ∷ []) 2 (omega arith)
