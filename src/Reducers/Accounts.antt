-- ===== src/Reducers/Accounts.antt =====
-- app/javascript/mastodon/reducers/accounts.js and accounts_counters.js: the accounts of the store,
-- without their counters, and the counters.
use mathlib.Core.Option
use mastodon.Prelude.{
  ℕ, ◌+◌, ◌-◌, Text, Option, none, some, List, [], ◌∷◌, if◌then◌else◌, Map, set, update,
}
use mastodon.Entities.{Account}
use mastodon.Actions.{
  Action, account_unfollow_success, account_import, accounts_import, account_follow_success,
}

-- An account without its counters.
pub record Profile : Type 0 where
  pub id : Text
  pub acct : Text

-- `none` stands for a counter that is missing or not a number.
pub record Counters : Type 0 where
  pub followers_count : Option ℕ
  pub following_count : Option ℕ
  pub statuses_count : Option ℕ

unfoldable pub normalize_account : Map Profile → Account → Map Profile
normalize_account state account =
    set account.id (record { id = account.id; acct = account.acct }) state

unfoldable pub normalize_accounts : Map Profile → List Account → Map Profile
unfolding normalize_account
normalize_accounts state [] = state
normalize_accounts state (account ∷ rest) =
    normalize_accounts (normalize_account state account) rest

unfoldable pub accounts : Map Profile → Action → Map Profile
unfolding normalize_account normalize_accounts
accounts state (account_import account) = normalize_account state account
accounts state (accounts_import list) = normalize_accounts state list
accounts state _ = state

unfoldable pub normalize_counters : Map Counters → Account → Map Counters
normalize_counters state account =
    set account.id
      (record {
        followers_count = some account.followers_count;
        following_count = some account.following_count;
        statuses_count = some account.statuses_count;
      })
      state

unfoldable pub normalize_all_counters : Map Counters → List Account → Map Counters
unfolding normalize_counters
normalize_all_counters state [] = state
normalize_all_counters state (account ∷ rest) =
    normalize_all_counters (normalize_counters state account) rest

abbrev pub no_counters : Counters
no_counters = record { followers_count = none; following_count = none; statuses_count = none }

-- `updateIn([id, 'followers_count'], change)`.
unfoldable pub update_followers : Text → (ℕ → ℕ) → Map Counters → Map Counters
update_followers id change state =
    update id no_counters
      (λ (c : Counters). record c { followers_count = Option.map change c.followers_count }) state

unfoldable pub accounts_counters : Map Counters → Action → Map Counters
unfolding normalize_counters normalize_all_counters update_followers
accounts_counters state (account_import account) = normalize_counters state account
accounts_counters state (accounts_import list) = normalize_all_counters state list
accounts_counters state (account_follow_success relationship already_following) =
    if already_following then state else update_followers relationship.id (λ n. n + 1) state
accounts_counters state (account_unfollow_success relationship list) =
    update_followers relationship.id (λ n. n - 1) state
accounts_counters state _ = state
