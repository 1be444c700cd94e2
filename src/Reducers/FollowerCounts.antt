-- ===== src/Reducers/FollowerCounts.antt =====
-- The number of followers of an account as the user follows and unfollows it.
use mathlib.Core.Option
use mastodon.Prelude.{
  get-set, get-set_self, text_eq_iff, sym, ◌∙◌, false, ℕ, ◌+◌, ◌-◌, Text, text_eq, ◌≡◌, refl, ap,
  inl, inr, false, Option, none, some, Map, get, Bool-cases, arith,
}
use mastodon.Entities.{Status, Relationship}
use mastodon.Actions.{account_unfollow_success, account_follow_success}
use mastodon.Reducers.Accounts.{Counters, update_followers, accounts_counters}

up_and_down : (o : Option ℕ) → Option.map (λ n. n - 1) (Option.map (λ n. n + 1) o) ≡ o
up_and_down none = refl
up_and_down (some n) = ap some (omega arith)

get-update_known :
    (id : Text) (change : ℕ → ℕ) (state : Map Counters) (c : Counters)
    → get id state ≡ some c
    → get id (update_followers id change state)
      ≡ some (record c { followers_count = Option.map change c.followers_count })
unfolding update_followers
get-update_known id change state c e = rw e (get-set_self id _ state)

get-update_other :
    (id other : Text) (change : ℕ → ℕ) (state : Map Counters)
    → text_eq id other ≡ false
    → get other (update_followers id change state) ≡ get other state
unfolding update_followers
get-update_other id other change state differ = get-set id other _ state ∙ rw differ refl

-- Where the counters of the account are known, following it and then unfollowing it leaves the
-- counters of every account as they were.
accounts_counters-follow :
    (state : Map Counters) (relationship : Relationship) (list : Map Status) (c : Counters)
    (other : Text)
    → get relationship.id state ≡ some c
    → get other (
        accounts_counters
          (accounts_counters state (account_follow_success relationship false))
          (account_unfollow_success relationship list))
      ≡ get other state
unfolding accounts_counters
accounts_counters-follow state relationship list c other e =
    elim (Bool-cases (text_eq relationship.id other)) [
      | inl same ↦ rw (← (text_eq_iff relationship.id other).0 same) (
          get-update_known relationship.id (λ n. n - 1)
            (update_followers relationship.id (λ n. n + 1) state)
            (record c { followers_count = Option.map (λ n. n + 1) c.followers_count })
            (get-update_known relationship.id (λ n. n + 1) state c e)
          ∙ (ap (λ o. some (record c { followers_count = o })) (up_and_down c.followers_count)
              ∙ sym e))
      | inr differ ↦
          get-update_other relationship.id other (λ n. n - 1)
            (update_followers relationship.id (λ n. n + 1) state) differ
          ∙ get-update_other relationship.id other (λ n. n + 1) state differ
    ]
