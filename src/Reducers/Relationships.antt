-- ===== src/Reducers/Relationships.antt =====
-- app/javascript/mastodon/reducers/relationships.js: how the user relates to other accounts.
use mastodon.Prelude.{Text, Bool, true, false, Option, none, some, List, [], ◌∷◌, Map, set, update}
use mastodon.Entities.{Relationship}
use mastodon.Actions.{
  Action, account_block_success, account_mute_success, account_unfollow_success,
  account_follow_success, account_unblock_success, account_unmute_success, account_pin_success,
  account_unpin_success, relationships_fetch_success, domain_block_success, domain_unblock_success,
}

-- A relationship as the server sent it, if it did, and the flag that the client sets.
pub record Entry : Type 0 where
  pub body : Option Relationship
  pub domain_blocking : Option Bool

abbrev pub Relationships : Type 0
Relationships = Map Entry

abbrev pub no_entry : Entry
no_entry = record { body = none; domain_blocking = none }

unfoldable pub normalize_relationship : Relationships → Relationship → Relationships
normalize_relationship state relationship =
    set relationship.id
      (record { body = some relationship; domain_blocking = some relationship.domain_blocking })
      state

unfoldable pub normalize_relationships : Relationships → List Relationship → Relationships
unfolding normalize_relationship
normalize_relationships state [] = state
normalize_relationships state (relationship ∷ rest) =
    normalize_relationships (normalize_relationship state relationship) rest

unfoldable pub set_domain_blocking : Relationships → List Text → Bool → Relationships
set_domain_blocking state [] blocking = state
set_domain_blocking state (id ∷ accounts) blocking =
    set_domain_blocking
      (update id no_entry (λ (e : Entry). record e { domain_blocking = some blocking }) state)
      accounts blocking

unfoldable pub relationships : Relationships → Action → Relationships
unfolding normalize_relationship normalize_relationships set_domain_blocking
relationships state (account_follow_success relationship already) =
    normalize_relationship state relationship
relationships state (account_unfollow_success relationship list) =
    normalize_relationship state relationship
relationships state (account_block_success relationship list) =
    normalize_relationship state relationship
relationships state (account_unblock_success relationship) =
    normalize_relationship state relationship
relationships state (account_mute_success relationship list) =
    normalize_relationship state relationship
relationships state (account_unmute_success relationship) =
    normalize_relationship state relationship
relationships state (account_pin_success relationship) = normalize_relationship state relationship
relationships state (account_unpin_success relationship) = normalize_relationship state relationship
relationships state (relationships_fetch_success list) = normalize_relationships state list
relationships state (domain_block_success domain accounts) = set_domain_blocking state accounts true
relationships state (domain_unblock_success domain accounts) =
    set_domain_blocking state accounts false
relationships state _ = state
