-- ===== src/Reducers/DomainLists.antt =====
-- app/javascript/mastodon/reducers/domain_lists.js: the domains that the user blocks.
use mastodon.Prelude.{
  Text, text_eq, Option, none, List, [], ◌∷◌, ◌++◌, if◌then◌else◌, filter_not, any, set,
}
use mastodon.Actions.{
  Action, domain_unblock_success, domain_blocks_fetch_success, domain_blocks_expand_success,
}

pub record Blocks : Type 0 where
  pub items : List Text
  pub next : Option Text

abbrev pub initial_state : Blocks
initial_state = record { items = []; next = none }

-- The ordered set's `add`, and `union` with what follows.
unfoldable pub add : List Text → Text → List Text
add set domain = if any (λ other. text_eq other domain) set then set else set ++ (domain ∷ [])

unfoldable pub union : List Text → List Text → List Text
unfolding add
union set [] = set
union set (domain ∷ domains) = union (add set domain) domains

unfoldable pub domain_lists : Blocks → Action → Blocks
unfolding union
domain_lists state (domain_blocks_fetch_success domains next) = record {
  items = union [] domains;
  next = next;
}
domain_lists state (domain_blocks_expand_success domains next) = record {
  items = union state.items domains;
  next = next;
}
domain_lists state (domain_unblock_success domain accounts) = record state {
  items = filter_not (λ other. text_eq other domain) state.items;
}
domain_lists state _ = state
