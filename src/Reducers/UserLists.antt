-- ===== src/Reducers/UserLists.antt =====
-- app/javascript/mastodon/reducers/user_lists.js: the lists of accounts. A reducer's result is
-- `none` where it throws, as it updates a list that was not fetched.
use mathlib.Core.Option
use mastodon.Prelude.{
  Text, text_eq, Option, none, some, List, [], ◌++◌, map, filter_not, Map, set, get_or,
}
use mastodon.Entities.{Account}
use mastodon.Actions.{
  Action, followers_fetch_success, followers_expand_success, following_fetch_success,
  following_expand_success, reblogs_fetch_success, favourites_fetch_success,
  follow_requests_fetch_success, follow_requests_expand_success, blocks_fetch_success,
  blocks_expand_success, mutes_fetch_success, mutes_expand_success,
  follow_request_authorize_success, follow_request_reject_success,
}

-- A list with the link to its next page; `items` is missing before the first page.
pub record UserList : Type 0 where
  pub next : Option Text
  pub items : Option (List Text)

pub record UserLists : Type 0 where
  pub followers : Map UserList
  pub following : Map UserList
  pub reblogged_by : Map (List Text)
  pub favourited_by : Map (List Text)
  pub follow_requests : UserList
  pub blocks : UserList
  pub mutes : UserList

abbrev pub no_list : UserList
no_list = record { next = none; items = none }

abbrev pub initial_state : UserLists
initial_state = record {
  followers = [];
  following = [];
  reblogged_by = [];
  favourited_by = [];
  follow_requests = no_list;
  blocks = no_list;
  mutes = no_list;
}

abbrev pub ids : List Account → List Text
ids accounts = map (λ (a : Account). a.id) accounts

unfoldable pub fetched : List Account → Option Text → UserList
fetched accounts next = record { next = next; items = some (ids accounts) }

unfoldable pub expanded : UserList → List Account → Option Text → Option UserList
expanded list accounts next =
    Option.map (λ items. record { next = next; items = some (items ++ ids accounts) }) list.items

unfoldable pub normalize_list : Map UserList → Text → List Account → Option Text → Map UserList
unfolding fetched
normalize_list lists id accounts next = set id (fetched accounts next) lists

unfoldable pub append_to_list :
    Map UserList → Text → List Account → Option Text → Option (Map UserList)
unfolding expanded
append_to_list lists id accounts next =
    Option.map (λ list. set id list lists) (expanded (get_or no_list id lists) accounts next)

unfoldable pub without_account : UserList → Text → Option UserList
without_account list id =
    Option.map (λ items. record list { items = some (filter_not (λ item. text_eq item id) items) })
      list.items

unfoldable pub user_lists : UserLists → Action → Option UserLists
unfolding fetched expanded normalize_list append_to_list without_account
user_lists state (followers_fetch_success id accounts next) =
    some (record state { followers = normalize_list state.followers id accounts next })
user_lists state (followers_expand_success id accounts next) =
    Option.map (λ lists. record state { followers = lists })
      (append_to_list state.followers id accounts next)
user_lists state (following_fetch_success id accounts next) =
    some (record state { following = normalize_list state.following id accounts next })
user_lists state (following_expand_success id accounts next) =
    Option.map (λ lists. record state { following = lists })
      (append_to_list state.following id accounts next)
user_lists state (reblogs_fetch_success id accounts) =
    some (record state { reblogged_by = set id (ids accounts) state.reblogged_by })
user_lists state (favourites_fetch_success id accounts) =
    some (record state { favourited_by = set id (ids accounts) state.favourited_by })
user_lists state (follow_requests_fetch_success accounts next) =
    some (record state { follow_requests = fetched accounts next })
user_lists state (follow_requests_expand_success accounts next) =
    Option.map (λ list. record state { follow_requests = list })
      (expanded state.follow_requests accounts next)
user_lists state (follow_request_authorize_success id) =
    Option.map (λ list. record state { follow_requests = list })
      (without_account state.follow_requests id)
user_lists state (follow_request_reject_success id) =
    Option.map (λ list. record state { follow_requests = list })
      (without_account state.follow_requests id)
user_lists state (blocks_fetch_success accounts next) =
    some (record state { blocks = fetched accounts next })
user_lists state (blocks_expand_success accounts next) =
    Option.map (λ list. record state { blocks = list }) (expanded state.blocks accounts next)
user_lists state (mutes_fetch_success accounts next) =
    some (record state { mutes = fetched accounts next })
user_lists state (mutes_expand_success accounts next) =
    Option.map (λ list. record state { mutes = list }) (expanded state.mutes accounts next)
user_lists state _ = some state
