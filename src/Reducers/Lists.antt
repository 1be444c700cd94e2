-- ===== src/Reducers/Lists.antt =====
-- app/javascript/mastodon/reducers/lists.js: the user's lists; `none` (false) stands for a list that
-- is known not to exist.
use mastodon.Prelude.{Option, none, some, List, [], ◌∷◌, Map, set}
use mastodon.Entities.{ListEntity}
use mastodon.Actions.{
  Action, list_fetch_success, list_create_success, list_update_success, lists_fetch_success,
  list_delete_success, list_fetch_fail,
}

abbrev pub Lists : Type 0
Lists = Map (Option ListEntity)

unfoldable pub normalize_list : Lists → ListEntity → Lists
normalize_list state list = set list.id (some list) state

unfoldable pub normalize_lists : Lists → List ListEntity → Lists
unfolding normalize_list
normalize_lists state [] = state
normalize_lists state (list ∷ rest) = normalize_lists (normalize_list state list) rest

unfoldable pub lists : Lists → Action → Lists
unfolding normalize_list normalize_lists
lists state (list_fetch_success list) = normalize_list state list
lists state (list_create_success list) = normalize_list state list
lists state (list_update_success list) = normalize_list state list
lists state (lists_fetch_success list) = normalize_lists state list
lists state (list_delete_success id) = set id none state
lists state (list_fetch_fail id status) = set id none state
lists state _ = state
