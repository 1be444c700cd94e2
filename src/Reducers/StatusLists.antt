-- ===== src/Reducers/StatusLists.antt =====
-- app/javascript/mastodon/reducers/status_lists.js: the favourites and the pinned statuses.
use mastodon.Prelude.{
  Text, text_eq, Bool, true, false, not, Option, none, some, List, [], ◌∷◌, ◌++◌, map, keep_if,
}
use mastodon.Entities.{Status}
use mastodon.Actions.{
  Action, favourite_success, unfavourite_success, pin_success, unpin_success,
  favourited_statuses_fetch_request, favourited_statuses_expand_request,
  favourited_statuses_fetch_fail, favourited_statuses_expand_fail,
  favourited_statuses_fetch_success, favourited_statuses_expand_success,
  pinned_statuses_fetch_success,
}

pub record StatusList : Type 0 where
  pub next : Option Text
  pub loaded : Bool
  pub is_loading : Option Bool
  pub items : List Text

pub record StatusLists : Type 0 where
  pub favourites : StatusList
  pub pins : StatusList

abbrev pub initial_list : StatusList
initial_list = record { next = none; loaded = false; is_loading = none; items = [] }

abbrev pub initial_state : StatusLists
initial_state = record { favourites = initial_list; pins = initial_list }

abbrev pub ids : List Status → List Text
ids statuses = map (λ (s : Status). s.id) statuses

unfoldable pub normalize_list : StatusList → List Status → Option Text → StatusList
normalize_list list statuses next = record list {
  next = next;
  loaded = true;
  is_loading = some false;
  items = ids statuses;
}

unfoldable pub append_to_list : StatusList → List Status → Option Text → StatusList
append_to_list list statuses next = record list {
  next = next;
  is_loading = some false;
  items = list.items ++ ids statuses;
}

unfoldable pub prepend_one_to_list : StatusList → Text → StatusList
prepend_one_to_list list id = record list { items = id ∷ list.items }

unfoldable pub remove_one_from_list : StatusList → Text → StatusList
remove_one_from_list list id = record list {
  items = keep_if (λ item. not (text_eq item id)) list.items;
}

unfoldable pub status_lists : StatusLists → Action → StatusLists
unfolding normalize_list append_to_list prepend_one_to_list remove_one_from_list
status_lists state favourited_statuses_fetch_request = record state {
  favourites = record state.favourites { is_loading = some true };
}
status_lists state favourited_statuses_expand_request = record state {
  favourites = record state.favourites { is_loading = some true };
}
status_lists state favourited_statuses_fetch_fail = record state {
  favourites = record state.favourites { is_loading = some false };
}
status_lists state favourited_statuses_expand_fail = record state {
  favourites = record state.favourites { is_loading = some false };
}
status_lists state (favourited_statuses_fetch_success statuses next) = record state {
  favourites = normalize_list state.favourites statuses next;
}
status_lists state (favourited_statuses_expand_success statuses next) = record state {
  favourites = append_to_list state.favourites statuses next;
}
status_lists state (favourite_success id) = record state {
  favourites = prepend_one_to_list state.favourites id;
}
status_lists state (unfavourite_success id) = record state {
  favourites = remove_one_from_list state.favourites id;
}
status_lists state (pinned_statuses_fetch_success statuses next) = record state {
  pins = normalize_list state.pins statuses next;
}
status_lists state (pin_success id) = record state { pins = prepend_one_to_list state.pins id }
status_lists state (unpin_success id) = record state { pins = remove_one_from_list state.pins id }
status_lists state _ = state
