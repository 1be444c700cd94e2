-- ===== src/Reducers/Search.antt =====
-- app/javascript/mastodon/reducers/search.js: the search form and its results.
use mastodon.Prelude.{Text, Bool, true, false, Option, none, some, List, [], map}
use mastodon.Entities.{Account, Status}
use mastodon.Actions.{
  Action, compose_reply, compose_mention, compose_direct, search_change, search_clear, search_show,
  search_fetch_success,
}

pub record Results : Type 0 where
  pub accounts : List Text
  pub statuses : List Text
  pub hashtags : List Text

-- No results are an empty map.
pub record Search : Type 0 where
  pub value : Text
  pub submitted : Bool
  pub hidden : Bool
  pub results : Option Results

abbrev pub initial_state : Search
initial_state = record { value = []; submitted = false; hidden = false; results = none }

unfoldable pub search : Search → Action → Search
search state (search_change value) = record state { value = value }
search state search_clear = record state {
  value = [];
  results = none;
  submitted = false;
  hidden = false;
}
search state search_show = record state { hidden = false }
search state (compose_reply status) = record state { hidden = true }
search state (compose_mention account) = record state { hidden = true }
search state (compose_direct account) = record state { hidden = true }
search state (search_fetch_success results) = record state {
  results = some (record {
    accounts = map (λ (a : Account). a.id) results.accounts;
    statuses = map (λ (s : Status). s.id) results.statuses;
    hashtags = results.hashtags;
  });
  submitted = true;
}
search state _ = state
