-- ===== src/Reducers/Fetched.antt =====
-- app/javascript/mastodon/reducers/trends.js, cards.js and filters.js: what was fetched last.
use mastodon.Prelude.{Text, Bool, true, false, List, [], Map, set}
use mastodon.Actions.{
  Action, trends_fetch_request, trends_fetch_fail, trends_fetch_success, status_card_fetch_success,
  filters_fetch_success,
}

pub record Trends : Type 0 where
  pub items : List Text
  pub is_loading : Bool

abbrev pub initial_trends : Trends
initial_trends = record { items = []; is_loading = false }

unfoldable pub trends : Trends → Action → Trends
trends state trends_fetch_request = record state { is_loading = true }
trends state (trends_fetch_success hashtags) = record { items = hashtags; is_loading = false }
trends state trends_fetch_fail = record state { is_loading = false }
trends state _ = state

-- The URLs of the cards, by the id of their status.
unfoldable pub cards : Map Text → Action → Map Text
cards state (status_card_fetch_success id card) = set id card state
cards state _ = state

unfoldable pub filters : List Text → Action → List Text
filters state (filters_fetch_success phrases) = phrases
filters state _ = state
