-- ===== src/Reducers/PushNotifications.antt =====
-- app/javascript/mastodon/reducers/push_notifications.js: the subscription of the browser.
use mastodon.Prelude.{
  Text, codes, Bool, true, false, Option, none, some, [], ◌∷◌, Map, set, value_or,
}
use mastodon.Actions.{
  Action, store_hydrate, clear_subscription, set_subscription, set_browser_support, set_alerts,
}

pub record Subscription : Type 0 where
  pub id : Text
  pub endpoint : Text

-- The setting of each alert, and whether the browser is subscribed and could be.
pub record PushNotifications : Type 0 where
  pub subscription : Option Subscription
  pub alerts : Map Bool
  pub is_subscribed : Bool
  pub browser_support : Bool

abbrev pub initial_state : PushNotifications
initial_state = record {
  subscription = none;
  alerts =
      (codes "follow", false)
      ∷ (codes "favourite", false)
      ∷ (codes "reblog", false)
      ∷ (codes "mention", false)
      ∷ [];
  is_subscribed = false;
  browser_support = false;
}

-- The path of SET_ALERTS is that of one alert.
unfoldable pub push_subscriptions : PushNotifications → Action → PushNotifications
push_subscriptions state (store_hydrate form none) = state
push_subscriptions state (store_hydrate form (some push)) = record state {
  subscription = some (record { id = push.id; endpoint = push.endpoint });
  alerts = value_or initial_state.alerts push.alerts;
  is_subscribed = true;
}
push_subscriptions state (set_subscription id endpoint alerts) = record state {
  subscription = some (record { id = id; endpoint = endpoint });
  alerts = alerts;
  is_subscribed = true;
}
push_subscriptions state (set_browser_support value) = record state { browser_support = value }
push_subscriptions state clear_subscription = initial_state
push_subscriptions state (set_alerts name value) = record state {
  alerts = set name value state.alerts;
}
push_subscriptions state _ = state
