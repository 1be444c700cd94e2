-- ===== src/Store.antt =====
-- The store of the web client, app/javascript/mastodon/reducers/index.js: every reducer gets every
-- action.
pub mod Deletion
pub mod Sample
mod Tests
use mastodon.Prelude.{Text, ℕ, ◌-◌, not, Option, none, some, List, Map}
use mastodon.Actions.{Action}
use mastodon.Timelines.{Timelines, timelines}
use mastodon.Notifications.{notifications}
use mastodon.Notifications
use mastodon.Contexts.{Contexts, contexts}
use mastodon.Compose.State.{Compose, Env}
use mastodon.Compose.{compose}
use mastodon.Reducers.Statuses.{Statuses, statuses}
use mastodon.Reducers.StatusLists.{StatusLists, status_lists}
use mastodon.Reducers.UserLists.{UserLists, user_lists}
use mastodon.Reducers.ListEditor.{ListEditor, list_editor}
use mastodon.Reducers.Lists.{Lists, lists}
use mastodon.Reducers.Alerts.{Shown, alerts}
use mastodon.Reducers.Settings.{Settings, settings}
use mastodon.Reducers.Reports.{Report, reports}
use mastodon.Reducers.Relationships.{Relationships, relationships}
use mastodon.Reducers.Accounts.{Profile, Counters, accounts, accounts_counters}
use mastodon.Reducers.Search.{Search, search}
use mastodon.Reducers.Dialogs.{Mute, DropdownMenu, mutes, dropdown_menu, height_cache}
use mastodon.Reducers.Fetched.{Trends, trends, cards, filters}
use mastodon.Reducers.PushNotifications.{PushNotifications, push_subscriptions}
use mastodon.Reducers.DomainLists.{Blocks, domain_lists}

pub record Store : Type 0 where
  pub timelines_state : Timelines
  pub notifications_state : Notifications.State
  pub contexts_state : Contexts
  pub compose_state : Compose
  pub statuses_state : Statuses
  pub status_lists_state : StatusLists
  pub user_lists_state : UserLists
  pub list_editor_state : ListEditor
  pub lists_state : Lists
  pub alerts_state : List Shown
  pub settings_state : Settings
  pub reports_state : Report
  pub relationships_state : Relationships
  pub accounts_state : Map Profile
  pub accounts_counters_state : Map Counters
  pub search_state : Search
  pub mutes_state : Mute
  pub dropdown_menu_state : DropdownMenu
  pub height_cache_state : Map (Map ℕ)
  pub domain_lists_state : Blocks
  pub trends_state : Trends
  pub cards_state : Map Text
  pub filters_state : List Text
  pub push_notifications_state : PushNotifications

-- Where one reducer throws, the action changes nothing: the new store is not taken.
unfoldable pub next_store :
    Env → Store → Action → Option Compose → Option UserLists → Option Settings → Option Store
next_store env store action none lists_of_users set = none
next_store env store action (some form) none set = none
next_store env store action (some form) (some lists_of_users) none = none
next_store env store action (some form) (some lists_of_users) (some set) = some (record {
  timelines_state = timelines store.timelines_state action;
  notifications_state = notifications store.notifications_state action;
  contexts_state = contexts store.contexts_state action;
  compose_state = form;
  statuses_state = statuses store.statuses_state action;
  status_lists_state = status_lists store.status_lists_state action;
  user_lists_state = lists_of_users;
  list_editor_state = list_editor store.list_editor_state action;
  lists_state = lists store.lists_state action;
  alerts_state = alerts store.alerts_state action;
  settings_state = set;
  reports_state = reports store.reports_state action;
  relationships_state = relationships store.relationships_state action;
  accounts_state = accounts store.accounts_state action;
  accounts_counters_state = accounts_counters store.accounts_counters_state action;
  search_state = search store.search_state action;
  mutes_state = mutes store.mutes_state action;
  dropdown_menu_state = dropdown_menu store.dropdown_menu_state action;
  height_cache_state = height_cache store.height_cache_state action;
  domain_lists_state = domain_lists store.domain_lists_state action;
  trends_state = trends store.trends_state action;
  cards_state = cards store.cards_state action;
  filters_state = filters store.filters_state action;
  push_notifications_state = push_subscriptions store.push_notifications_state action;
})

unfoldable pub reducer : Env → Store → Action → Option Store
unfolding next_store
reducer env store action =
    next_store env store action (compose env store.compose_state action)
      (user_lists store.user_lists_state action) (settings env.uuid store.settings_state action)
