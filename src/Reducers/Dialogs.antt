-- ===== src/Reducers/Dialogs.antt =====
-- app/javascript/mastodon/reducers/mutes.js, dropdown_menu.js and height_cache.js: the dialog that
-- mutes an account, the menu that is open, and the measured heights of statuses.
use mastodon.Prelude.{
  ℕ, Text, Bool, true, false, not, ◌==◌, Option, none, some, [], if◌then◌else◌, Map, set, update,
}
use mastodon.Actions.{
  Action, mutes_init_modal, mutes_toggle_hide_notifications, dropdown_menu_open,
  dropdown_menu_close, height_cache_set, height_cache_clear,
}

pub record Mute : Type 0 where
  pub is_submitting : Bool
  pub account : Option Text
  pub notifications : Bool

unfoldable pub mutes : Mute → Action → Mute
mutes state (mutes_init_modal account_id) = record {
  is_submitting = false;
  account = some account_id;
  notifications = true;
}
mutes state mutes_toggle_hide_notifications = record state {
  notifications = not state.notifications;
}
mutes state _ = state

pub record DropdownMenu : Type 0 where
  pub open_id : Option ℕ
  pub placement : Option Text

abbrev pub is_open : Option ℕ → ℕ → Bool
is_open none id = false
is_open (some other) id = other == id

unfoldable pub dropdown_menu : DropdownMenu → Action → DropdownMenu
dropdown_menu state (dropdown_menu_open id placement) = record {
  open_id = some id;
  placement = some placement;
}
dropdown_menu state (dropdown_menu_close id) =
    if is_open state.open_id id then record state { open_id = none } else state
dropdown_menu state _ = state

unfoldable pub height_cache : Map (Map ℕ) → Action → Map (Map ℕ)
height_cache state (height_cache_set key id height) = update key [] (set id height) state
height_cache state height_cache_clear = []
height_cache state _ = state
