-- ===== src/Thunks/Settings.antt =====
-- app/javascript/mastodon/actions/settings.js, columns.js, height_cache.js, dropdown_menu.js and
-- push_notifications.
use mastodon.Prelude.{ℕ, Text, codes, Bool, Option, [], ◌∷◌, if◌then◌else◌, ℤ}
use mastodon.Actions.{Action}
use mastodon.Thunks.Message.{Message, message}
use mastodon.Thunks.Answers.{Kind, Method, request, Param}
use mastodon.Thunks.Program.{Program, done, put, ask, dispatch, call, ◌>>◌}
use mastodon.Thunks.Run.{Texts}
use mastodon.Thunks.Alerts.{alert_for}

-- `saveSettings` puts this off: it runs once the settings have been left alone for a while, which is
-- the `save` of the other programs.
unfoldable pub debounced_save : Texts → Program
debounced_save texts = ask (λ store.
    if store.settings_state.saved
    then done
    else call (request Method.put (codes "/api/web/settings") ((codes "data", Param.object) ∷ []))
        Kind.nothing (λ _. dispatch (message (codes "SETTING_SAVE") Action.setting_save))
        (λ error. dispatch (alert_for texts error)))

unfoldable pub add_column : Program → Text → Option Text → Program
add_column save id list_id = put (message (codes "COLUMN_ADD") (Action.column_add id list_id)) save

unfoldable pub remove_column : Program → Text → Program
remove_column save uuid = put (message (codes "COLUMN_REMOVE") (Action.column_remove uuid)) save

unfoldable pub move_column : Program → Text → ℤ → Program
move_column save uuid direction =
    put (message (codes "COLUMN_MOVE") (Action.column_move uuid direction)) save

abbrev pub set_height : Text → Text → ℕ → Message
set_height key id height =
    message (codes "HEIGHT_CACHE_SET") (Action.height_cache_set key id height)

abbrev pub clear_height : Message
clear_height = message (codes "HEIGHT_CACHE_CLEAR") Action.height_cache_clear

abbrev pub open_dropdown_menu : ℕ → Text → Message
open_dropdown_menu id placement =
    message (codes "DROPDOWN_MENU_OPEN") (Action.dropdown_menu_open id placement)

abbrev pub close_dropdown_menu : ℕ → Message
close_dropdown_menu id = message (codes "DROPDOWN_MENU_CLOSE") (Action.dropdown_menu_close id)

abbrev pub set_browser_support : Bool → Message
set_browser_support value =
    message (codes "PUSH_NOTIFICATIONS_SET_BROWSER_SUPPORT") (Action.set_browser_support value)

abbrev pub clear_subscription : Message
clear_subscription =
    message (codes "PUSH_NOTIFICATIONS_CLEAR_SUBSCRIPTION") Action.clear_subscription

unfoldable pub set_alerts : Text → Bool → Program
set_alerts name value =
    dispatch (message (codes "PUSH_NOTIFICATIONS_SET_ALERTS") (Action.set_alerts name value))

unfoldable pub change_alerts : Program → Text → Bool → Program
unfolding set_alerts ◌>>◌
change_alerts save name value = set_alerts name value >> save
