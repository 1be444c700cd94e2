-- ===== src/Thunks/Alerts.antt =====
-- app/javascript/mastodon/actions/alerts.js.
use mastodon.Prelude.{Text, codes}
use mastodon.Actions.{Action}
use mastodon.Thunks.Message.{Message, Error, message}
use mastodon.Thunks.Run.{Texts, show_alert_for_error}
use mastodon.Reducers.Alerts.{Shown}

abbrev pub dismiss_alert : Shown → Message
dismiss_alert alert = message (codes "ALERT_DISMISS") (Action.alert_dismiss alert.key)

abbrev pub clear_alert : Message
clear_alert = message (codes "ALERT_CLEAR") Action.alert_clear

abbrev pub show_alert : Text → Text → Message
show_alert title words =
    message (codes "ALERT_SHOW") (Action.alert_show (record { title = title; message = words }))

-- `dispatch(showAlertForError(error))`.
abbrev pub alert_for : Texts → Error → Message
alert_for texts error =
    message (codes "ALERT_SHOW") (Action.alert_show (show_alert_for_error texts error))
