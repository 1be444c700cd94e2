-- ===== src/Thunks/Reports.antt =====
-- app/javascript/mastodon/actions/reports.js, and the dialog of mutes.js.
use mastodon.Prelude.{Text, codes, Bool, Option, List, [], ◌∷◌}
use mastodon.Entities.{Status}
use mastodon.Actions.{Action}
use mastodon.Thunks.Message.{Message, Error, message, unread, failure}
use mastodon.Thunks.Answers.{Kind, Method, request, Param, optional}
use mastodon.Thunks.Program.{Program, put, ask, dispatch, call}
use mastodon.Entities.{Status}
use mastodon.Reducers.Reports.{Report}

abbrev pub cancel_report : Message
cancel_report = message (codes "REPORT_CANCEL") (Action.report_cancel)

abbrev pub toggle_status_report : Text → Bool → Message
toggle_status_report status_id checked =
    message (codes "REPORT_STATUS_TOGGLE") (Action.report_status_toggle status_id checked)

abbrev pub submit_report_request : Message
submit_report_request = message (codes "REPORT_SUBMIT_REQUEST") (Action.report_submit_request)

abbrev pub submit_report_fail : Error → Message
submit_report_fail error = failure (codes "REPORT_SUBMIT_FAIL") error (Action.report_submit_fail)

abbrev pub change_report_comment : Text → Message
change_report_comment comment =
    message (codes "REPORT_COMMENT_CHANGE") (Action.report_comment_change comment)

abbrev pub change_report_forward : Bool → Message
change_report_forward forward =
    message (codes "REPORT_FORWARD_CHANGE") (Action.report_forward_change forward)

abbrev pub submit_report_success : Message
submit_report_success = message (codes "REPORT_SUBMIT_SUCCESS") Action.report_submit_success

-- The dialogs are opened and closed by messages that none of the modelled reducers reads.
abbrev pub open_modal : Message
open_modal = unread (codes "MODAL_OPEN")

abbrev pub close_modal : Message
close_modal = unread (codes "MODAL_CLOSE")

unfoldable pub init_report : Text → Option Status → Program
init_report account_id status =
    put (message (codes "REPORT_INIT") (Action.report_init account_id status)) (dispatch open_modal)

abbrev pub report_params : Report → List (Text × Param)
report_params report =
    (codes "account_id", optional report.account_id)
    ∷ (codes "status_ids", Param.texts report.status_ids)
    ∷ (codes "comment", Param.text report.comment)
    ∷ (codes "forward", Param.flag report.forward)
    ∷ []

unfoldable pub submit_report : Program
submit_report = put submit_report_request (
    ask (λ store.
      call (request Method.post (codes "/api/v1/reports") (report_params store.reports_state))
        Kind.nothing (λ _. put close_modal (dispatch submit_report_success))
        (λ error. dispatch (submit_report_fail error))))

unfoldable pub init_mute_modal : Text → Program
init_mute_modal account_id =
    put (message (codes "MUTES_INIT_MODAL") (Action.mutes_init_modal account_id))
      (dispatch open_modal)

unfoldable pub toggle_hide_notifications : Program
toggle_hide_notifications =
    dispatch
      (message (codes "MUTES_TOGGLE_HIDE_NOTIFICATIONS") Action.mutes_toggle_hide_notifications)
