-- ===== src/Reducers/Reports.antt =====
-- app/javascript/mastodon/reducers/reports.js: the report that the user writes.
use mastodon.Prelude.{
  Text, text_eq, option_eq, Bool, true, false, Option, none, some, List, [], ◌∷◌, ◌++◌,
  if◌then◌else◌, filter_not, any, set, value_or,
}
use mastodon.Entities.{Status}
use mastodon.Actions.{
  Action, report_init, report_submit_request, report_submit_success, report_submit_fail,
  report_cancel, report_status_toggle, report_comment_change, report_forward_change,
}

pub record Report : Type 0 where
  pub is_submitting : Bool
  pub account_id : Option Text
  pub status_ids : List Text
  pub comment : Text
  pub forward : Bool

abbrev pub initial_state : Report
initial_state = record {
  is_submitting = false;
  account_id = none;
  status_ids = [];
  comment = [];
  forward = false;
}

-- The set's `add` and `remove`.
unfoldable pub add : Text → List Text → List Text
add id set = if any (λ other. text_eq other id) set then set else set ++ (id ∷ [])

unfoldable pub remove_id : Text → List Text → List Text
remove_id id set = filter_not (λ other. text_eq other id) set

-- `status.getIn(['reblog', 'id'], status.get('id'))`.
unfoldable pub reported_id : Status → Text
reported_id status = value_or status.id status.reblog

unfoldable pub init : Report → Text → Option Status → Report
unfolding add reported_id
init state account_id none = record state {
  is_submitting = false;
  account_id = some account_id;
  status_ids = if option_eq state.account_id (some account_id) then state.status_ids else [];
  comment = if option_eq state.account_id (some account_id) then state.comment else [];
}
init state account_id (some status) = record state {
  is_submitting = false;
  account_id = some account_id;
  status_ids =
      if option_eq state.account_id (some account_id)
      then add (reported_id status) state.status_ids
      else reported_id status ∷ [];
  comment = if option_eq state.account_id (some account_id) then state.comment else [];
}

unfoldable pub cleared : Report → Report
cleared state = record state {
  account_id = none;
  status_ids = [];
  comment = [];
  is_submitting = false;
}

unfoldable pub reports : Report → Action → Report
unfolding init add remove_id cleared
reports state (report_init account_id status) = init state account_id status
reports state (report_status_toggle id true) = record state { status_ids = add id state.status_ids }
reports state (report_status_toggle id false) = record state {
  status_ids = remove_id id state.status_ids;
}
reports state (report_comment_change comment) = record state { comment = comment }
reports state (report_forward_change forward) = record state { forward = forward }
reports state report_submit_request = record state { is_submitting = true }
reports state report_submit_fail = record state { is_submitting = false }
reports state report_cancel = cleared state
reports state report_submit_success = cleared state
reports state _ = state
