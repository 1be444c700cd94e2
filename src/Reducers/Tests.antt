-- ===== src/Reducers/Tests.antt =====
-- Runs of the smaller reducers on concrete states.
use mastodon.Prelude.{
  ℕ, Text, codes, text_eq, ◌≡◌, refl, false, Option, none, some, List, [], ◌∷◌, pos, arith,
}
use mastodon.Entities.{Relationship, Alert, Column}
use mastodon.Actions.{follow_request_authorize_success, alert_show, alert_dismiss, report_init}
use mastodon.Reducers.Alerts.{Shown, alerts}
use mastodon.Reducers.AlertKeys.{IsAscending, alerts-IsAscending}
use mastodon.Reducers.Settings.{moved}
use mastodon.Reducers.Accounts.{Counters}
use mastodon.Reducers.UserLists.{user_lists, initial_state}
use mastodon.Reducers.Reports.{reports}

abbrev shown : ℕ → Shown
shown key = record { key = key; title = codes "t"; message = [] }

abbrev alert : Alert
alert = record { title = codes "t"; message = [] }

alert_after_dismissal :
    alerts (alerts (shown 0 ∷ shown 1 ∷ shown 2 ∷ []) (alert_dismiss 1)) (alert_show alert)
    ≡ shown 0 ∷ shown 2 ∷ shown 3 ∷ []
unfolding alerts
alert_after_dismissal = refl

alerts-IsAscending_example : IsAscending (alerts (shown 3 ∷ shown 5 ∷ []) (alert_show alert))
alerts-IsAscending_example =
    alerts-IsAscending (shown 3 ∷ shown 5 ∷ []) (alert_show alert) ((omega arith, tt), (tt, tt))

abbrev column : Text → Column
column id = record { id = id; uuid = id; list_id = none }

abbrev columns : List (Option Column)
columns = some (column (codes "a")) ∷ some (column (codes "b")) ∷ some (column (codes "c")) ∷ []

move_right :
    moved columns (codes "a") (pos 1)
    ≡ some (some (column (codes "b")) ∷ some (column (codes "a")) ∷ some (column (codes "c")) ∷ [])
unfolding moved text_eq
move_right = refl

abbrev counters : Counters
counters = record { followers_count = some 7; following_count = some 0; statuses_count = some 0 }

abbrev friend : Relationship
friend = record { id = codes "f"; muting_notifications = false; domain_blocking = false }

authorize_before_fetch :
    user_lists initial_state (follow_request_authorize_success (codes "1")) ≡ none
unfolding user_lists
authorize_before_fetch = refl

report_of_another_account :
    (reports
      (record {
        is_submitting = false;
        account_id = some (codes "1");
        status_ids = codes "5" ∷ [];
        comment = codes "spam";
        forward = false;
      })
      (report_init (codes "2") none)).status_ids
    ≡ []
unfolding reports text_eq
report_of_another_account = refl
