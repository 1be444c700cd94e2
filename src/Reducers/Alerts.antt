-- ===== src/Reducers/Alerts.antt =====
-- app/javascript/mastodon/reducers/alerts.js: the alerts on the screen, oldest first.
use mastodon.Prelude.{ℕ, ◌+◌, Text, ◌==◌, List, [], ◌∷◌, ◌++◌, last_or, filter_not}
use mastodon.Actions.{Action, alert_show, alert_dismiss, alert_clear}

pub record Shown : Type 0 where
  pub key : ℕ
  pub title : Text
  pub message : Text

-- `state.size > 0 ? state.last().get('key') + 1 : 0`.
unfoldable pub next_key : List Shown → ℕ
next_key [] = 0
next_key (item ∷ items) = (last_or item items).key + 1

unfoldable pub alerts : List Shown → Action → List Shown
unfolding next_key
alerts state (alert_show alert) =
    state ++ (record { key = next_key state; title = alert.title; message = alert.message } ∷ [])
alerts state (alert_dismiss key) = filter_not (λ (item : Shown). item.key == key) state
alerts state alert_clear = []
alerts state _ = state
