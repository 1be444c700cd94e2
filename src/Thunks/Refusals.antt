-- ===== src/Thunks/Refusals.antt =====
-- What the user is told when the server refuses what app/javascript/mastodon/actions/accounts.js
-- asks for.
use mastodon.Prelude.{
  ℕ, Text, text_eq, ◌≡◌, refl, Bool, true, Option, none, some, List, [], ◌∷◌, ◌++◌, if◌then◌else◌,
  truthy, value_or, Option-cases, inl, inr, arith,
}
use mastodon.Actions.{alert_show}
use mastodon.Compose.State.{Env}
use mastodon.Compose.{compose}
use mastodon.Reducers.UserLists.{user_lists}
use mastodon.Reducers.Alerts.{Shown, next_key, alerts}
use mastodon.Reducers.Settings.{settings}
use mastodon.Store.{Store, reducer}
use mastodon.Thunks.Message.{Response, Error, thrown}
use mastodon.Thunks.Program.{Program}
use mastodon.Thunks.Run.{
  World, Texts, Outcome, run, refuse, dispatched, alerted, bar_of, ends_with, show_alert_for_error,
  alert_of_response,
}
use mastodon.Thunks.Relations.{
  follow_account, unfollow_account, block_account, unblock_account, mute_account, unmute_account,
  pin_account, unpin_account,
}

abbrev pub idle : Store → World
idle store = record { store = store; jobs = []; bar = [] }

-- A program is started, and then its request is refused.
abbrev pub refused_after : Env → Texts → Program → Error → Store → Outcome
refused_after env texts p e store = refuse env texts e (run env texts p (idle store)).world

abbrev pub said_by : Text → Option Text → Text
said_by status none = status
said_by status (some []) = status
said_by status (some (c ∷ error)) = c ∷ error

-- What an error is to be told as, a title and a message: an answer of the server with its status
-- and, where it has one that is not empty, its error text, else its status text; no answer with the
-- texts for the unexpected.
abbrev pub said : Texts → Option Response → Text × Text
said texts none = (texts.unexpected_title, texts.unexpected_message)
said texts (some r) = (texts.decimal r.status, said_by r.status_text r.error)

-- The program completes, and one alert with this title and message has come after those that were
-- on the screen.
abbrev pub IsTold : Text × Text → Store → Outcome → Type 0
IsTold text store o =
    (o.completed ≡ true)
    × ((key : ℕ) × (o.world.store.alerts_state
          ≡ store.alerts_state ++ (record { key = key; title = text.0; message = text.1 } ∷ [])))

show_alert_for_error-said :
    (texts : Texts) (e : Error)
    → ((show_alert_for_error texts e).title ≡ (said texts e.response).0)
      × ((show_alert_for_error texts e).message ≡ (said texts e.response).1)
unfolding show_alert_for_error alert_of_response
show_alert_for_error-said texts e = elim (Option-cases e.response) [
  | inl n ↦ rw n (refl, refl)
  | inr (r, n) ↦ rw n (refl, by_error texts r)
]
  where
    by_error :
        (texts : Texts) (r : Response)
        → (if truthy r.error then value_or [] r.error else r.status_text)
          ≡ said_by r.status_text r.error
    by_error texts r = ground arith

alerts-said :
    (texts : Texts) (e : Error) (state : List Shown)
    → (key : ℕ) × (alerts state (alert_show (show_alert_for_error texts e))
        ≡ state
          ++ (record {
            key = key;
            title = (said texts e.response).0;
            message = (said texts e.response).1;
          }
              ∷ []))
unfolding alerts
alerts-said texts e state =
    let (title, message) = show_alert_for_error-said texts e in
    (next_key state, rw (← title, ← message) refl)

-- A refused follow, unfollow, pin or unpin of an account completes and puts one alert behind those on
-- the screen, with the status that the server answered and its error text, or the text of the status
-- where it has none, and if no answer came with the texts for the unexpected. A refused block,
-- unblock, mute or unmute is always told with those, whatever the server answered.
pub refused_after-IsTold :
    (env : Env) (texts : Texts) (id : Text) (reblogs already notifications : Bool) (e : Error)
    (store : Store)
    → IsTold
        (said texts e.response)
        store
        (refused_after env texts (follow_account id reblogs already) e store)
      × IsTold (said texts e.response) store (refused_after env texts (unfollow_account id) e store)
      × IsTold (said texts e.response) store (refused_after env texts (pin_account id) e store)
      × IsTold (said texts e.response) store (refused_after env texts (unpin_account id) e store)
      × IsTold (said texts none) store (refused_after env texts (block_account id) e store)
      × IsTold (said texts none) store (refused_after env texts (unblock_account id) e store)
      × IsTold
          (said texts none)
          store
          (refused_after env texts (mute_account id notifications) e store)
      × IsTold (said texts none) store (refused_after env texts (unmute_account id) e store)
unfolding run refuse dispatched alerted bar_of ends_with text_eq reducer compose user_lists settings
    follow_account unfollow_account pin_account unpin_account block_account unblock_account
    mute_account unmute_account
refused_after-IsTold env texts id reblogs already notifications e store = (
  (refl, alerts-said texts e store.alerts_state),
  (refl, alerts-said texts e store.alerts_state),
  (refl, alerts-said texts e store.alerts_state),
  (refl, alerts-said texts e store.alerts_state),
  (refl, alerts-said texts thrown store.alerts_state),
  (refl, alerts-said texts thrown store.alerts_state),
  (refl, alerts-said texts thrown store.alerts_state),
  (refl, alerts-said texts thrown store.alerts_state),
)
