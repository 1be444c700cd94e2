-- ===== src/Thunks/Run.antt =====
-- The store with its middleware (app/javascript/mastodon/store/configureStore.js): how a program is
-- run, and how an answer is taken.
use mastodon.Prelude.{
  ℕ, ◌-◌, Text, codes, text_eq, truthy, Bool, true, false, ◌&&◌, ◌||◌, not, leb, Option, none, some,
  List, [], ◌∷◌, ◌++◌, length, if◌then◌else◌, drop, value_or,
}
use mastodon.Entities.{Alert}
use mastodon.Actions.{Action, alert_show}
use mastodon.Compose.State.{Env}
use mastodon.Store.{Store, reducer}
use mastodon.Thunks.Message.{Message, Error, thrown, Response}
use mastodon.Thunks.Answers.{Kind, Answer, Request}
use mastodon.Thunks.Program.{Program, done, put, ask, fetch}

-- A request without an answer yet.
pub data Job : Type 0 where
  job : Request → (kind : Kind) → (Answer kind → Program) → (Error → Program) → Job

-- The loading bar is told to show and to hide.
pub data Bar : Type 0 where
  show hide : Bar

pub record World : Type 0 where
  pub store : Store
  pub jobs : List Job
  pub bar : List Bar

-- What JavaScript's number formatting and the translated texts of an unexpected error are.
pub record Texts : Type 0 where
  pub decimal : ℕ → Text
  pub unexpected_title : Text
  pub unexpected_message : Text

-- A regular expression `suffix$`.
unfoldable pub ends_with : Text → Text → Bool
ends_with suffix kind =
    text_eq suffix (drop (length kind - length suffix) kind) && leb (length suffix) (length kind)

-- The order of the tests is that of loading_bar.js.
unfoldable pub bar_of : Message → List Bar
unfolding ends_with
bar_of m =
    if m.skip_loading
    then []
    else if ends_with (codes "REQUEST") m.kind
    then show ∷ []
    else if ends_with (codes "SUCCESS") m.kind || ends_with (codes "FAIL") m.kind
    then hide ∷ []
    else []

-- An empty error text of the server fails JavaScript's test.
unfoldable pub alert_of_response : Texts → Response → Alert
alert_of_response texts r = record {
  title = texts.decimal r.status;
  message = if truthy r.error then value_or [] r.error else r.status_text;
}

unfoldable pub show_alert_for_error : Texts → Error → Alert
unfolding alert_of_response
show_alert_for_error texts e = elim e.response [
  | none ↦ record { title = texts.unexpected_title; message = texts.unexpected_message }
  | some r ↦ alert_of_response texts r
]

abbrev pub reduce : Env → Option Action → Store → Option Store
reduce env none store = some store
reduce env (some action) store = reducer env store action

-- A failure without an error makes errors.js itself throw.
abbrev pub alert_error : Env → Texts → Option Error → Store → Option Store
alert_error env texts none store = none
alert_error env texts (some e) store = reducer env store (alert_show (show_alert_for_error texts e))

-- The store after errors.js.
unfoldable pub alerted : Env → Texts → Message → Store → Option Store
unfolding ends_with show_alert_for_error
alerted env texts m store =
    if not m.skip_alert && ends_with (codes "FAIL") m.kind
    then alert_error env texts m.error store
    else some store

abbrev pub and_then {ℓ} : {A : Type ℓ} → Option A → (A → Option A) → Option A
and_then none f = none
and_then (some a) f = f a

-- The store after one message: the alert comes first.
unfoldable pub dispatched : Env → Texts → Message → Store → Option Store
unfolding alerted
dispatched env texts m store = and_then (alerted env texts m store) (reduce env m.body)

-- Whether a program came to its end, or a reducer threw.
pub record Outcome : Type 0 where
  pub world : World
  pub completed : Bool

unfoldable pub run : Env → Texts → Program → World → Outcome
unfolding bar_of dispatched
run env texts done w = record { world = w; completed = true }
run env texts (put m p) w = elim (dispatched env texts m w.store) [
  | none ↦ record { world = record w { bar = w.bar ++ bar_of m }; completed = false }
  | some store ↦ run env texts p (record w { store = store; bar = w.bar ++ bar_of m })
]
run env texts (ask k) w = run env texts (k w.store) w
run env texts (fetch r kind ok failed p) w =
    run env texts p (record w { jobs = w.jobs ++ (job r kind ok failed ∷ []) })

pub data Result (kind : Kind) : Type 0 where
  answered : Answer kind → Result kind
  refused : Error → Result kind

-- An exception of the handler is caught by the one for errors.
unfoldable pub settle : Env → Texts → (Error → Program) → Outcome → Outcome
unfolding run
settle env texts failed o = elim o.completed [
  | true ↦ o
  | false ↦ run env texts (failed thrown) o.world
]

unfoldable pub resume :
    Env
    → Texts
    → (kind : Kind) → (Answer kind → Program)
    → (Error → Program)
    → Result kind
    → World
    → Outcome
unfolding run settle
resume env texts kind ok failed (answered a) w = settle env texts failed (run env texts (ok a) w)
resume env texts kind ok failed (refused e) w = run env texts (failed e) w

-- The oldest request is refused.
unfoldable pub refuse : Env → Texts → Error → World → Outcome
unfolding run
refuse env texts e w = elim w.jobs [
  | [] ↦ record { world = w; completed = true }
  | job r kind ok failed ∷ jobs ↦ run env texts (failed e) (record w { jobs = jobs })
]
