-- ===== src/Thunks/Effects.antt =====
-- How a message changes the parts of the store, and which programs run to their end.
use mathlib.Core.Option.{none-ne-some, some-injective}
use mastodon.Prelude.{text_eq, text_eq, ◌≡◌, refl, sym, ap, Option, none, some, List, ◌++◌}
use mastodon.Actions.{Action}
use mastodon.Timelines.{timelines}
use mastodon.Compose.State.{Compose, Env}
use mastodon.Compose.{compose}
use mastodon.Reducers.UserLists.{UserLists, user_lists}
use mastodon.Reducers.Statuses.{statuses}
use mastodon.Reducers.Settings.{Settings, settings}
use mastodon.Store.{Store, next_store, reducer}
use mastodon.Thunks.Message.{Message}
use mastodon.Thunks.Answers.{Fetched}
use mastodon.Thunks.Program.{Program, put, ◌>>◌}
use mastodon.Thunks.Importer.{import_collected, import_fetched_statuses}
use mastodon.Thunks.Run.{World, Texts, run, dispatched, alerted, bar_of, ends_with}

next_store-timelines :
    (env : Env) (store next : Store) (action : Action) (form : Option Compose)
    (lists : Option UserLists) (set : Option Settings)
    → next_store env store action form lists set ≡ some next
    → next.timelines_state ≡ timelines store.timelines_state action
unfolding next_store
next_store-timelines env store next action none lists set e = absurd (none-ne-some next e)
next_store-timelines env store next action (some form) none set e = absurd (none-ne-some next e)
next_store-timelines env store next action (some form) (some lists) none e =
    absurd (none-ne-some next e)
next_store-timelines env store next action (some form) (some lists) (some set) e =
    ap (λ (s : Store). s.timelines_state) (sym (some-injective _ next e))

pub reducer-timelines :
    (env : Env) (store next : Store) (action : Action)
    → reducer env store action ≡ some next
    → next.timelines_state ≡ timelines store.timelines_state action
unfolding reducer
reducer-timelines env store next action e =
    next_store-timelines env store next action (compose env store.compose_state action)
      (user_lists store.user_lists_state action) (settings env.uuid store.settings_state action) e

next_store-statuses :
    (env : Env) (store next : Store) (action : Action) (form : Option Compose)
    (lists : Option UserLists) (set : Option Settings)
    → next_store env store action form lists set ≡ some next
    → next.statuses_state ≡ statuses store.statuses_state action
unfolding next_store
next_store-statuses env store next action none lists set e = absurd (none-ne-some next e)
next_store-statuses env store next action (some form) none set e = absurd (none-ne-some next e)
next_store-statuses env store next action (some form) (some lists) none e =
    absurd (none-ne-some next e)
next_store-statuses env store next action (some form) (some lists) (some set) e =
    ap (λ (s : Store). s.statuses_state) (sym (some-injective _ next e))

pub reducer-statuses :
    (env : Env) (store next : Store) (action : Action)
    → reducer env store action ≡ some next
    → next.statuses_state ≡ statuses store.statuses_state action
unfolding reducer
reducer-statuses env store next action e =
    next_store-statuses env store next action (compose env store.compose_state action)
      (user_lists store.user_lists_state action) (settings env.uuid store.settings_state action) e

-- A message that no reducer throws on is taken, and the program goes on.
pub run-put :
    (env : Env) (texts : Texts) (m : Message) (p : Program) (w : World) (next : Store)
    → dispatched env texts m w.store ≡ some next
    → run env texts (put m p) w
      ≡ run env texts p (record w { store = next; bar = w.bar ++ bar_of m })
unfolding run
run-put env texts m p w next e = rw (e, run) refl

-- An import ends, and leaves the timelines alone.
pub run-import :
    (env : Env) (texts : Texts) (statuses : List Fetched) (p : Program) (w : World)
    → (imported : World) × (run env texts (import_fetched_statuses statuses >> p) w
        ≡ run env texts p imported)
      × (imported.store.timelines_state ≡ w.store.timelines_state)
      × (imported.jobs ≡ w.jobs)
unfolding run dispatched alerted bar_of ends_with ◌>>◌ import_fetched_statuses import_collected
    reducer compose user_lists settings timelines text_eq
run-import env texts statuses p w = (_, refl, refl, refl)
