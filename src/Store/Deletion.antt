-- ===== src/Store/Deletion.antt =====
-- What the store still knows of a deleted status.
use mathlib.Core.Option
use mastodon.Prelude.{
  Text, option_eq, ◌≡◌, refl, if◌then◌else◌, ◌≢◌, refl, false, Option, none, some, get, IfSome, All,
}
use mastodon.Timelines.{Timeline}
use mastodon.Notifications.{Item, item_and}
use mastodon.Contexts.{includes}
use mastodon.Contexts.Lookups.{replies_of}
use mastodon.Compose.State.{Compose}
use mastodon.Reducers.Statuses.{Statuses}
use mastodon.Reducers.Statuses
use mastodon.Store.{Store}

-- The statuses, the timelines, the notifications, the replies and the compose form do not hold the
-- id. Of the other parts of the store, such as the cards, the lists of favourites and of pins, the
-- accounts that reblogged a status, the report and the search results, nothing is said.
abbrev pub IsForgotten : Text → Store → Type 0
IsForgotten id store =
    (get id store.statuses_state ≡ none)
    × ((timeline : Text)
        → IfSome (λ (t : Timeline). All (λ item. option_eq item (some id) ≡ false) t.items)
            (get timeline store.timelines_state))
    × All (λ item. item_and (λ (i : Item). option_eq i.status (some id)) item ≡ false)
        store.notifications_state.items
    × (get id store.contexts_state.in_reply_tos ≡ none)
    × ((c : Text)
        → (get c store.contexts_state.in_reply_tos ≢ some id)
          × (includes (replies_of store.contexts_state c) id ≡ false))
    × (option_eq (some id) store.compose_state.in_reply_to ≡ false)

-- The form as it is left by a deletion.
abbrev left_form : Text → Compose → Compose
left_form id form =
    if option_eq (some id) form.in_reply_to then record form { in_reply_to = none } else form
