-- ===== src/Thunks/Notifications.antt =====
-- app/javascript/mastodon/actions/notifications.js: a notification that arrives, and the pages of the
-- notifications column.
use mastodon.Prelude.{
  Text, codes, text_eq, Bool, ◌&&◌, not, Option, none, some, List, [], ◌∷◌, map, if◌then◌else◌,
  keep_if, is_empty, get, set,
}
use mastodon.Actions.{Action}
use mastodon.Thunks.Message.{Message, Error, message, unread, failure}
use mastodon.Thunks.Answers.{
  Kind, Method, request, Param, Fetched, FetchedNotification, account_of, notification_of, Page,
}
use mastodon.Thunks.Program.{Program, done, put, ask, dispatch, call, when, ◌>>◌}
use mastodon.Thunks.Importer.{
  import_fetched_accounts, import_fetched_account, import_fetched_status, import_fetched_statuses,
}
use mastodon.Thunks.Relations.{fetch_relationships}
use mastodon.Notifications.{Item}
use mastodon.Thunks.Timelines.{is_set, max_id}

abbrev pub expand_notifications_request : Message
expand_notifications_request =
    message (codes "NOTIFICATIONS_EXPAND_REQUEST") (Action.notifications_expand_request)

abbrev pub expand_notifications_success : List FetchedNotification → Option Text → Message
expand_notifications_success notifications next =
    message (codes "NOTIFICATIONS_EXPAND_SUCCESS")
      (Action.notifications_expand_success (map notification_of notifications) next)

abbrev pub expand_notifications_fail : Error → Message
expand_notifications_fail error =
    failure (codes "NOTIFICATIONS_EXPAND_FAIL") error (Action.notifications_expand_fail)

abbrev pub scroll_top_notifications : Bool → Message
scroll_top_notifications top =
    message (codes "NOTIFICATIONS_SCROLL_TOP") (Action.notifications_scroll_top top)

-- What the store does not keep: the settings of the notifications column, and whether the regular
-- expression of the filters matches the status of a mention.
pub record Shown : Type 0 where
  pub in_column : Bool
  pub sound : Bool
  pub filtered : Bool
  pub excluded : List Text

abbrev pub follows : List FetchedNotification → List Text
follows notifications =
    map (λ (n : FetchedNotification). (account_of n.account).id)
      (keep_if (λ (n : FetchedNotification). text_eq n.kind (codes "follow")) notifications)

-- Nothing is asked for where there is no new follower.
unfoldable pub fetch_related_relationships : List FetchedNotification → Program
unfolding fetch_relationships
fetch_related_relationships notifications =
    when (not (is_empty (follows notifications))) (fetch_relationships (follows notifications))

abbrev pub import_status : Option Fetched → Program
import_status none = done
import_status (some s) = import_fetched_status s

-- The sound and the desktop notification are left out; a notification that is not shown is only
-- heard.
unfoldable pub update_notifications : Shown → FetchedNotification → Program
unfolding fetch_related_relationships import_fetched_statuses ◌>>◌
update_notifications shown n =
    if shown.in_column
    then put (import_fetched_account n.account) (
        import_status n.status
        >> put
            (message (codes "NOTIFICATIONS_UPDATE")
              (Action.notifications_update (notification_of n)))
            (fetch_related_relationships (n ∷ [])))
    else when (shown.sound && not shown.filtered)
        (dispatch (unread (codes "NOTIFICATIONS_UPDATE_NOOP")))

-- The first item is a notification, or null for a gap: what is sent is that item, not its id.
abbrev pub first_param : Option Item → Param
first_param none = Param.null
first_param (some item) = Param.object

unfoldable pub since_first_item : List (Text × Param) → List (Option Item) → List (Text × Param)
since_first_item params [] = params
since_first_item params (item ∷ items) =
    if is_set (get (codes "max_id") params)
    then params
    else set (codes "since_id") (first_param item) params

-- `notifications.map(item => item.status).filter(status => !!status)`.
abbrev pub statuses_of : List FetchedNotification → List Fetched
statuses_of [] = []
statuses_of (n ∷ rest) = elim n.status [ none ↦ statuses_of rest | some s ↦ s ∷ statuses_of rest ]

unfoldable pub notifications_arrived : Program → Page FetchedNotification → Program
unfolding fetch_related_relationships import_fetched_statuses ◌>>◌
notifications_arrived after_it page =
    put (import_fetched_accounts (map (λ (n : FetchedNotification). n.account) page.entries)) (
      import_fetched_statuses (statuses_of page.entries)
      >> put (expand_notifications_success page.entries page.next)
          (fetch_related_relationships page.entries >> after_it))

unfoldable pub notifications_failed : Program → Error → Program
notifications_failed after_it error = put (expand_notifications_fail error) after_it

unfoldable pub expand_notifications : Shown → Option Text → Program → Program
unfolding since_first_item notifications_arrived notifications_failed
expand_notifications shown id after_it = ask (λ store.
    if store.notifications_state.is_loading
    then after_it
    else put expand_notifications_request (
        call
          (request Method.get (codes "/api/v1/notifications") (
            since_first_item (max_id id ∷ (codes "exclude_types", Param.texts shown.excluded) ∷ [])
              store.notifications_state.items))
          Kind.notifications (notifications_arrived after_it) (notifications_failed after_it)))

-- Nothing is done with the answer.
unfoldable pub clear_notifications : Program
clear_notifications = put (message (codes "NOTIFICATIONS_CLEAR") Action.notifications_clear) (
    call (request Method.post (codes "/api/v1/notifications/clear") []) Kind.nothing (λ _. done)
      (λ error. done))
