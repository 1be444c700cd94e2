-- ===== src/Thunks/Favourites.antt =====
-- app/javascript/mastodon/actions/favourites.js and pin_statuses.js: the favourites and the pinned
-- statuses of the user.
use mastodon.Prelude.{
  Text, codes, Bool, true, false, Option, none, some, List, [], ◌∷◌, ◌++◌, map, if◌then◌else◌,
}
use mastodon.Actions.{Action}
use mastodon.Thunks.Message.{Message, Error, message, unread, failure, unread_failure}
use mastodon.Thunks.Answers.{Kind, Method, request, Param, Fetched, status_of, Page}
use mastodon.Thunks.Program.{Program, done, put, ask, dispatch, call, ◌>>◌}
use mastodon.Thunks.Importer.{import_fetched_statuses}

abbrev pub fetch_favourited_statuses_request : Message
fetch_favourited_statuses_request =
    message (codes "FAVOURITED_STATUSES_FETCH_REQUEST") (Action.favourited_statuses_fetch_request)

abbrev pub fetch_favourited_statuses_success : List Fetched → Option Text → Message
fetch_favourited_statuses_success statuses next =
    message (codes "FAVOURITED_STATUSES_FETCH_SUCCESS")
      (Action.favourited_statuses_fetch_success (map status_of statuses) next)

abbrev pub fetch_favourited_statuses_fail : Error → Message
fetch_favourited_statuses_fail error =
    failure (codes "FAVOURITED_STATUSES_FETCH_FAIL") error (Action.favourited_statuses_fetch_fail)

abbrev pub expand_favourited_statuses_request : Message
expand_favourited_statuses_request =
    message (codes "FAVOURITED_STATUSES_EXPAND_REQUEST") (Action.favourited_statuses_expand_request)

abbrev pub expand_favourited_statuses_success : List Fetched → Option Text → Message
expand_favourited_statuses_success statuses next =
    message (codes "FAVOURITED_STATUSES_EXPAND_SUCCESS")
      (Action.favourited_statuses_expand_success (map status_of statuses) next)

abbrev pub expand_favourited_statuses_fail : Error → Message
expand_favourited_statuses_fail error =
    failure (codes "FAVOURITED_STATUSES_EXPAND_FAIL") error (Action.favourited_statuses_expand_fail)

unfoldable pub favourites_arrived : (List Fetched → Option Text → Message) → Page Fetched → Program
unfolding import_fetched_statuses ◌>>◌
favourites_arrived success page =
    import_fetched_statuses page.entries >> dispatch (success page.entries page.next)

abbrev pub is_busy : Option Bool → Bool
is_busy none = false
is_busy (some b) = b

unfoldable pub fetch_favourited_statuses : Program
unfolding favourites_arrived
fetch_favourited_statuses = ask (λ store.
    if is_busy store.status_lists_state.favourites.is_loading
    then done
    else put fetch_favourited_statuses_request (
        call (request Method.get (codes "/api/v1/favourites") []) Kind.statuses
          (favourites_arrived fetch_favourited_statuses_success)
          (λ error. dispatch (fetch_favourited_statuses_fail error))))

abbrev pub expand_favourited_from : Option Text → Program
expand_favourited_from none = done
expand_favourited_from (some url) = put expand_favourited_statuses_request (
    call (request Method.get url []) Kind.statuses
      (favourites_arrived expand_favourited_statuses_success)
      (λ error. dispatch (expand_favourited_statuses_fail error)))

unfoldable pub expand_favourited_statuses : Program
unfolding favourites_arrived
expand_favourited_statuses = ask (λ store.
    if is_busy store.status_lists_state.favourites.is_loading
    then done
    else expand_favourited_from store.status_lists_state.favourites.next)

abbrev pub fetch_pinned_statuses_request : Message
fetch_pinned_statuses_request = unread (codes "PINNED_STATUSES_FETCH_REQUEST")

abbrev pub fetch_pinned_statuses_success : List Fetched → Option Text → Message
fetch_pinned_statuses_success statuses next =
    message (codes "PINNED_STATUSES_FETCH_SUCCESS")
      (Action.pinned_statuses_fetch_success (map status_of statuses) next)

abbrev pub fetch_pinned_statuses_fail : Error → Message
fetch_pinned_statuses_fail error = unread_failure (codes "PINNED_STATUSES_FETCH_FAIL") error

-- `me` is the user's id.
unfoldable pub fetch_pinned_statuses : Text → Program
unfolding import_fetched_statuses ◌>>◌
fetch_pinned_statuses me = put fetch_pinned_statuses_request (
    call
      (request Method.get (codes "/api/v1/accounts/" ++ (me ++ codes "/statuses"))
        ((codes "pinned", Param.flag true) ∷ []))
      Kind.statuses
      (λ page.
        import_fetched_statuses page.entries
        >> dispatch (fetch_pinned_statuses_success page.entries none))
      (λ error. dispatch (fetch_pinned_statuses_fail error)))
