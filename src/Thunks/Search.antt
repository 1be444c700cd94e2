-- ===== src/Thunks/Search.antt =====
-- app/javascript/mastodon/actions/search.js.
use mastodon.Prelude.{Text, codes, true, List, [], ◌∷◌, map, if◌then◌else◌, is_empty}
use mastodon.Entities.{SearchResults}
use mastodon.Actions.{Action}
use mastodon.Thunks.Message.{Message, Error, message, unread, unread_failure}
use mastodon.Thunks.Answers.{
  Kind, Method, request, Param, FetchedAccount, Fetched, account_of, status_of,
}
use mastodon.Thunks.Program.{Program, done, put, ask, dispatch, call, ◌>>◌}
use mastodon.Thunks.Importer.{import_fetched_accounts, import_fetched_statuses}
use mastodon.Thunks.Relations.{fetch_relationships}
use mastodon.Entities.{SearchResults}

abbrev pub change_search : Text → Message
change_search value = message (codes "SEARCH_CHANGE") (Action.search_change value)

abbrev pub clear_search : Message
clear_search = message (codes "SEARCH_CLEAR") (Action.search_clear)

abbrev pub fetch_search_request : Message
fetch_search_request = unread (codes "SEARCH_FETCH_REQUEST")

abbrev pub fetch_search_fail : Error → Message
fetch_search_fail error = unread_failure (codes "SEARCH_FETCH_FAIL") error

abbrev pub show_search : Message
show_search = message (codes "SEARCH_SHOW") (Action.search_show)

abbrev pub fetch_search_success : SearchResults → Message
fetch_search_success results =
    message (codes "SEARCH_FETCH_SUCCESS") (Action.search_fetch_success results)

abbrev pub results_of : List FetchedAccount × (List Fetched × List Text) → SearchResults
results_of (accounts, (statuses, hashtags)) = record {
  accounts = map account_of accounts;
  statuses = map status_of statuses;
  hashtags = hashtags;
}

unfoldable pub results_arrived : List FetchedAccount × (List Fetched × List Text) → Program
unfolding import_fetched_statuses fetch_relationships ◌>>◌
results_arrived (accounts, (statuses, hashtags)) = put (import_fetched_accounts accounts) (
    import_fetched_statuses statuses
    >> put (fetch_search_success (results_of (accounts, (statuses, hashtags))))
        (fetch_relationships (map (λ a. (account_of a).id) accounts)))

unfoldable pub submit_search : Program
unfolding results_arrived
submit_search = ask (λ store.
    if is_empty store.search_state.value
    then done
    else put fetch_search_request (
        call
          (request Method.get (codes "/api/v2/search") (
            (codes "q", Param.text store.search_state.value)
            ∷ (codes "resolve", Param.flag true)
            ∷ []))
          Kind.search results_arrived (λ error. dispatch (fetch_search_fail error))))
