-- ===== src/Thunks/FollowRequests.antt =====
-- app/javascript/mastodon/actions/accounts.js: the requests to follow the user.
use mastodon.Prelude.{Text, codes, Option, none, some, List, [], ◌∷◌, ◌++◌, map}
use mastodon.Actions.{Action}
use mastodon.Thunks.Message.{Message, Error, message, unread, unread_failure}
use mastodon.Thunks.Answers.{Kind, Method, request, FetchedAccount, account_of}
use mastodon.Thunks.Program.{Program, done, put, ask, dispatch, call}
use mastodon.Thunks.Importer.{import_fetched_accounts}
use mastodon.Thunks.Pages.{next_path}
use Prim.Native.String.{String}

abbrev pub fetch_follow_requests_request : Message
fetch_follow_requests_request = unread (codes "FOLLOW_REQUESTS_FETCH_REQUEST")

abbrev pub fetch_follow_requests_success : List FetchedAccount → Option Text → Message
fetch_follow_requests_success accounts next =
    message (codes "FOLLOW_REQUESTS_FETCH_SUCCESS")
      (Action.follow_requests_fetch_success (map account_of accounts) next)

abbrev pub fetch_follow_requests_fail : Error → Message
fetch_follow_requests_fail error = unread_failure (codes "FOLLOW_REQUESTS_FETCH_FAIL") error

abbrev pub expand_follow_requests_request : Message
expand_follow_requests_request = unread (codes "FOLLOW_REQUESTS_EXPAND_REQUEST")

abbrev pub expand_follow_requests_success : List FetchedAccount → Option Text → Message
expand_follow_requests_success accounts next =
    message (codes "FOLLOW_REQUESTS_EXPAND_SUCCESS")
      (Action.follow_requests_expand_success (map account_of accounts) next)

abbrev pub expand_follow_requests_fail : Error → Message
expand_follow_requests_fail error = unread_failure (codes "FOLLOW_REQUESTS_EXPAND_FAIL") error

abbrev pub authorize_follow_request_request : Text → Message
authorize_follow_request_request id = unread (codes "FOLLOW_REQUEST_AUTHORIZE_REQUEST")

abbrev pub authorize_follow_request_success : Text → Message
authorize_follow_request_success id =
    message (codes "FOLLOW_REQUEST_AUTHORIZE_SUCCESS") (Action.follow_request_authorize_success id)

abbrev pub authorize_follow_request_fail : Text → Error → Message
authorize_follow_request_fail id error =
    unread_failure (codes "FOLLOW_REQUEST_AUTHORIZE_FAIL") error

abbrev pub reject_follow_request_request : Text → Message
reject_follow_request_request id = unread (codes "FOLLOW_REQUEST_REJECT_REQUEST")

abbrev pub reject_follow_request_success : Text → Message
reject_follow_request_success id =
    message (codes "FOLLOW_REQUEST_REJECT_SUCCESS") (Action.follow_request_reject_success id)

abbrev pub reject_follow_request_fail : Text → Error → Message
reject_follow_request_fail id error = unread_failure (codes "FOLLOW_REQUEST_REJECT_FAIL") error

unfoldable pub fetch_follow_requests : Program
fetch_follow_requests = put fetch_follow_requests_request (
    call (request Method.get (codes "/api/v1/follow_requests") []) Kind.accounts
      (λ page.
        put (import_fetched_accounts page.entries)
          (dispatch (fetch_follow_requests_success page.entries page.next)))
      (λ error. dispatch (fetch_follow_requests_fail error)))

abbrev pub expand_follow_requests_from : Option Text → Program
expand_follow_requests_from none = done
expand_follow_requests_from (some url) = put expand_follow_requests_request (
    call (request Method.get url []) Kind.accounts
      (λ page.
        put (import_fetched_accounts page.entries)
          (dispatch (expand_follow_requests_success page.entries page.next)))
      (λ error. dispatch (expand_follow_requests_fail error)))

unfoldable pub expand_follow_requests : Program
expand_follow_requests =
    ask (λ store. expand_follow_requests_from (next_path store.user_lists_state.follow_requests))

abbrev pub request_path : Text → String → Text
request_path id what = codes "/api/v1/follow_requests/" ++ (id ++ (47 ∷ codes what))

unfoldable pub authorize_follow_request : Text → Program
authorize_follow_request id = put (authorize_follow_request_request id) (
    call (request Method.post (request_path id "authorize") []) Kind.nothing
      (λ _. dispatch (authorize_follow_request_success id))
      (λ error. dispatch (authorize_follow_request_fail id error)))

unfoldable pub reject_follow_request : Text → Program
reject_follow_request id = put (reject_follow_request_request id) (
    call (request Method.post (request_path id "reject") []) Kind.nothing
      (λ _. dispatch (reject_follow_request_success id))
      (λ error. dispatch (reject_follow_request_fail id error)))
