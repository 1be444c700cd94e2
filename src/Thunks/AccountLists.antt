-- ===== src/Thunks/AccountLists.antt =====
-- app/javascript/mastodon/actions/accounts.js: the followers of an account, and whom it follows.
use mastodon.Prelude.{Text, codes, Option, none, some, List, [], ◌++◌, map, get_or}
use mastodon.Actions.{Action}
use mastodon.Thunks.Message.{Message, Error, message, unread, unread_failure}
use mastodon.Thunks.Answers.{Kind, Method, request, FetchedAccount, account_of, Page}
use mastodon.Thunks.Program.{Program, done, put, ask, dispatch, call}
use mastodon.Thunks.Importer.{import_fetched_accounts}
use mastodon.Reducers.UserLists.{no_list}
use mastodon.Thunks.Pages.{next_path}
use mastodon.Thunks.Relations.{fetch_relationships}

abbrev pub fetch_followers_request : Text → Message
fetch_followers_request id = unread (codes "FOLLOWERS_FETCH_REQUEST")

abbrev pub fetch_followers_success : Text → List FetchedAccount → Option Text → Message
fetch_followers_success id accounts next =
    message (codes "FOLLOWERS_FETCH_SUCCESS")
      (Action.followers_fetch_success id (map account_of accounts) next)

abbrev pub fetch_followers_fail : Text → Error → Message
fetch_followers_fail id error = unread_failure (codes "FOLLOWERS_FETCH_FAIL") error

abbrev pub expand_followers_request : Text → Message
expand_followers_request id = unread (codes "FOLLOWERS_EXPAND_REQUEST")

abbrev pub expand_followers_success : Text → List FetchedAccount → Option Text → Message
expand_followers_success id accounts next =
    message (codes "FOLLOWERS_EXPAND_SUCCESS")
      (Action.followers_expand_success id (map account_of accounts) next)

abbrev pub expand_followers_fail : Text → Error → Message
expand_followers_fail id error = unread_failure (codes "FOLLOWERS_EXPAND_FAIL") error

abbrev pub fetch_following_request : Text → Message
fetch_following_request id = unread (codes "FOLLOWING_FETCH_REQUEST")

abbrev pub fetch_following_success : Text → List FetchedAccount → Option Text → Message
fetch_following_success id accounts next =
    message (codes "FOLLOWING_FETCH_SUCCESS")
      (Action.following_fetch_success id (map account_of accounts) next)

abbrev pub fetch_following_fail : Text → Error → Message
fetch_following_fail id error = unread_failure (codes "FOLLOWING_FETCH_FAIL") error

abbrev pub expand_following_request : Text → Message
expand_following_request id = unread (codes "FOLLOWING_EXPAND_REQUEST")

abbrev pub expand_following_success : Text → List FetchedAccount → Option Text → Message
expand_following_success id accounts next =
    message (codes "FOLLOWING_EXPAND_SUCCESS")
      (Action.following_expand_success id (map account_of accounts) next)

abbrev pub expand_following_fail : Text → Error → Message
expand_following_fail id error = unread_failure (codes "FOLLOWING_EXPAND_FAIL") error

-- A page of accounts: they are imported, the list takes them, and their relationships are asked for.
unfoldable pub accounts_arrived :
    (List FetchedAccount → Option Text → Message) → Page FetchedAccount → Program
unfolding fetch_relationships
accounts_arrived success page = put (import_fetched_accounts page.entries) (
    put (success page.entries page.next)
      (fetch_relationships (map (λ a. (account_of a).id) page.entries)))

abbrev pub followers_path : Text → Text
followers_path id = codes "/api/v1/accounts/" ++ (id ++ codes "/followers")

abbrev pub following_path : Text → Text
following_path id = codes "/api/v1/accounts/" ++ (id ++ codes "/following")

unfoldable pub fetch_followers : Text → Program
unfolding accounts_arrived
fetch_followers id = put (fetch_followers_request id) (
    call (request Method.get (followers_path id) []) Kind.accounts
      (accounts_arrived (fetch_followers_success id))
      (λ error. dispatch (fetch_followers_fail id error)))

abbrev pub expand_followers_from : Text → Option Text → Program
expand_followers_from id none = done
expand_followers_from id (some url) = put (expand_followers_request id) (
    call (request Method.get url []) Kind.accounts (accounts_arrived (expand_followers_success id))
      (λ error. dispatch (expand_followers_fail id error)))

unfoldable pub expand_followers : Text → Program
unfolding accounts_arrived
expand_followers id = ask (λ store.
    expand_followers_from id (next_path (get_or no_list id store.user_lists_state.followers)))

unfoldable pub fetch_following : Text → Program
unfolding accounts_arrived
fetch_following id = put (fetch_following_request id) (
    call (request Method.get (following_path id) []) Kind.accounts
      (accounts_arrived (fetch_following_success id))
      (λ error. dispatch (fetch_following_fail id error)))

abbrev pub expand_following_from : Text → Option Text → Program
expand_following_from id none = done
expand_following_from id (some url) = put (expand_following_request id) (
    call (request Method.get url []) Kind.accounts (accounts_arrived (expand_following_success id))
      (λ error. dispatch (expand_following_fail id error)))

unfoldable pub expand_following : Text → Program
unfolding accounts_arrived
expand_following id = ask (λ store.
    expand_following_from id (next_path (get_or no_list id store.user_lists_state.following)))
