-- ===== src/Thunks/Blocks.antt =====
-- app/javascript/mastodon/actions/blocks.js and mutes.js: the accounts that the user blocks or mutes.
use mastodon.Prelude.{Text, codes, Option, none, some, List, [], map}
use mastodon.Actions.{Action}
use mastodon.Thunks.Message.{Message, Error, message, unread, unread_failure}
use mastodon.Thunks.Answers.{Kind, Method, request, FetchedAccount, account_of}
use mastodon.Thunks.Program.{Program, done, put, ask, dispatch, call}
use mastodon.Thunks.Pages.{next_path}
use mastodon.Thunks.AccountLists.{accounts_arrived}

abbrev pub fetch_blocks_request : Message
fetch_blocks_request = unread (codes "BLOCKS_FETCH_REQUEST")

abbrev pub fetch_blocks_success : List FetchedAccount → Option Text → Message
fetch_blocks_success accounts next =
    message (codes "BLOCKS_FETCH_SUCCESS")
      (Action.blocks_fetch_success (map account_of accounts) next)

abbrev pub fetch_blocks_fail : Error → Message
fetch_blocks_fail error = unread_failure (codes "BLOCKS_FETCH_FAIL") error

abbrev pub expand_blocks_request : Message
expand_blocks_request = unread (codes "BLOCKS_EXPAND_REQUEST")

abbrev pub expand_blocks_success : List FetchedAccount → Option Text → Message
expand_blocks_success accounts next =
    message (codes "BLOCKS_EXPAND_SUCCESS")
      (Action.blocks_expand_success (map account_of accounts) next)

abbrev pub expand_blocks_fail : Error → Message
expand_blocks_fail error = unread_failure (codes "BLOCKS_EXPAND_FAIL") error

unfoldable pub fetch_blocks : Program
unfolding accounts_arrived
fetch_blocks = put fetch_blocks_request (
    call (request Method.get (codes "/api/v1/blocks") []) Kind.accounts
      (accounts_arrived fetch_blocks_success) (λ error. dispatch (fetch_blocks_fail error)))

abbrev pub expand_blocks_from : Option Text → Program
expand_blocks_from none = done
expand_blocks_from (some url) = put expand_blocks_request (
    call (request Method.get url []) Kind.accounts (accounts_arrived expand_blocks_success)
      (λ error. dispatch (expand_blocks_fail error)))

unfoldable pub expand_blocks : Program
unfolding accounts_arrived
expand_blocks = ask (λ store. expand_blocks_from (next_path store.user_lists_state.blocks))

abbrev pub fetch_mutes_request : Message
fetch_mutes_request = unread (codes "MUTES_FETCH_REQUEST")

abbrev pub fetch_mutes_success : List FetchedAccount → Option Text → Message
fetch_mutes_success accounts next =
    message (codes "MUTES_FETCH_SUCCESS")
      (Action.mutes_fetch_success (map account_of accounts) next)

abbrev pub fetch_mutes_fail : Error → Message
fetch_mutes_fail error = unread_failure (codes "MUTES_FETCH_FAIL") error

abbrev pub expand_mutes_request : Message
expand_mutes_request = unread (codes "MUTES_EXPAND_REQUEST")

abbrev pub expand_mutes_success : List FetchedAccount → Option Text → Message
expand_mutes_success accounts next =
    message (codes "MUTES_EXPAND_SUCCESS")
      (Action.mutes_expand_success (map account_of accounts) next)

abbrev pub expand_mutes_fail : Error → Message
expand_mutes_fail error = unread_failure (codes "MUTES_EXPAND_FAIL") error

unfoldable pub fetch_mutes : Program
unfolding accounts_arrived
fetch_mutes = put fetch_mutes_request (
    call (request Method.get (codes "/api/v1/mutes") []) Kind.accounts
      (accounts_arrived fetch_mutes_success) (λ error. dispatch (fetch_mutes_fail error)))

abbrev pub expand_mutes_from : Option Text → Program
expand_mutes_from none = done
expand_mutes_from (some url) = put expand_mutes_request (
    call (request Method.get url []) Kind.accounts (accounts_arrived expand_mutes_success)
      (λ error. dispatch (expand_mutes_fail error)))

unfoldable pub expand_mutes : Program
unfolding accounts_arrived
expand_mutes = ask (λ store. expand_mutes_from (next_path store.user_lists_state.mutes))
