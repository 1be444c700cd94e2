-- ===== src/Thunks/DomainBlocks.antt =====
-- app/javascript/mastodon/actions/domain_blocks.js: the domains that the user blocks.
use mastodon.Prelude.{Text, codes, Option, none, some, List, [], ◌∷◌, if◌then◌else◌, Map}
use mastodon.Actions.{Action}
use mastodon.Thunks.Message.{Message, Error, message, unread, unread_failure}
use mastodon.Thunks.Answers.{Kind, Method, request, Param}
use mastodon.Thunks.Program.{Program, done, put, ask, dispatch, call}
use mastodon.Reducers.Accounts.{Profile}
use mastodon.Thunks.Run.{ends_with}

abbrev pub block_domain_request : Text → Message
block_domain_request domain = unread (codes "DOMAIN_BLOCK_REQUEST")

abbrev pub block_domain_success : Text → List Text → Message
block_domain_success domain accounts =
    message (codes "DOMAIN_BLOCK_SUCCESS") (Action.domain_block_success domain accounts)

abbrev pub block_domain_fail : Text → Error → Message
block_domain_fail domain error = unread_failure (codes "DOMAIN_BLOCK_FAIL") error

abbrev pub unblock_domain_request : Text → Message
unblock_domain_request domain = unread (codes "DOMAIN_UNBLOCK_REQUEST")

abbrev pub unblock_domain_success : Text → List Text → Message
unblock_domain_success domain accounts =
    message (codes "DOMAIN_UNBLOCK_SUCCESS") (Action.domain_unblock_success domain accounts)

abbrev pub unblock_domain_fail : Text → Error → Message
unblock_domain_fail domain error = unread_failure (codes "DOMAIN_UNBLOCK_FAIL") error

abbrev pub fetch_domain_blocks_request : Message
fetch_domain_blocks_request = unread (codes "DOMAIN_BLOCKS_FETCH_REQUEST")

abbrev pub fetch_domain_blocks_success : List Text → Option Text → Message
fetch_domain_blocks_success domains next =
    message (codes "DOMAIN_BLOCKS_FETCH_SUCCESS") (Action.domain_blocks_fetch_success domains next)

abbrev pub fetch_domain_blocks_fail : Error → Message
fetch_domain_blocks_fail error = unread_failure (codes "DOMAIN_BLOCKS_FETCH_FAIL") error

abbrev pub expand_domain_blocks_request : Message
expand_domain_blocks_request = unread (codes "DOMAIN_BLOCKS_EXPAND_REQUEST")

abbrev pub expand_domain_blocks_success : List Text → Option Text → Message
expand_domain_blocks_success domains next =
    message (codes "DOMAIN_BLOCKS_EXPAND_SUCCESS")
      (Action.domain_blocks_expand_success domains next)

abbrev pub expand_domain_blocks_fail : Error → Message
expand_domain_blocks_fail error = unread_failure (codes "DOMAIN_BLOCKS_EXPAND_FAIL") error

-- The ids of the accounts whose address ends in `@domain`.
unfoldable pub accounts_of : Text → Map Profile → List Text
accounts_of domain [] = []
accounts_of domain ((key, account) ∷ accounts) =
    let rest = accounts_of domain accounts in
    if ends_with (64 ∷ domain) account.acct then account.id ∷ rest else rest

unfoldable pub block_domain : Text → Program
unfolding accounts_of
block_domain domain = put (block_domain_request domain) (
    call
      (request Method.post (codes "/api/v1/domain_blocks")
        ((codes "domain", Param.text domain) ∷ []))
      Kind.nothing
      (λ _.
        ask (λ store.
          dispatch (block_domain_success domain (accounts_of domain store.accounts_state))))
      (λ error. dispatch (block_domain_fail domain error)))

unfoldable pub unblock_domain : Text → Program
unfolding accounts_of
unblock_domain domain = put (unblock_domain_request domain) (
    call
      (request Method.delete (codes "/api/v1/domain_blocks")
        ((codes "domain", Param.text domain) ∷ []))
      Kind.nothing
      (λ _. ask (λ store.
        dispatch (unblock_domain_success domain (accounts_of domain store.accounts_state))))
      (λ error. dispatch (unblock_domain_fail domain error)))

unfoldable pub fetch_domain_blocks : Program
fetch_domain_blocks = put fetch_domain_blocks_request (
    call (request Method.get (codes "/api/v1/domain_blocks") []) Kind.domains
      (λ page. dispatch (fetch_domain_blocks_success page.entries page.next))
      (λ error. dispatch (fetch_domain_blocks_fail error)))

-- A missing, null or empty link fails the test.
abbrev pub expand_domain_blocks_from : Option Text → Program
expand_domain_blocks_from none = done
expand_domain_blocks_from (some []) = done
expand_domain_blocks_from (some (c ∷ url)) = put expand_domain_blocks_request (
    call (request Method.get (c ∷ url) []) Kind.domains
      (λ page. dispatch (expand_domain_blocks_success page.entries page.next))
      (λ error. dispatch (expand_domain_blocks_fail error)))

unfoldable pub expand_domain_blocks : Program
expand_domain_blocks = ask (λ store. expand_domain_blocks_from store.domain_lists_state.next)
