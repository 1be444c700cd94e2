-- ===== src/Thunks/Relations.antt =====
-- app/javascript/mastodon/actions/accounts.js: following, blocking, muting and pinning accounts, and
-- the relationships to them.
use mastodon.Prelude.{Text, codes, Bool, none, some, List, [], ◌∷◌, ◌++◌, filter_not, Map, has}
use mastodon.Entities.{Status, Relationship}
use mastodon.Actions.{Action}
use mastodon.Thunks.Message.{
  Message, Error, thrown, message, unread, unread_failure, skipping_loading,
}
use mastodon.Thunks.Answers.{Kind, Method, request, Param}
use mastodon.Thunks.Program.{Program, done, put, ask, dispatch, call}
use mastodon.Reducers.Statuses.{Statuses}
use Prim.Native.String.{String}

abbrev pub follow_account_request : Text → Message
follow_account_request id = unread (codes "ACCOUNT_FOLLOW_REQUEST")

abbrev pub follow_account_success : Relationship → Bool → Message
follow_account_success relationship already_following =
    message (codes "ACCOUNT_FOLLOW_SUCCESS")
      (Action.account_follow_success relationship already_following)

abbrev pub follow_account_fail : Error → Message
follow_account_fail error = unread_failure (codes "ACCOUNT_FOLLOW_FAIL") error

abbrev pub unfollow_account_request : Text → Message
unfollow_account_request id = unread (codes "ACCOUNT_UNFOLLOW_REQUEST")

abbrev pub unfollow_account_success : Relationship → Map Status → Message
unfollow_account_success relationship statuses =
    message (codes "ACCOUNT_UNFOLLOW_SUCCESS")
      (Action.account_unfollow_success relationship statuses)

abbrev pub unfollow_account_fail : Error → Message
unfollow_account_fail error = unread_failure (codes "ACCOUNT_UNFOLLOW_FAIL") error

abbrev pub block_account_request : Text → Message
block_account_request id = unread (codes "ACCOUNT_BLOCK_REQUEST")

abbrev pub block_account_success : Relationship → Map Status → Message
block_account_success relationship statuses =
    message (codes "ACCOUNT_BLOCK_SUCCESS") (Action.account_block_success relationship statuses)

abbrev pub block_account_fail : Error → Message
block_account_fail error = unread_failure (codes "ACCOUNT_BLOCK_FAIL") error

abbrev pub unblock_account_request : Text → Message
unblock_account_request id = unread (codes "ACCOUNT_UNBLOCK_REQUEST")

abbrev pub unblock_account_success : Relationship → Message
unblock_account_success relationship =
    message (codes "ACCOUNT_UNBLOCK_SUCCESS") (Action.account_unblock_success relationship)

abbrev pub unblock_account_fail : Error → Message
unblock_account_fail error = unread_failure (codes "ACCOUNT_UNBLOCK_FAIL") error

abbrev pub mute_account_request : Text → Message
mute_account_request id = unread (codes "ACCOUNT_MUTE_REQUEST")

abbrev pub mute_account_success : Relationship → Map Status → Message
mute_account_success relationship statuses =
    message (codes "ACCOUNT_MUTE_SUCCESS") (Action.account_mute_success relationship statuses)

abbrev pub mute_account_fail : Error → Message
mute_account_fail error = unread_failure (codes "ACCOUNT_MUTE_FAIL") error

abbrev pub unmute_account_request : Text → Message
unmute_account_request id = unread (codes "ACCOUNT_UNMUTE_REQUEST")

abbrev pub unmute_account_success : Relationship → Message
unmute_account_success relationship =
    message (codes "ACCOUNT_UNMUTE_SUCCESS") (Action.account_unmute_success relationship)

abbrev pub unmute_account_fail : Error → Message
unmute_account_fail error = unread_failure (codes "ACCOUNT_UNMUTE_FAIL") error

abbrev pub fetch_relationships_request : List Text → Message
fetch_relationships_request ids = skipping_loading (unread (codes "RELATIONSHIPS_FETCH_REQUEST"))

abbrev pub fetch_relationships_success : List Relationship → Message
fetch_relationships_success relationships = skipping_loading (
    message (codes "RELATIONSHIPS_FETCH_SUCCESS")
      (Action.relationships_fetch_success relationships))

abbrev pub fetch_relationships_fail : Error → Message
fetch_relationships_fail error =
    skipping_loading (unread_failure (codes "RELATIONSHIPS_FETCH_FAIL") error)

abbrev pub pin_account_request : Text → Message
pin_account_request id = unread (codes "ACCOUNT_PIN_REQUEST")

abbrev pub pin_account_success : Relationship → Message
pin_account_success relationship =
    message (codes "ACCOUNT_PIN_SUCCESS") (Action.account_pin_success relationship)

abbrev pub pin_account_fail : Error → Message
pin_account_fail error = unread_failure (codes "ACCOUNT_PIN_FAIL") error

abbrev pub unpin_account_request : Text → Message
unpin_account_request id = unread (codes "ACCOUNT_UNPIN_REQUEST")

abbrev pub unpin_account_success : Relationship → Message
unpin_account_success relationship =
    message (codes "ACCOUNT_UNPIN_SUCCESS") (Action.account_unpin_success relationship)

abbrev pub unpin_account_fail : Error → Message
unpin_account_fail error = unread_failure (codes "ACCOUNT_UNPIN_FAIL") error

-- `/api/v1/accounts/${id}/...`.
abbrev pub account_path : Text → String → Text
account_path id what = codes "/api/v1/accounts/" ++ (id ++ (47 ∷ codes what))

-- The statuses of the store, as the reducers of this action read them.
abbrev pub known_statuses : Statuses → Map Status
known_statuses [] = []
known_statuses ((key, entry) ∷ statuses) = elim entry.body [
  | none ↦ known_statuses statuses
  | some s ↦ (key, s) ∷ known_statuses statuses
]

-- `already` is what the store says of the relationship, `following`, which the model does not keep.
unfoldable pub follow_account : Text → Bool → Bool → Program
follow_account id reblogs already = put (follow_account_request id) (
    call
      (request Method.post (account_path id "follow") ((codes "reblogs", Param.flag reblogs) ∷ []))
      Kind.relationship (λ relationship. dispatch (follow_account_success relationship already))
      (λ error. dispatch (follow_account_fail error)))

unfoldable pub unfollow_account : Text → Program
unfollow_account id = put (unfollow_account_request id) (
    call (request Method.post (account_path id "unfollow") []) Kind.relationship
      (λ relationship. ask (λ store.
        dispatch (unfollow_account_success relationship (known_statuses store.statuses_state))))
      (λ error. dispatch (unfollow_account_fail error)))

-- A text in the place of the error has no key `response`.
abbrev pub not_an_error : Text → Error
not_an_error id = thrown

-- The failures of blocking and muting take the error first, but are called with the id first.
unfoldable pub block_account : Text → Program
block_account id = put (block_account_request id) (
    call (request Method.post (account_path id "block") []) Kind.relationship
      (λ relationship. ask (λ store.
        dispatch (block_account_success relationship (known_statuses store.statuses_state))))
      (λ error. dispatch (block_account_fail (not_an_error id))))

unfoldable pub unblock_account : Text → Program
unblock_account id = put (unblock_account_request id) (
    call (request Method.post (account_path id "unblock") []) Kind.relationship
      (λ relationship. dispatch (unblock_account_success relationship))
      (λ error. dispatch (unblock_account_fail (not_an_error id))))

unfoldable pub mute_account : Text → Bool → Program
mute_account id notifications = put (mute_account_request id) (
    call
      (request Method.post (account_path id "mute")
        ((codes "notifications", Param.flag notifications) ∷ []))
      Kind.relationship
      (λ relationship. ask (λ store.
        dispatch (mute_account_success relationship (known_statuses store.statuses_state))))
      (λ error. dispatch (mute_account_fail (not_an_error id))))

unfoldable pub unmute_account : Text → Program
unmute_account id = put (unmute_account_request id) (
    call (request Method.post (account_path id "unmute") []) Kind.relationship
      (λ relationship. dispatch (unmute_account_success relationship))
      (λ error. dispatch (unmute_account_fail (not_an_error id))))

unfoldable pub pin_account : Text → Program
pin_account id = put (pin_account_request id) (
    call (request Method.post (account_path id "pin") []) Kind.relationship
      (λ relationship. dispatch (pin_account_success relationship))
      (λ error. dispatch (pin_account_fail error)))

unfoldable pub unpin_account : Text → Program
unpin_account id = put (unpin_account_request id) (
    call (request Method.post (account_path id "unpin") []) Kind.relationship
      (λ relationship. dispatch (unpin_account_success relationship))
      (λ error. dispatch (unpin_account_fail error)))

-- `id[]=1&id[]=2`.
abbrev pub id_query : List Text → Text
id_query [] = []
id_query (id ∷ []) = codes "id[]=" ++ id
id_query (id ∷ next ∷ ids) = codes "id[]=" ++ (id ++ (38 ∷ id_query (next ∷ ids)))

-- What is sent for the accounts whose relationship is not known.
unfoldable pub request_relationships : List Text → Program
request_relationships [] = done
request_relationships (id ∷ ids) = put (fetch_relationships_request (id ∷ ids)) (
    call (request Method.get (codes "/api/v1/accounts/relationships?" ++ id_query (id ∷ ids)) [])
      Kind.relationships (λ relationships. dispatch (fetch_relationships_success relationships))
      (λ error. dispatch (fetch_relationships_fail error)))

unfoldable pub fetch_relationships : List Text → Program
unfolding request_relationships
fetch_relationships ids =
    ask (λ store. request_relationships (filter_not (λ id. has id store.relationships_state) ids))
