-- ===== src/Thunks/Interactions.antt =====
-- app/javascript/mastodon/actions/interactions.js: reblogs, favourites and pins of statuses. Of a
-- status the id is read.
use mastodon.Prelude.{Text, codes, List, [], ◌∷◌, ◌++◌, map}
use mastodon.Actions.{Action}
use mastodon.Thunks.Message.{
  Message, Error, thrown, message, unread, failure, unread_failure, skipping_loading,
}
use mastodon.Thunks.Answers.{Kind, Method, request, FetchedAccount, Fetched, account_of}
use mastodon.Thunks.Program.{Program, put, dispatch, call, ◌>>◌}
use mastodon.Thunks.Importer.{
  import_fetched_accounts, import_fetched_status, import_fetched_statuses,
}
use mastodon.Thunks.Answers.{original}
use Prim.Native.String.{String}

abbrev pub reblog_request : Text → Message
reblog_request id = skipping_loading (message (codes "REBLOG_REQUEST") (Action.reblog_request id))

abbrev pub reblog_success : Text → Message
reblog_success id = skipping_loading (unread (codes "REBLOG_SUCCESS"))

abbrev pub reblog_fail : Text → Error → Message
reblog_fail id error =
    skipping_loading (failure (codes "REBLOG_FAIL") error (Action.reblog_fail id))

abbrev pub unreblog_request : Text → Message
unreblog_request id = skipping_loading (unread (codes "UNREBLOG_REQUEST"))

abbrev pub unreblog_success : Text → Message
unreblog_success id = skipping_loading (unread (codes "UNREBLOG_SUCCESS"))

abbrev pub unreblog_fail : Text → Error → Message
unreblog_fail id error = skipping_loading (unread_failure (codes "UNREBLOG_FAIL") error)

abbrev pub favourite_request : Text → Message
favourite_request id =
    skipping_loading (message (codes "FAVOURITE_REQUEST") (Action.favourite_request id))

abbrev pub favourite_success : Text → Message
favourite_success id =
    skipping_loading (message (codes "FAVOURITE_SUCCESS") (Action.favourite_success id))

abbrev pub favourite_fail : Text → Error → Message
favourite_fail id error =
    skipping_loading (failure (codes "FAVOURITE_FAIL") error (Action.favourite_fail id))

abbrev pub unfavourite_request : Text → Message
unfavourite_request id = skipping_loading (unread (codes "UNFAVOURITE_REQUEST"))

abbrev pub unfavourite_success : Text → Message
unfavourite_success id =
    skipping_loading (message (codes "UNFAVOURITE_SUCCESS") (Action.unfavourite_success id))

abbrev pub unfavourite_fail : Text → Error → Message
unfavourite_fail id error = skipping_loading (unread_failure (codes "UNFAVOURITE_FAIL") error)

abbrev pub fetch_reblogs_request : Text → Message
fetch_reblogs_request id = unread (codes "REBLOGS_FETCH_REQUEST")

abbrev pub fetch_reblogs_success : Text → List FetchedAccount → Message
fetch_reblogs_success id accounts =
    message (codes "REBLOGS_FETCH_SUCCESS")
      (Action.reblogs_fetch_success id (map account_of accounts))

abbrev pub fetch_reblogs_fail : Text → Error → Message
fetch_reblogs_fail id error = unread_failure (codes "REBLOGS_FETCH_FAIL") error

abbrev pub fetch_favourites_request : Text → Message
fetch_favourites_request id = unread (codes "FAVOURITES_FETCH_REQUEST")

abbrev pub fetch_favourites_success : Text → List FetchedAccount → Message
fetch_favourites_success id accounts =
    message (codes "FAVOURITES_FETCH_SUCCESS")
      (Action.favourites_fetch_success id (map account_of accounts))

abbrev pub fetch_favourites_fail : Text → Error → Message
fetch_favourites_fail id error = unread_failure (codes "FAVOURITES_FETCH_FAIL") error

abbrev pub pin_request : Text → Message
pin_request id = skipping_loading (unread (codes "PIN_REQUEST"))

abbrev pub pin_success : Text → Message
pin_success id = skipping_loading (message (codes "PIN_SUCCESS") (Action.pin_success id))

abbrev pub pin_fail : Text → Error → Message
pin_fail id error = skipping_loading (unread_failure (codes "PIN_FAIL") error)

abbrev pub unpin_request : Text → Message
unpin_request id = skipping_loading (unread (codes "UNPIN_REQUEST"))

abbrev pub unpin_success : Text → Message
unpin_success id = skipping_loading (message (codes "UNPIN_SUCCESS") (Action.unpin_success id))

abbrev pub unpin_fail : Text → Error → Message
unpin_fail id error = skipping_loading (unread_failure (codes "UNPIN_FAIL") error)

-- `/api/v1/statuses/${id}/...`.
abbrev pub status_path : Text → String → Text
status_path id what = codes "/api/v1/statuses/" ++ (id ++ (47 ∷ codes what))

-- The answer wraps the status; one that wraps none makes the import throw.
unfoldable pub reblogged : Text → Fetched → Program
unfolding ◌>>◌ import_fetched_statuses
reblogged id (original post) = dispatch (reblog_fail id thrown)
reblogged id (Fetched.reblog post inner) =
    import_fetched_status inner >> dispatch (reblog_success id)

unfoldable pub reblog : Text → Program
unfolding reblogged
reblog id = put (reblog_request id) (
    call (request Method.post (status_path id "reblog") []) Kind.status (reblogged id)
      (λ error. dispatch (reblog_fail id error)))

unfoldable pub unreblog : Text → Program
unfolding ◌>>◌ import_fetched_statuses
unreblog id = put (unreblog_request id) (
    call (request Method.post (status_path id "unreblog") []) Kind.status
      (λ answer. import_fetched_status answer >> dispatch (unreblog_success id))
      (λ error. dispatch (unreblog_fail id error)))

unfoldable pub favourite : Text → Program
unfolding ◌>>◌ import_fetched_statuses
favourite id = put (favourite_request id) (
    call (request Method.post (status_path id "favourite") []) Kind.status
      (λ answer. import_fetched_status answer >> dispatch (favourite_success id))
      (λ error. dispatch (favourite_fail id error)))

unfoldable pub unfavourite : Text → Program
unfolding ◌>>◌ import_fetched_statuses
unfavourite id = put (unfavourite_request id) (
    call (request Method.post (status_path id "unfavourite") []) Kind.status
      (λ answer. import_fetched_status answer >> dispatch (unfavourite_success id))
      (λ error. dispatch (unfavourite_fail id error)))

unfoldable pub pin : Text → Program
unfolding ◌>>◌ import_fetched_statuses
pin id = put (pin_request id) (
    call (request Method.post (status_path id "pin") []) Kind.status
      (λ answer. import_fetched_status answer >> dispatch (pin_success id))
      (λ error. dispatch (pin_fail id error)))

unfoldable pub unpin : Text → Program
unfolding ◌>>◌ import_fetched_statuses
unpin id = put (unpin_request id) (
    call (request Method.post (status_path id "unpin") []) Kind.status
      (λ answer. import_fetched_status answer >> dispatch (unpin_success id))
      (λ error. dispatch (unpin_fail id error)))

unfoldable pub fetch_reblogs : Text → Program
fetch_reblogs id = put (fetch_reblogs_request id) (
    call (request Method.get (status_path id "reblogged_by") []) Kind.accounts
      (λ page.
        put (import_fetched_accounts page.entries)
          (dispatch (fetch_reblogs_success id page.entries)))
      (λ error. dispatch (fetch_reblogs_fail id error)))

unfoldable pub fetch_favourites : Text → Program
fetch_favourites id = put (fetch_favourites_request id) (
    call (request Method.get (status_path id "favourited_by") []) Kind.accounts
      (λ page.
        put (import_fetched_accounts page.entries)
          (dispatch (fetch_favourites_success id page.entries)))
      (λ error. dispatch (fetch_favourites_fail id error)))
