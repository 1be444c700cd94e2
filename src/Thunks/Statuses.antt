-- ===== src/Thunks/Statuses.antt =====
-- app/javascript/mastodon/actions/statuses.js: deleting, muting and hiding statuses, and fetching the
-- thread around one.
use mastodon.Prelude.{Text, codes, Bool, false, ◌==◌, Option, none, some, List, [], ◌++◌, map}
use mastodon.Entities.{StatusView}
use mastodon.Actions.{Action}
use mastodon.Thunks.Message.{Message, Error, message, unread, unread_failure, skipping_alert}
use mastodon.Thunks.Answers.{Kind, Method, request, Fetched, status_of}
use mastodon.Thunks.Program.{Program, done, put, dispatch, call, when, ◌>>◌}
use mastodon.Thunks.Importer.{import_fetched_statuses}
use mastodon.Thunks.Timelines.{delete_from_timelines}

abbrev pub delete_status_request : Text → Message
delete_status_request id = unread (codes "STATUS_DELETE_REQUEST")

abbrev pub delete_status_success : Text → Message
delete_status_success id = unread (codes "STATUS_DELETE_SUCCESS")

abbrev pub delete_status_fail : Text → Error → Message
delete_status_fail id error = unread_failure (codes "STATUS_DELETE_FAIL") error

abbrev pub fetch_context_request : Text → Message
fetch_context_request id = unread (codes "CONTEXT_FETCH_REQUEST")

abbrev pub fetch_context_success : Text → List Fetched → List Fetched → Message
fetch_context_success id ancestors descendants =
    message (codes "CONTEXT_FETCH_SUCCESS")
      (Action.context_fetch_success id (map status_of ancestors) (map status_of descendants))

abbrev pub fetch_context_fail : Text → Error → Message
fetch_context_fail id error = skipping_alert (unread_failure (codes "CONTEXT_FETCH_FAIL") error)

abbrev pub mute_status_request : Text → Message
mute_status_request id = unread (codes "STATUS_MUTE_REQUEST")

abbrev pub mute_status_success : Text → Message
mute_status_success id = message (codes "STATUS_MUTE_SUCCESS") (Action.status_mute_success id)

abbrev pub mute_status_fail : Text → Error → Message
mute_status_fail id error = unread_failure (codes "STATUS_MUTE_FAIL") error

abbrev pub unmute_status_request : Text → Message
unmute_status_request id = unread (codes "STATUS_UNMUTE_REQUEST")

abbrev pub unmute_status_success : Text → Message
unmute_status_success id = message (codes "STATUS_UNMUTE_SUCCESS") (Action.status_unmute_success id)

abbrev pub unmute_status_fail : Text → Error → Message
unmute_status_fail id error = unread_failure (codes "STATUS_UNMUTE_FAIL") error

abbrev pub redraft : StatusView → Message
redraft view = message (codes "REDRAFT") (Action.redraft view)

abbrev pub hide_status : List Text → Message
hide_status ids = message (codes "STATUS_HIDE") (Action.status_hide ids)

abbrev pub reveal_status : List Text → Message
reveal_status ids = message (codes "STATUS_REVEAL") (Action.status_reveal ids)

abbrev pub status_url : Text → Text
status_url id = codes "/api/v1/statuses/" ++ id

abbrev pub redraft_if : Option StatusView → Program
redraft_if none = done
redraft_if (some view) = dispatch (redraft view)

-- The status is given where it is to be drafted again; the copy in the browser's database is dropped
-- elsewhere.
unfoldable pub delete_status : Text → Option StatusView → Program
unfolding delete_from_timelines ◌>>◌
delete_status id view = put (delete_status_request id) (
    call (request Method.delete (status_url id) []) Kind.nothing
      (λ _. put (delete_status_success id) (delete_from_timelines id >> redraft_if view))
      (λ error. dispatch (delete_status_fail id error)))

-- `error.response && error.response.status === 404`.
abbrev pub is_gone : Error → Bool
is_gone error = elim error.response [ none ↦ false | some r ↦ r.status == 404 ]

unfoldable pub context_arrived : Text → List Fetched × List Fetched → Program
unfolding import_fetched_statuses ◌>>◌
context_arrived id (ancestors, descendants) =
    import_fetched_statuses (ancestors ++ descendants)
    >> dispatch (fetch_context_success id ancestors descendants)

unfoldable pub context_failed : Text → Error → Program
unfolding delete_from_timelines ◌>>◌
context_failed id error =
    when (is_gone error) (delete_from_timelines id) >> dispatch (fetch_context_fail id error)

unfoldable pub fetch_context : Text → Program
unfolding context_arrived context_failed
fetch_context id = put (fetch_context_request id) (
    call (request Method.get (status_url id ++ codes "/context") []) Kind.context
      (context_arrived id) (context_failed id))

unfoldable pub mute_status : Text → Program
mute_status id = put (mute_status_request id) (
    call (request Method.post (status_url id ++ codes "/mute") []) Kind.nothing
      (λ _. dispatch (mute_status_success id)) (λ error. dispatch (mute_status_fail id error)))

unfoldable pub unmute_status : Text → Program
unmute_status id = put (unmute_status_request id) (
    call (request Method.post (status_url id ++ codes "/unmute") []) Kind.nothing
      (λ _. dispatch (unmute_status_success id)) (λ error. dispatch (unmute_status_fail id error)))
