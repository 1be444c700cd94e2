-- ===== src/Thunks/Lists.antt =====
-- app/javascript/mastodon/actions/lists.js: the lists of the user.
use mastodon.Prelude.{
  Text, codes, Bool, false, Option, none, some, List, [], ◌∷◌, ◌++◌, if◌then◌else◌, get, is_some,
}
use mastodon.Entities.{ListEntity}
use mastodon.Actions.{Action}
use mastodon.Thunks.Message.{Message, Error, message, unread, failure, unread_failure}
use mastodon.Thunks.Answers.{Kind, Method, request, Param}
use mastodon.Thunks.Program.{Program, done, put, ask, dispatch, call, when}
use mastodon.Entities.{ListEntity}

abbrev pub fetch_list_request : Text → Message
fetch_list_request id = unread (codes "LIST_FETCH_REQUEST")

abbrev pub fetch_list_success : ListEntity → Message
fetch_list_success entity = message (codes "LIST_FETCH_SUCCESS") (Action.list_fetch_success entity)

abbrev pub fetch_lists_request : Message
fetch_lists_request = unread (codes "LISTS_FETCH_REQUEST")

abbrev pub fetch_lists_success : List ListEntity → Message
fetch_lists_success lists = message (codes "LISTS_FETCH_SUCCESS") (Action.lists_fetch_success lists)

abbrev pub fetch_lists_fail : Error → Message
fetch_lists_fail error = unread_failure (codes "LISTS_FETCH_FAIL") error

abbrev pub change_list_editor_title : Text → Message
change_list_editor_title value =
    message (codes "LIST_EDITOR_TITLE_CHANGE") (Action.list_editor_title_change value)

abbrev pub create_list_request : Message
create_list_request = message (codes "LIST_CREATE_REQUEST") (Action.list_create_request)

abbrev pub create_list_success : ListEntity → Message
create_list_success entity =
    message (codes "LIST_CREATE_SUCCESS") (Action.list_create_success entity)

abbrev pub create_list_fail : Error → Message
create_list_fail error = failure (codes "LIST_CREATE_FAIL") error (Action.list_create_fail)

abbrev pub update_list_request : Text → Message
update_list_request id = message (codes "LIST_UPDATE_REQUEST") (Action.list_update_request)

abbrev pub update_list_success : ListEntity → Message
update_list_success entity =
    message (codes "LIST_UPDATE_SUCCESS") (Action.list_update_success entity)

abbrev pub update_list_fail : Text → Error → Message
update_list_fail id error = failure (codes "LIST_UPDATE_FAIL") error (Action.list_update_fail)

abbrev pub reset_list_editor : Message
reset_list_editor = message (codes "LIST_EDITOR_RESET") (Action.list_editor_reset)

abbrev pub delete_list_request : Text → Message
delete_list_request id = unread (codes "LIST_DELETE_REQUEST")

abbrev pub delete_list_success : Text → Message
delete_list_success id = message (codes "LIST_DELETE_SUCCESS") (Action.list_delete_success id)

abbrev pub delete_list_fail : Text → Error → Message
delete_list_fail id error = unread_failure (codes "LIST_DELETE_FAIL") error

-- The settings read the status of the response: without one the reducers throw, and the store takes
-- nothing.
abbrev pub fetch_list_fail : Text → Error → Message
fetch_list_fail id error = elim error.response [
  | none ↦ unread_failure (codes "LIST_FETCH_FAIL") error
  | some r ↦ failure (codes "LIST_FETCH_FAIL") error (Action.list_fetch_fail id r.status)
]

abbrev pub list_path : Text → Text
list_path id = codes "/api/v1/lists/" ++ id

-- A list that is known not to exist is asked for again.
abbrev pub is_known : Option (Option ListEntity) → Bool
is_known none = false
is_known (some entity) = is_some entity

unfoldable pub fetch_list : Text → Program
fetch_list id = ask (λ store.
    if is_known (get id store.lists_state)
    then done
    else put (fetch_list_request id) (
        call (request Method.get (list_path id) []) Kind.list
          (λ entity. dispatch (fetch_list_success entity))
          (λ error. dispatch (fetch_list_fail id error))))

unfoldable pub fetch_lists : Program
fetch_lists = put fetch_lists_request (
    call (request Method.get (codes "/api/v1/lists") []) Kind.lists
      (λ lists. dispatch (fetch_lists_success lists)) (λ error. dispatch (fetch_lists_fail error)))

abbrev pub title_param : Text → List (Text × Param)
title_param title = (codes "title", Param.text title) ∷ []

unfoldable pub create_list : Text → Bool → Program
create_list title should_reset = put create_list_request (
    call (request Method.post (codes "/api/v1/lists") (title_param title)) Kind.list
      (λ entity. put (create_list_success entity) (when should_reset (dispatch reset_list_editor)))
      (λ error. dispatch (create_list_fail error)))

unfoldable pub update_list : Text → Text → Bool → Program
update_list id title should_reset = put (update_list_request id) (
    call (request Method.put (list_path id) (title_param title)) Kind.list
      (λ entity. put (update_list_success entity) (when should_reset (dispatch reset_list_editor)))
      (λ error. dispatch (update_list_fail id error)))

abbrev pub submit_list : Option Text → Text → Bool → Program
submit_list none title should_reset = create_list title should_reset
submit_list (some id) title should_reset = update_list id title should_reset

unfoldable pub submit_list_editor : Bool → Program
unfolding create_list update_list
submit_list_editor should_reset = ask (λ store.
    submit_list store.list_editor_state.list_id store.list_editor_state.title should_reset)

unfoldable pub delete_list : Text → Program
delete_list id = put (delete_list_request id) (
    call (request Method.delete (list_path id) []) Kind.nothing
      (λ _. dispatch (delete_list_success id)) (λ error. dispatch (delete_list_fail id error)))
