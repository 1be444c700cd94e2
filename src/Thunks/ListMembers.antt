-- ===== src/Thunks/ListMembers.antt =====
-- app/javascript/mastodon/actions/lists.js: the accounts of a list, and the editor of lists.
use mastodon.Prelude.{Text, codes, true, false, Option, none, some, List, [], ◌∷◌, ◌++◌, map, get}
use mastodon.Entities.{ListEntity}
use mastodon.Actions.{Action}
use mastodon.Thunks.Message.{Message, Error, message, unread, failure, unread_failure}
use mastodon.Thunks.Answers.{Kind, Method, request, Param, FetchedAccount, account_of}
use mastodon.Thunks.Program.{Program, done, put, ask, dispatch, call}
use mastodon.Thunks.Importer.{import_fetched_accounts}
use mastodon.Thunks.Run.{Texts}
use mastodon.Thunks.Alerts.{alert_for}
use mastodon.Entities.{ListEntity}

abbrev pub fetch_list_accounts_request : Text → Message
fetch_list_accounts_request id =
    message (codes "LIST_ACCOUNTS_FETCH_REQUEST") (Action.list_accounts_fetch_request)

abbrev pub fetch_list_accounts_fail : Text → Error → Message
fetch_list_accounts_fail id error =
    failure (codes "LIST_ACCOUNTS_FETCH_FAIL") error (Action.list_accounts_fetch_fail)

abbrev pub clear_list_suggestions : Message
clear_list_suggestions =
    message (codes "LIST_EDITOR_SUGGESTIONS_CLEAR") (Action.list_editor_suggestions_clear)

abbrev pub change_list_suggestions : Text → Message
change_list_suggestions value =
    message (codes "LIST_EDITOR_SUGGESTIONS_CHANGE") (Action.list_editor_suggestions_change value)

abbrev pub add_to_list_request : Text → Text → Message
add_to_list_request list_id account_id = unread (codes "LIST_EDITOR_ADD_REQUEST")

abbrev pub add_to_list_success : Text → Text → Message
add_to_list_success list_id account_id =
    message (codes "LIST_EDITOR_ADD_SUCCESS") (Action.list_editor_add_success account_id)

abbrev pub add_to_list_fail : Text → Text → Error → Message
add_to_list_fail list_id account_id error = unread_failure (codes "LIST_EDITOR_ADD_FAIL") error

abbrev pub remove_from_list_request : Text → Text → Message
remove_from_list_request list_id account_id = unread (codes "LIST_EDITOR_REMOVE_REQUEST")

abbrev pub remove_from_list_success : Text → Text → Message
remove_from_list_success list_id account_id =
    message (codes "LIST_EDITOR_REMOVE_SUCCESS") (Action.list_editor_remove_success account_id)

abbrev pub remove_from_list_fail : Text → Text → Error → Message
remove_from_list_fail list_id account_id error =
    unread_failure (codes "LIST_EDITOR_REMOVE_FAIL") error

abbrev pub fetch_list_accounts_success : Text → List FetchedAccount → Message
fetch_list_accounts_success id accounts =
    message (codes "LIST_ACCOUNTS_FETCH_SUCCESS")
      (Action.list_accounts_fetch_success (map account_of accounts))

abbrev pub fetch_list_suggestions_ready : Text → List FetchedAccount → Message
fetch_list_suggestions_ready query accounts =
    message (codes "LIST_EDITOR_SUGGESTIONS_READY")
      (Action.list_editor_suggestions_ready (map account_of accounts))

abbrev pub members_path : Text → Text
members_path id = codes "/api/v1/lists/" ++ (id ++ codes "/accounts")

unfoldable pub fetch_list_accounts : Text → Program
fetch_list_accounts id = put (fetch_list_accounts_request id) (
    call (request Method.get (members_path id) ((codes "limit", Param.number 0) ∷ [])) Kind.accounts
      (λ page.
        put (import_fetched_accounts page.entries)
          (dispatch (fetch_list_accounts_success id page.entries)))
      (λ error. dispatch (fetch_list_accounts_fail id error)))

-- Of a list that the store does not have the reducer throws, and nothing more is done.
abbrev pub setup_for : Option (Option ListEntity) → Program → Program
setup_for (some (some entity)) p =
    put (message (codes "LIST_EDITOR_SETUP") (Action.list_editor_setup entity)) p
setup_for _ p = done

unfoldable pub setup_list_editor : Text → Program
unfolding fetch_list_accounts
setup_list_editor id = ask (λ store. setup_for (get id store.lists_state) (fetch_list_accounts id))

unfoldable pub fetch_list_suggestions : Texts → Text → Program
fetch_list_suggestions texts q =
    call
      (request Method.get (codes "/api/v1/accounts/search") (
        (codes "q", Param.text q)
        ∷ (codes "resolve", Param.flag false)
        ∷ (codes "limit", Param.number 4)
        ∷ (codes "following", Param.flag true)
        ∷ []))
      Kind.accounts
      (λ page.
        put (import_fetched_accounts page.entries)
          (dispatch (fetch_list_suggestions_ready q page.entries)))
      (λ error. dispatch (alert_for texts error))

abbrev pub account_ids : Text → List (Text × Param)
account_ids account_id = (codes "account_ids", Param.texts (account_id ∷ [])) ∷ []

unfoldable pub add_to_list : Text → Text → Program
add_to_list list_id account_id = put (add_to_list_request list_id account_id) (
    call (request Method.post (members_path list_id) (account_ids account_id)) Kind.nothing
      (λ _. dispatch (add_to_list_success list_id account_id))
      (λ error. dispatch (add_to_list_fail list_id account_id error)))

unfoldable pub remove_from_list : Text → Text → Program
remove_from_list list_id account_id = put (remove_from_list_request list_id account_id) (
    call (request Method.delete (members_path list_id) (account_ids account_id)) Kind.nothing
      (λ _. dispatch (remove_from_list_success list_id account_id))
      (λ error. dispatch (remove_from_list_fail list_id account_id error)))

-- Null as the id of the list is written out where no list is edited.
abbrev pub id_text : Option Text → Text
id_text none = codes "null"
id_text (some id) = id

unfoldable pub add_to_list_editor : Text → Program
unfolding add_to_list
add_to_list_editor account_id =
    ask (λ store. add_to_list (id_text store.list_editor_state.list_id) account_id)

unfoldable pub remove_from_list_editor : Text → Program
unfolding remove_from_list
remove_from_list_editor account_id =
    ask (λ store. remove_from_list (id_text store.list_editor_state.list_id) account_id)
