-- ===== src/Reducers/Statuses.antt =====
-- app/javascript/mastodon/reducers/statuses.js: the statuses of the store.
use mastodon.Prelude.{
  Text, Bool, true, false, none, some, List, [], ◌∷◌, if◌then◌else◌, Map, set, remove, update, has,
}
use mastodon.Entities.{StatusEntry}
use mastodon.Actions.{
  Action, timeline_delete, status_import, statuses_import, favourite_request, favourite_fail,
  reblog_request, reblog_fail, status_mute_success, status_unmute_success, status_reveal,
  status_hide,
}

abbrev pub Statuses : Type 0
Statuses = Map StatusEntry

-- What `setIn` starts from where the status is not in the store.
abbrev pub no_entry : StatusEntry
no_entry = record { body = none; favourited = none; reblogged = none; muted = none; hidden = none }

abbrev pub set_in : Text → (StatusEntry → StatusEntry) → Statuses → Statuses
set_in id change state = update id no_entry change state

unfoldable pub import_statuses : Statuses → List (Text × StatusEntry) → Statuses
import_statuses state [] = state
import_statuses state ((id, status) ∷ statuses) = import_statuses (set id status state) statuses

unfoldable pub delete_references : Statuses → List (Text × Text) → Statuses
delete_references state [] = state
delete_references state ((id, account) ∷ references) =
    delete_references (remove id state) references

unfoldable pub delete_status : Statuses → Text → List (Text × Text) → Statuses
unfolding delete_references
delete_status state id references = remove id (delete_references state references)

-- `map` is the state under change, `state` the one before the action.
unfoldable pub set_hidden : Bool → Statuses → Statuses → List Text → Statuses
set_hidden value state changed [] = changed
set_hidden value state changed (id ∷ ids) =
    set_hidden value state
      (if has id state
        then set_in id (λ (s : StatusEntry). record s { hidden = some value }) changed
        else changed)
      ids

unfoldable pub statuses : Statuses → Action → Statuses
unfolding import_statuses delete_status set_hidden
statuses state (status_import id status) = set id status state
statuses state (statuses_import list) = import_statuses state list
statuses state (favourite_request id) =
    set_in id (λ (s : StatusEntry). record s { favourited = some true }) state
statuses state (favourite_fail id) =
    set_in id (λ (s : StatusEntry). record s { favourited = some false }) state
statuses state (reblog_request id) =
    set_in id (λ (s : StatusEntry). record s { reblogged = some true }) state
statuses state (reblog_fail id) =
    set_in id (λ (s : StatusEntry). record s { reblogged = some false }) state
statuses state (status_mute_success id) =
    set_in id (λ (s : StatusEntry). record s { muted = some true }) state
statuses state (status_unmute_success id) =
    set_in id (λ (s : StatusEntry). record s { muted = some false }) state
statuses state (status_reveal ids) = set_hidden false state state ids
statuses state (status_hide ids) = set_hidden true state state ids
statuses state (timeline_delete id account_id references reblog_of) =
    delete_status state id references
statuses state _ = state
