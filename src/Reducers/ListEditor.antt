-- ===== src/Reducers/ListEditor.antt =====
-- app/javascript/mastodon/reducers/list_editor.js: the editor of one list.
use mastodon.Prelude.{
  Text, text_eq, Bool, true, false, Option, none, some, List, [], ◌∷◌, map, filter_not,
}
use mastodon.Entities.{Account}
use mastodon.Actions.{
  Action, list_create_success, list_update_success, list_editor_reset, list_create_request,
  list_create_fail, list_update_request, list_update_fail, list_accounts_fetch_request,
  list_accounts_fetch_fail, list_editor_suggestions_clear, list_editor_setup,
  list_editor_title_change, list_editor_suggestions_change, list_accounts_fetch_success,
  list_editor_suggestions_ready, list_editor_add_success, list_editor_remove_success,
}

pub record Members : Type 0 where
  pub items : List Text
  pub loaded : Bool
  pub is_loading : Bool

pub record Suggestions : Type 0 where
  pub value : Text
  pub items : List Text

pub record ListEditor : Type 0 where
  pub list_id : Option Text
  pub is_submitting : Bool
  pub title : Text
  pub accounts : Members
  pub suggestions : Suggestions

abbrev pub initial_state : ListEditor
initial_state = record {
  list_id = none;
  is_submitting = false;
  title = [];
  accounts = record { items = []; loaded = false; is_loading = false };
  suggestions = record { value = []; items = [] };
}

abbrev pub ids : List Account → List Text
ids accounts = map (λ (a : Account). a.id) accounts

unfoldable pub list_editor : ListEditor → Action → ListEditor
list_editor state list_editor_reset = initial_state
list_editor state (list_editor_setup list) = record state {
  list_id = some list.id;
  title = list.title;
  is_submitting = false;
}
list_editor state (list_editor_title_change value) = record state { title = value }
list_editor state list_create_request = record state { is_submitting = true }
list_editor state list_update_request = record state { is_submitting = true }
list_editor state list_create_fail = record state { is_submitting = false }
list_editor state list_update_fail = record state { is_submitting = false }
list_editor state (list_create_success list) = record state {
  is_submitting = false;
  list_id = some list.id;
}
list_editor state (list_update_success list) = record state {
  is_submitting = false;
  list_id = some list.id;
}
list_editor state list_accounts_fetch_request = record state {
  accounts = record state.accounts { is_loading = true };
}
list_editor state list_accounts_fetch_fail = record state {
  accounts = record state.accounts { is_loading = false };
}
list_editor state (list_accounts_fetch_success accounts) = record state {
  accounts = record { is_loading = false; loaded = true; items = ids accounts };
}
list_editor state (list_editor_suggestions_change value) = record state {
  suggestions = record state.suggestions { value = value };
}
list_editor state (list_editor_suggestions_ready accounts) = record state {
  suggestions = record state.suggestions { items = ids accounts };
}
list_editor state list_editor_suggestions_clear = record state {
  suggestions = record { items = []; value = [] };
}
list_editor state (list_editor_add_success account_id) = record state {
  accounts = record state.accounts { items = account_id ∷ state.accounts.items };
}
list_editor state (list_editor_remove_success account_id) = record state {
  accounts = record state.accounts {
    items = filter_not (λ item. text_eq item account_id) state.accounts.items;
  };
}
list_editor state _ = state
