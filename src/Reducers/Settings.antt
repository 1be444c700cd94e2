-- ===== src/Reducers/Settings.antt =====
-- app/javascript/mastodon/reducers/settings.js: the columns of the advanced interface, the emojis in
-- use, and whether the settings are saved. The tree of the other settings is left out.
use mastodon.Prelude.{
  ℕ, ◌+◌, Text, codes, text_eq, option_eq, Bool, true, false, ◌&&◌, ◌||◌, ◌==◌, Option, none, some,
  List, [], ◌∷◌, ◌++◌, if◌then◌else◌, Map, update, ℤ, ◌+ℤ◌, splice_list, get_index, find_index,
}
use mastodon.Entities.{Emoji, Column}
use mastodon.Actions.{
  Action, list_delete_success, list_fetch_fail, column_add, column_remove, column_move, emoji_use,
  setting_save,
}

-- A column may be `none`, undefined: COLUMN_MOVE where there are no columns puts it there.
pub record Settings : Type 0 where
  pub saved : Bool
  pub columns : List (Option Column)
  pub frequently_used_emojis : Map ℕ

abbrev pub has_uuid : Text → Option Column → Bool
has_uuid uuid none = false
has_uuid uuid (some column) = text_eq column.uuid uuid

-- Whether `findIndex` comes to an end: `item.get` throws on an undefined column.
abbrev pub searches : Text → List (Option Column) → Bool
searches uuid [] = true
searches uuid (none ∷ columns) = false
searches uuid (some column ∷ columns) = text_eq column.uuid uuid || searches uuid columns

-- `columns.get(index)`, undefined outside the columns.
abbrev pub column_at : ℤ → List (Option Column) → Option Column
column_at index columns = elim (get_index index columns) [ none ↦ none | some column ↦ column ]

unfoldable pub moved_from : List (Option Column) → ℤ → ℤ → List (Option Column)
moved_from columns index direction =
    splice_list (index +ℤ direction) 0 (column_at index columns ∷ [])
      (splice_list index 1 [] columns)

unfoldable pub moved : List (Option Column) → Text → ℤ → Option (List (Option Column))
unfolding moved_from
moved columns uuid direction =
    if searches uuid columns
    then some (moved_from columns (find_index (has_uuid uuid) columns) direction)
    else none

-- `filterNot`, whose test throws on an undefined column.
unfoldable pub filter_columns :
    (Column → Bool) → List (Option Column) → Option (List (Option Column))
filter_columns p [] = some []
filter_columns p (none ∷ columns) = none
filter_columns p (some column ∷ columns) =
    let rest = filter_columns p columns in
    elim rest [ none ↦ none | some kept ↦ some (if p column then kept else some column ∷ kept) ]

abbrev with_columns : Settings → Bool → Option (List (Option Column)) → Option Settings
with_columns state saved none = none
with_columns state saved (some columns) = some (record state { columns = columns; saved = saved })

unfoldable pub move_column : Settings → Text → ℤ → Option Settings
unfolding moved
move_column state uuid direction = with_columns state false (moved state.columns uuid direction)

unfoldable pub update_frequent_emojis : Settings → Emoji → Settings
update_frequent_emojis state emoji = record state {
  frequently_used_emojis = update emoji.id 0 (λ count. count + 1) state.frequently_used_emojis;
  saved = false;
}

unfoldable pub filter_dead_list_columns : Settings → Text → Option Settings
unfolding filter_columns
filter_dead_list_columns state list_id = with_columns state state.saved (
    filter_columns
      (λ (c : Column). text_eq c.id (codes "LIST") && option_eq c.list_id (some list_id))
      state.columns)

-- The uuid is the one that a new column is given; `none` where the reducer throws.
unfoldable pub settings : Text → Settings → Action → Option Settings
unfolding move_column update_frequent_emojis filter_columns filter_dead_list_columns
settings uuid state (column_add id list_id) = some (record state {
  columns = state.columns ++ (some (record { id = id; uuid = uuid; list_id = list_id }) ∷ []);
  saved = false;
})
settings uuid state (column_remove column) =
    with_columns state false (filter_columns (λ (c : Column). text_eq c.uuid column) state.columns)
settings uuid state (column_move column direction) = move_column state column direction
settings uuid state (emoji_use emoji) = some (update_frequent_emojis state emoji)
settings uuid state setting_save = some (record state { saved = true })
settings uuid state (list_fetch_fail id status) =
    if status == 404 then filter_dead_list_columns state id else some state
settings uuid state (list_delete_success id) = filter_dead_list_columns state id
settings uuid state _ = some state
