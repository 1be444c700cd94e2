-- ===== src/LocalSettings.antt =====
-- app/javascript/mastodon/settings.js: settings that are kept in the browser's storage. The storage
-- and JSON are outside: a map of texts that may refuse every call, and a way to write and to read.
pub mod Kept
use mastodon.Prelude.{
  Text, codes, Bool, true, false, Option, none, some, List, [], ◌∷◌, ◌++◌, is_empty, Map, get, set,
  remove, if◌then◌else◌,
}

-- Where `works` is false every call throws.
pub record Storage : Type 0 where
  pub items : Map Text
  pub works : Bool

pub record Json (D : Type 0) : Type 0 where
  pub stringify : D → Text
  pub parse : Text → Option D

-- An empty key base is none.
unfoldable pub generate_key : Text → Text → Text
generate_key key_base id = if is_empty key_base then id else key_base ++ (codes ".id" ++ id)

abbrev pub with_items : Storage → Map Text → Storage
with_items storage items = record storage { items = items }

-- What is returned, and the storage afterwards.
unfoldable pub set_setting : {D : Type 0} → Json D → Text → Text → D → Storage → Option D × Storage
unfolding generate_key
set_setting json key_base id value storage =
    if storage.works
    then (
      some value,
      with_items storage (set (generate_key key_base id) (json.stringify value) storage.items),
    )
    else (none, storage)

abbrev pub parsed : {D : Type 0} → Json D → Option Text → Option D
parsed json none = none
parsed json (some raw_data) = json.parse raw_data

unfoldable pub get_setting : {D : Type 0} → Json D → Text → Text → Storage → Option D
unfolding generate_key
get_setting json key_base id storage =
    if storage.works then parsed json (get (generate_key key_base id) storage.items) else none

-- What is kept is an object or a list, which passes JavaScript's test.
unfoldable pub remove_setting : {D : Type 0} → Json D → Text → Text → Storage → Option D × Storage
unfolding get_setting
remove_setting json key_base id storage =
    let value = get_setting json key_base id storage in
    elim value [
      | none ↦ (none, storage)
      | some d ↦ (some d, with_items storage (remove (generate_key key_base id) storage.items))
    ]

abbrev pub push_notifications_base : Text
push_notifications_base = codes "mastodon_push_notification_data"

abbrev pub tag_history_base : Text
tag_history_base = codes "mastodon_tag_history"
