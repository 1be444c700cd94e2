-- ===== src/LocalSettings/Kept.antt =====
-- Reading back what was set.
use mastodon.Prelude.{Text, text_eq, ◌≡◌, ap, true, some, get-set, get-set_self}
use mastodon.LocalSettings.{
  Storage, Json, generate_key, set_setting, get_setting, parsed, push_notifications_base,
  tag_history_base,
}

-- Where the storage works and what is written can be read again, a setting that was set is got, for
-- any key base and user; and setting the tags of one user leaves the settings for push messages of
-- every user alone.
pub get_setting-set_setting :
    {D : Type 0}
    → (json : Json D) (key_base id user : Text) (value : D) (storage : Storage)
    → storage.works ≡ true
    → json.parse (json.stringify value) ≡ some value
    → (get_setting json key_base id (set_setting json key_base id value storage).1 ≡ some value)
      × (get_setting json push_notifications_base user
            (set_setting json tag_history_base id value storage).1
          ≡ get_setting json push_notifications_base user storage)
unfolding get_setting set_setting generate_key text_eq
get_setting-set_setting json key_base id user value storage works readable =
    let key = generate_key key_base id in
    (
      rw (works, get_setting, get-set_self key (json.stringify value) storage.items) readable,
      rw (works, get_setting)
          (ap (parsed json) (
            get-set (generate_key tag_history_base id) (generate_key push_notifications_base user)
              (json.stringify value) storage.items)),
    )
