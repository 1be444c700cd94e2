-- ===== src/Actions.antt =====
-- The actions that the reducers of app/javascript/mastodon/reducers handle, one constructor for
-- each action type of app/javascript/mastodon/actions, with the payload that a reducer reads.
use mastodon.Prelude.{Text, Bool, Option, List, Map, ℕ, ℤ}
use mastodon.Entities.{
  Status, Relationship, Notification, Account, Media, StatusView, Emoji, HydratedCompose,
  PushSubscription, StatusEntry, ListEntity, Alert, SearchResults,
}

-- A status that a deleted one is reblogged by: its id and its account.
abbrev pub Reference : Type 0
Reference = Text × Text

pub data Action : Type 0 where
  timeline_update : (timeline : Text) (status : Status) → Action
  timeline_delete :
      (id : Text) (account_id : Option Text) (references : List Reference) (reblog_of : Option Text)
      → Action
  timeline_expand_request : (timeline : Text) → Action
  timeline_expand_success :
      (timeline : Text) (statuses : List Status) (next : Option Text) (partial : Bool) → Action
  timeline_expand_fail : (timeline : Text) → Action
  timeline_scroll_top : (timeline : Text) (top : Bool) → Action
  timeline_disconnect : (timeline : Text) → Action
  account_block_success account_mute_success account_unfollow_success :
      (relationship : Relationship) (statuses : Map Status) → Action
  notifications_update : (notification : Notification) → Action
  notifications_expand_request notifications_expand_fail notifications_clear : Action
  notifications_expand_success : (notifications : List Notification) (next : Option Text) → Action
  notifications_scroll_top : (top : Bool) → Action
  context_fetch_success : (id : Text) (ancestors descendants : List Status) → Action
  store_hydrate : (compose : HydratedCompose) (push_subscription : Option PushSubscription) → Action
  compose_mount compose_unmount compose_sensitivity_change compose_spoilerness_change
        compose_reply_cancel compose_reset compose_submit_request compose_submit_success
        compose_submit_fail compose_upload_request compose_upload_fail compose_suggestions_clear
        compose_upload_change_request compose_upload_change_fail :
      Action
  compose_spoiler_text_change compose_change compose_suggestion_tags_update : (text : Text) → Action
  compose_visibility_change : (value : Text) → Action
  compose_composing_change : (value : Bool) → Action
  compose_reply redraft : (status : StatusView) → Action
  compose_upload_success compose_upload_change_success : (media : Media) → Action
  compose_upload_undo : (media_id : Text) → Action
  compose_upload_progress : (loaded total : ℕ) → Action
  compose_mention compose_direct : (account : Account) → Action
  compose_suggestions_ready :
      (token : Text) (accounts : Option (List Account)) (emojis : List Emoji) → Action
  compose_suggestion_select : (position : ℕ) (token completion : Text) → Action
  compose_tag_history_update : (tags : List Text) → Action
  compose_emoji_insert : (position : ℕ) (emoji : Emoji) (needs_space : Bool) → Action
  status_import : (id : Text) (status : StatusEntry) → Action
  statuses_import : (statuses : List (Text × StatusEntry)) → Action
  favourite_request favourite_fail reblog_request reblog_fail favourite_success unfavourite_success
        pin_success unpin_success status_mute_success status_unmute_success :
      (id : Text) → Action
  status_reveal status_hide : (ids : List Text) → Action
  favourited_statuses_fetch_request favourited_statuses_expand_request
        favourited_statuses_fetch_fail favourited_statuses_expand_fail :
      Action
  favourited_statuses_fetch_success favourited_statuses_expand_success
        pinned_statuses_fetch_success :
      (statuses : List Status) (next : Option Text) → Action
  followers_fetch_success followers_expand_success following_fetch_success
        following_expand_success :
      (id : Text) (accounts : List Account) (next : Option Text) → Action
  reblogs_fetch_success favourites_fetch_success : (id : Text) (accounts : List Account) → Action
  follow_requests_fetch_success follow_requests_expand_success blocks_fetch_success
        blocks_expand_success mutes_fetch_success mutes_expand_success :
      (accounts : List Account) (next : Option Text) → Action
  follow_request_authorize_success follow_request_reject_success : (id : Text) → Action
  account_import : (account : Account) → Action
  accounts_import : (accounts : List Account) → Action
  account_follow_success : (relationship : Relationship) (already_following : Bool) → Action
  account_unblock_success account_unmute_success account_pin_success account_unpin_success :
      (relationship : Relationship) → Action
  relationships_fetch_success : (relationships : List Relationship) → Action
  domain_block_success domain_unblock_success : (domain : Text) (accounts : List Text) → Action
  domain_blocks_fetch_success domain_blocks_expand_success :
      (domains : List Text) (next : Option Text) → Action
  list_fetch_success list_create_success list_update_success : (list : ListEntity) → Action
  lists_fetch_success : (lists : List ListEntity) → Action
  list_delete_success : (id : Text) → Action
  list_fetch_fail : (id : Text) (status : ℕ) → Action
  list_editor_reset list_create_request list_create_fail list_update_request list_update_fail
        list_accounts_fetch_request list_accounts_fetch_fail list_editor_suggestions_clear :
      Action
  list_editor_setup : (list : ListEntity) → Action
  list_editor_title_change list_editor_suggestions_change : (value : Text) → Action
  list_accounts_fetch_success list_editor_suggestions_ready : (accounts : List Account) → Action
  list_editor_add_success list_editor_remove_success : (account_id : Text) → Action
  alert_show : (alert : Alert) → Action
  alert_dismiss : (key : ℕ) → Action
  alert_clear : Action
  column_add : (id : Text) (list_id : Option Text) → Action
  column_remove : (uuid : Text) → Action
  column_move : (uuid : Text) (direction : ℤ) → Action
  emoji_use : (emoji : Emoji) → Action
  setting_save : Action
  report_init : (account_id : Text) (status : Option Status) → Action
  report_submit_request report_submit_success report_submit_fail report_cancel : Action
  report_status_toggle : (status_id : Text) (checked : Bool) → Action
  report_comment_change : (comment : Text) → Action
  report_forward_change : (forward : Bool) → Action
  search_change : (value : Text) → Action
  search_clear search_show : Action
  search_fetch_success : (results : SearchResults) → Action
  mutes_init_modal : (account_id : Text) → Action
  mutes_toggle_hide_notifications : Action
  dropdown_menu_open : (id : ℕ) (placement : Text) → Action
  dropdown_menu_close : (id : ℕ) → Action
  height_cache_set : (key id : Text) (height : ℕ) → Action
  height_cache_clear : Action
  trends_fetch_request trends_fetch_fail clear_subscription : Action
  trends_fetch_success : (hashtags : List Text) → Action
  status_card_fetch_success : (id card : Text) → Action
  filters_fetch_success : (phrases : List Text) → Action
  set_subscription : (id endpoint : Text) (alerts : Map Bool) → Action
  set_browser_support : (value : Bool) → Action
  set_alerts : (name : Text) (value : Bool) → Action
