-- ===== src/Compose.antt =====
-- app/javascript/mastodon/reducers/compose.js: what each action does to the compose form.
pub mod State
pub mod Edits
pub mod Caret
pub mod Privacy
pub mod Warned
pub mod Mentions
mod Tests
use mathlib.Core.Option
use mastodon.Prelude.{
  ℕ, zero, suc, ◌+◌, ◌-◌, Text, codes, text_eq, option_eq, Bool, true, false, ◌&&◌, ◌||◌, not, leb,
  ◌==◌, Option, none, some, List, [], ◌∷◌, ◌++◌, map, if◌then◌else◌, take, drop, length, filter_not,
  keep_if, is_empty, value_or,
}
use mastodon.Entities.{Account, Mention, Media, StatusView, Emoji, HydratedCompose}
use mastodon.Actions.{
  Action, timeline_delete, store_hydrate, compose_mount, compose_unmount,
  compose_sensitivity_change, compose_spoilerness_change, compose_reply_cancel, compose_reset,
  compose_submit_request, compose_submit_success, compose_submit_fail, compose_upload_request,
  compose_upload_fail, compose_suggestions_clear, compose_upload_change_request,
  compose_upload_change_fail, compose_spoiler_text_change, compose_change,
  compose_suggestion_tags_update, compose_visibility_change, compose_composing_change,
  compose_reply, redraft, compose_upload_success, compose_upload_change_success,
  compose_upload_undo, compose_upload_progress, compose_mention, compose_direct,
  compose_suggestions_ready, compose_suggestion_select, compose_tag_history_update,
  compose_emoji_insert,
}
use mastodon.ComposeText.{
  starts_with, add_mention, status_to_text_mentions, splice, privacy_preference,
}
use mastodon.Compose.State.{Suggestion, word, picture, Compose, initial_state, Env}
use mastodon.Compose.Edits.{
  clear_all, append_media, remove_media, insert_suggestion, update_suggestion_tags, insert_emoji,
  hydrate, expand_mentions, reply, reset, redraft_text,
}

-- The item that an update of one attachment leaves in its place.
abbrev pub change_media : Media → Media → Media
change_media media item = if text_eq item.id media.id then media else item

-- The state after an action, or `none` where the reducer throws.
unfoldable pub compose : Env → Compose → Action → Option Compose
unfolding hydrate clear_all append_media remove_media insert_suggestion update_suggestion_tags
    insert_emoji expand_mentions reply reset redraft_text add_mention
compose env state (store_hydrate hydrated push) = some (hydrate env state hydrated)
compose env state compose_mount = some (record state { mounted = state.mounted + 1 })
compose env state compose_unmount =
    some (record state { mounted = state.mounted - 1; is_composing = false })
compose env state compose_sensitivity_change = some (record state {
  sensitive = if state.spoiler then state.sensitive else not state.sensitive;
  idempotency_key = some env.uuid;
})
compose env state compose_spoilerness_change = some (record state {
  spoiler_text = [];
  spoiler = not state.spoiler;
  idempotency_key = some env.uuid;
  sensitive =
      if not state.sensitive && not (is_empty state.media_attachments)
      then true
      else state.sensitive;
})
compose env state (compose_spoiler_text_change text) =
    some (record state { spoiler_text = text; idempotency_key = some env.uuid })
compose env state (compose_visibility_change value) =
    some (record state { privacy = some value; idempotency_key = some env.uuid })
compose env state (compose_change text) =
    some (record state { text = text; idempotency_key = some env.uuid })
compose env state (compose_composing_change value) = some (record state { is_composing = value })
compose env state (compose_reply status) = some (reply env state status)
compose env state compose_reply_cancel = some (reset env state)
compose env state compose_reset = some (reset env state)
compose env state compose_submit_request = some (record state { is_submitting = true })
compose env state compose_upload_change_request = some (record state { is_submitting = true })
compose env state compose_submit_success = some (clear_all env state)
compose env state compose_submit_fail = some (record state { is_submitting = false })
compose env state compose_upload_change_fail = some (record state { is_submitting = false })
compose env state compose_upload_request = some (record state { is_uploading = true })
compose env state (compose_upload_success media) = some (append_media env state media)
compose env state compose_upload_fail = some (record state { is_uploading = false })
compose env state (compose_upload_undo media_id) = some (remove_media env state media_id)
compose env state (compose_upload_progress loaded total) =
    some (record state { progress = env.percent loaded total })
compose env state (compose_mention account) = some (record state {
  text = add_mention state.text account.acct;
  focus_date = some env.now;
  caret_position = none;
  idempotency_key = some env.uuid;
})
compose env state (compose_direct account) = some (record state {
  text = add_mention state.text account.acct;
  privacy = some (codes "direct");
  focus_date = some env.now;
  caret_position = none;
  idempotency_key = some env.uuid;
})
compose env state compose_suggestions_clear =
    some (record state { suggestions = []; suggestion_token = none })
compose env state (compose_suggestions_ready token accounts emojis) = some (record state {
  suggestions = elim accounts [
    | some list ↦ map (λ (a : Account). word a.id) list
    | none ↦ map picture emojis
  ];
  suggestion_token = some token;
})
compose env state (compose_suggestion_select position token completion) =
    some (insert_suggestion env state position token completion)
compose env state (compose_suggestion_tags_update token) = some (update_suggestion_tags state token)
compose env state (compose_tag_history_update tags) = some (record state { tag_history = tags })
compose env state (timeline_delete id account_id references reblog_of) =
    some
      (if option_eq (some id) state.in_reply_to then record state { in_reply_to = none } else state)
compose env state (compose_emoji_insert position emoji needs_space) =
    some (insert_emoji env state position emoji needs_space)
compose env state (compose_upload_change_success media) = some (record state {
  is_submitting = false;
  media_attachments = map (change_media media) state.media_attachments;
})
compose env state (redraft status) =
    Option.map (redraft_text env state status) (expand_mentions env status)
compose env state _ = some state
