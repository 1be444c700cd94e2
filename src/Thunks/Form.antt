-- ===== src/Thunks/Form.antt =====
-- app/javascript/mastodon/actions/compose.js: the actions of the compose form.
use mastodon.Prelude.{ℕ, Text, codes, Bool, none, some, List, [], map}
use mastodon.Entities.{Media, Emoji}
use mastodon.Actions.{Action}
use mastodon.Thunks.Message.{Message, Error, message, failure, skipping_loading}
use mastodon.Thunks.Answers.{FetchedAccount, account_of}
use mastodon.Entities.{Media, Emoji}

abbrev pub change_compose : Text → Message
change_compose words = message (codes "COMPOSE_CHANGE") (Action.compose_change words)

abbrev pub cancel_reply_compose : Message
cancel_reply_compose = message (codes "COMPOSE_REPLY_CANCEL") (Action.compose_reply_cancel)

abbrev pub reset_compose : Message
reset_compose = message (codes "COMPOSE_RESET") (Action.compose_reset)

abbrev pub submit_compose_request : Message
submit_compose_request = message (codes "COMPOSE_SUBMIT_REQUEST") (Action.compose_submit_request)

abbrev pub submit_compose_fail : Error → Message
submit_compose_fail error = failure (codes "COMPOSE_SUBMIT_FAIL") error (Action.compose_submit_fail)

abbrev pub upload_compose_request : Message
upload_compose_request =
    skipping_loading (message (codes "COMPOSE_UPLOAD_REQUEST") (Action.compose_upload_request))

abbrev pub upload_compose_progress : ℕ → ℕ → Message
upload_compose_progress loaded total =
    message (codes "COMPOSE_UPLOAD_PROGRESS") (Action.compose_upload_progress loaded total)

abbrev pub upload_compose_success : Media → Message
upload_compose_success file =
    skipping_loading (message (codes "COMPOSE_UPLOAD_SUCCESS") (Action.compose_upload_success file))

abbrev pub upload_compose_fail : Error → Message
upload_compose_fail error =
    skipping_loading (failure (codes "COMPOSE_UPLOAD_FAIL") error (Action.compose_upload_fail))

abbrev pub undo_upload_compose : Text → Message
undo_upload_compose media_id =
    message (codes "COMPOSE_UPLOAD_UNDO") (Action.compose_upload_undo media_id)

abbrev pub update_suggestion_tags : Text → Message
update_suggestion_tags token =
    message (codes "COMPOSE_SUGGESTION_TAGS_UPDATE") (Action.compose_suggestion_tags_update token)

abbrev pub update_tag_history : List Text → Message
update_tag_history tags =
    message (codes "COMPOSE_TAG_HISTORY_UPDATE") (Action.compose_tag_history_update tags)

abbrev pub mount_compose : Message
mount_compose = message (codes "COMPOSE_MOUNT") (Action.compose_mount)

abbrev pub unmount_compose : Message
unmount_compose = message (codes "COMPOSE_UNMOUNT") (Action.compose_unmount)

abbrev pub change_compose_sensitivity : Message
change_compose_sensitivity =
    message (codes "COMPOSE_SENSITIVITY_CHANGE") (Action.compose_sensitivity_change)

abbrev pub change_compose_spoilerness : Message
change_compose_spoilerness =
    message (codes "COMPOSE_SPOILERNESS_CHANGE") (Action.compose_spoilerness_change)

abbrev pub change_compose_spoiler_text : Text → Message
change_compose_spoiler_text words =
    message (codes "COMPOSE_SPOILER_TEXT_CHANGE") (Action.compose_spoiler_text_change words)

abbrev pub change_compose_visibility : Text → Message
change_compose_visibility value =
    message (codes "COMPOSE_VISIBILITY_CHANGE") (Action.compose_visibility_change value)

abbrev pub insert_emoji_compose : ℕ → Emoji → Bool → Message
insert_emoji_compose position emoji needs_space =
    message (codes "COMPOSE_EMOJI_INSERT") (Action.compose_emoji_insert position emoji needs_space)

abbrev pub change_composing : Bool → Message
change_composing value =
    message (codes "COMPOSE_COMPOSING_CHANGE") (Action.compose_composing_change value)

abbrev pub change_upload_compose_request : Message
change_upload_compose_request =
    skipping_loading
      (message (codes "COMPOSE_UPLOAD_UPDATE_REQUEST") Action.compose_upload_change_request)

abbrev pub change_upload_compose_success : Media → Message
change_upload_compose_success file =
    skipping_loading
      (message (codes "COMPOSE_UPLOAD_UPDATE_SUCCESS") (Action.compose_upload_change_success file))

abbrev pub change_upload_compose_fail : Error → Message
change_upload_compose_fail error =
    skipping_loading
      (failure (codes "COMPOSE_UPLOAD_UPDATE_FAIL") error Action.compose_upload_change_fail)

abbrev pub submit_compose_success : Message
submit_compose_success = message (codes "COMPOSE_SUBMIT_SUCCESS") Action.compose_submit_success

-- What a request for suggestions is cancelled by is left out: it gets no answer then.
abbrev pub clear_compose_suggestions : Message
clear_compose_suggestions =
    message (codes "COMPOSE_SUGGESTIONS_CLEAR") Action.compose_suggestions_clear

abbrev pub ready_compose_suggestions_emojis : Text → List Emoji → Message
ready_compose_suggestions_emojis token emojis =
    message (codes "COMPOSE_SUGGESTIONS_READY") (Action.compose_suggestions_ready token none emojis)

abbrev pub ready_compose_suggestions_accounts : Text → List FetchedAccount → Message
ready_compose_suggestions_accounts token accounts =
    message (codes "COMPOSE_SUGGESTIONS_READY")
      (Action.compose_suggestions_ready token (some (map account_of accounts)) [])
