-- ===== src/Compose/Edits.antt =====
-- The operations of the compose form (app/javascript/mastodon/reducers/compose.js) that are more than
-- one assignment.
use mathlib.Core.Option
use mastodon.Prelude.{
  ℕ, ◌+◌, Text, text_eq, Bool, true, false, ◌&&◌, ◌||◌, not, ◌==◌, Option, none, some, List, [],
  ◌∷◌, ◌++◌, map, if◌then◌else◌, take, drop, length, filter_not, keep_if, is_empty, value_or,
}
use mastodon.Entities.{Mention, Media, StatusView, Emoji, HydratedCompose}
use mastodon.ComposeText.{starts_with, status_to_text_mentions, splice, privacy_preference}
use mastodon.Compose.State.{word, Compose, Env}

unfoldable pub clear_all : Env → Compose → Compose
clear_all env state = record state {
  text = [];
  spoiler = false;
  spoiler_text = [];
  is_submitting = false;
  in_reply_to = none;
  privacy = some state.default_privacy;
  sensitive = false;
  media_attachments = [];
  idempotency_key = some env.uuid;
}

unfoldable pub append_media : Env → Compose → Media → Compose
append_media env state media = record state {
  media_attachments = state.media_attachments ++ (media ∷ []);
  is_uploading = false;
  reset_file_key = env.random_key;
  idempotency_key = some env.uuid;
  sensitive =
      if is_empty state.media_attachments && (state.default_sensitive || state.spoiler)
      then true
      else state.sensitive;
}

unfoldable pub remove_media : Env → Compose → Text → Compose
remove_media env state media_id = record state {
  media_attachments =
      filter_not (λ (item : Media). text_eq item.id media_id) state.media_attachments;
  idempotency_key = some env.uuid;
  sensitive = if length state.media_attachments == 1 then false else state.sensitive;
}

unfoldable pub insert_suggestion : Env → Compose → ℕ → Text → Text → Compose
insert_suggestion env state position token completion = record state {
  text = splice state.text position completion (position + length token);
  suggestion_token = none;
  suggestions = [];
  focus_date = some env.now;
  caret_position = some (position + length completion + 1);
  idempotency_key = some env.uuid;
}

unfoldable pub update_suggestion_tags : Compose → Text → Compose
update_suggestion_tags state token = record state {
  suggestions =
      map (λ tag. word (35 ∷ tag))
        (take 4 (keep_if (starts_with (drop 1 token)) state.tag_history));
  suggestion_token = some token;
}

unfoldable pub insert_emoji : Env → Compose → ℕ → Emoji → Bool → Compose
insert_emoji env state position emoji needs_space =
    let inserted = if needs_space then 32 ∷ emoji.native else emoji.native in
    record state {
      text = splice state.text position inserted position;
      focus_date = some env.now;
      caret_position = some (position + length inserted + 1);
      idempotency_key = some env.uuid;
    }

unfoldable pub hydrate : Env → Compose → HydratedCompose → Compose
unfolding clear_all
hydrate env state hydrated =
    let cleared = clear_all env (record state {
      default_privacy = value_or state.default_privacy hydrated.default_privacy;
      default_sensitive = value_or state.default_sensitive hydrated.default_sensitive;
      text = value_or state.text hydrated.text;
    }) in
    record cleared { text = value_or cleared.text hydrated.text }

-- `none` where a mention has no link in the document.
unfoldable pub set_mentions : (env : Env) → env.Document → List Mention → Option env.Document
set_mentions env fragment [] = some fragment
set_mentions env fragment (m ∷ mentions) = elim (env.set_link_text fragment m.url (64 ∷ m.acct)) [
  | none ↦ none
  | some changed ↦ set_mentions env changed mentions
]

unfoldable pub expand_mentions : Env → StatusView → Option Text
unfolding set_mentions
expand_mentions env status =
    Option.map env.inner_html (set_mentions env (env.parse status.content) status.mentions)

unfoldable pub reply : Env → Compose → StatusView → Compose
unfolding status_to_text_mentions privacy_preference
reply env state status = record state {
  in_reply_to = some status.id;
  text = status_to_text_mentions env.me status;
  privacy = some (privacy_preference status.visibility state.default_privacy);
  focus_date = some env.now;
  caret_position = none;
  preselect_date = some env.later;
  idempotency_key = some env.uuid;
  spoiler = not (is_empty status.spoiler_text);
  spoiler_text = status.spoiler_text;
}

unfoldable pub reset : Env → Compose → Compose
reset env state = record state {
  in_reply_to = none;
  text = [];
  spoiler = false;
  spoiler_text = [];
  privacy = some state.default_privacy;
  idempotency_key = some env.uuid;
}

unfoldable pub redraft_text : Env → Compose → StatusView → Text → Compose
redraft_text env state status html = record state {
  text = env.unescape_html html;
  in_reply_to = status.in_reply_to_id;
  privacy = some status.visibility;
  media_attachments = status.media_attachments;
  focus_date = some env.now;
  caret_position = none;
  idempotency_key = some env.uuid;
  spoiler = not (is_empty status.spoiler_text);
  spoiler_text = status.spoiler_text;
}
