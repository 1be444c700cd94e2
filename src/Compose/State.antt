-- ===== src/Compose/State.antt =====
-- The state of the compose form, and what its reducer takes from outside
-- (app/javascript/mastodon/reducers/compose.js).
use mastodon.Prelude.{ℕ, Text, codes, Bool, false, Option, none, List, []}
use mastodon.Entities.{Media, Emoji}

-- An entry of the suggestions: the id of an account or a hashtag, or an emoji.
pub data Suggestion : Type 0 where
  word : Text → Suggestion
  picture : Emoji → Suggestion

pub record Compose : Type 0 where
  pub mounted : ℕ
  pub sensitive : Bool
  pub spoiler : Bool
  pub spoiler_text : Text
  pub privacy : Option Text
  pub text : Text
  pub focus_date : Option ℕ
  pub caret_position : Option ℕ
  pub preselect_date : Option ℕ
  pub in_reply_to : Option Text
  pub is_composing : Bool
  pub is_submitting : Bool
  pub is_uploading : Bool
  pub progress : ℕ
  pub media_attachments : List Media
  pub suggestion_token : Option Text
  pub suggestions : List Suggestion
  pub default_privacy : Text
  pub default_sensitive : Bool
  pub reset_file_key : ℕ
  pub idempotency_key : Option Text
  pub tag_history : List Text

unfoldable pub initial_state : ℕ → Compose
initial_state random = record {
  mounted = 0;
  sensitive = false;
  spoiler = false;
  spoiler_text = [];
  privacy = none;
  text = [];
  focus_date = none;
  caret_position = none;
  preselect_date = none;
  in_reply_to = none;
  is_composing = false;
  is_submitting = false;
  is_uploading = false;
  progress = 0;
  media_attachments = [];
  suggestion_token = none;
  suggestions = [];
  default_privacy = codes "public";
  default_sensitive = false;
  reset_file_key = random;
  idempotency_key = none;
  tag_history = [];
}

-- What the reducer takes from outside while it handles one action: the user's id, a new uuid, the
-- clock at its two readings, a random file key, the rounded percentage of an upload, the browser's
-- documents (the parser, a new text for the link to a URL, `none` where there is no such link and
-- the code throws, the HTML of a document), and `unescapeHTML` of utils/html.js, which is made of
-- the browser's regular expressions and its parser.
pub record Env : Type 1 where
  pub Document : Type 0
  pub parse : Text → Document
  pub inner_html : Document → Text
  pub me : Option Text
  pub uuid : Text
  pub now : ℕ
  pub later : ℕ
  pub random_key : ℕ
  pub percent : ℕ → ℕ → ℕ
  pub set_link_text : Document → Text → Text → Option Document
  pub unescape_html : Text → Text
