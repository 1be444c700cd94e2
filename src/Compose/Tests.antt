-- ===== src/Compose/Tests.antt =====
-- Runs of the compose form on concrete states.
use mastodon.Prelude.{
  option_eq, not, any, ◌&&◌, ◌||◌, Text, text_eq, codes, ◌≡◌, refl, true, false, none, some, [],
  ◌∷◌, IfSome, arith,
}
use mastodon.Entities.{Mention, Account, Media, StatusView, Emoji}
use mastodon.Actions.{
  compose_reply, compose_upload_undo, compose_suggestion_select, compose_emoji_insert,
}
use mastodon.ComposeText.{
  mention_set, at, trim_start, trim_end, add_mention, status_to_text_mentions,
}
use mastodon.Compose.State.{Compose, Env}
use mastodon.Compose.Edits.{insert_suggestion, insert_emoji, reply}
use mastodon.Compose.Caret.{IsSplit, inserted-IsSplit}
use mastodon.Compose.Privacy.{Audience, reaches, reply-reaches}
use mastodon.Compose.Warned.{IsWarned, compose-IsWarned}
use mastodon.Compose.Mentions.{IsDistinct, mention_set-IsDistinct}
use mastodon.Compose.{compose}

-- A browser whose documents are their own HTML, with every link there.
abbrev browser : Env
browser = record {
  Document = Text;
  parse = λ html. html;
  inner_html = λ html. html;
  me = some (codes "1");
  uuid = codes "u";
  now = 5;
  later = 6;
  random_key = 7;
  percent = λ loaded total. loaded;
  set_link_text = λ html url text. some html;
  unescape_html = λ html. html;
}

abbrev bob : Account
bob = record {
  id = codes "2";
  acct = codes "bob";
  followers_count = 0;
  following_count = 0;
  statuses_count = 0;
}

abbrev picture_of_bob : Media
picture_of_bob = record { id = codes "9"; description = none }

abbrev smile : Emoji
smile = record { id = codes "smile"; native = codes ":)" }

abbrev warned_status : StatusView
warned_status = record {
  id = codes "8";
  account = bob;
  in_reply_to_id = none;
  visibility = codes "private";
  spoiler_text = codes "cw";
  content = codes "hello";
  mentions =
      record { id = codes "1"; acct = codes "me"; url = [] }
      ∷ record { id = codes "2"; acct = codes "bob"; url = [] }
      ∷ record { id = codes "3"; acct = codes "eve"; url = [] }
      ∷ [];
  media_attachments = picture_of_bob ∷ [];
}

abbrev form : Compose
form = record {
  mounted = 1;
  sensitive = true;
  spoiler = true;
  spoiler_text = codes "cw";
  privacy = none;
  text = codes "hi @b there";
  focus_date = none;
  caret_position = none;
  preselect_date = none;
  in_reply_to = none;
  is_composing = false;
  is_submitting = false;
  is_uploading = false;
  progress = 0;
  media_attachments = picture_of_bob ∷ [];
  suggestion_token = none;
  suggestions = [];
  default_privacy = codes "unlisted";
  default_sensitive = false;
  reset_file_key = 0;
  idempotency_key = none;
  tag_history = [];
}

reply_mentions : status_to_text_mentions browser.me warned_status ≡ codes "@bob @eve "
unfolding status_to_text_mentions text_eq
reply_mentions = refl

mention_trims : add_mention (codes " hi ") (codes "bob") ≡ codes "hi @bob "
unfolding add_mention trim_start trim_end
mention_trims = refl

suggestion_completes :
    (insert_suggestion browser form 3 (codes "@b") (codes "@bob")).text ≡ codes "hi @bob  there"
unfolding insert_suggestion
suggestion_completes = refl

inserted-IsSplit_example :
    let selected = insert_suggestion browser form 3 (codes "@b") (codes "@bob") in
    let inserted = insert_emoji browser form 3 smile true in
    (compose browser form (compose_suggestion_select 3 (codes "@b") (codes "@bob")) ≡ some selected)
    × (compose browser form (compose_emoji_insert 3 smile true) ≡ some inserted)
    × IsSplit selected.text (codes "hi ") (codes "@bob") (codes " there") selected.caret_position
    × IsSplit inserted.text (codes "hi ") (codes " :)") (codes "@b there") inserted.caret_position
inserted-IsSplit_example =
    inserted-IsSplit browser form 3 (codes "@b") (codes "@bob") smile true (omega arith)

reply-reaches_example :
    (p : Text) × (compose browser form (compose_reply warned_status)
      ≡ some (reply browser form warned_status))
    × ((reply browser form warned_status).privacy ≡ some p)
    × ((a : Audience) → reaches a p ≡ (reaches a (codes "private") && reaches a (codes "unlisted")))
reply-reaches_example = reply-reaches browser form warned_status

compose-IsWarned_example : IfSome IsWarned (compose browser form (compose_upload_undo (codes "9")))
unfolding text_eq
compose-IsWarned_example =
    compose-IsWarned browser form (compose_upload_undo (codes "9")) (λ _. refl) (λ _ _. refl)

mention_set-IsDistinct_example :
    IsDistinct (mention_set browser.me warned_status)
    × ((x : Text)
        → any (λ w. text_eq w x) (mention_set browser.me warned_status) ≡ (
            not (option_eq (some bob.id) browser.me) && text_eq (at bob.acct) x
            || any
                (λ (m : Mention). not (option_eq (some m.id) browser.me) && text_eq (at m.acct) x)
                warned_status.mentions))
mention_set-IsDistinct_example = mention_set-IsDistinct browser.me warned_status
