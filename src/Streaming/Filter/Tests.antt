-- ===== src/Streaming/Filter/Tests.antt =====
-- The filter of the streaming server on concrete updates.
use mastodon.Prelude.{
  codes, text_eq, ne_of_text_eq, ◌≡◌, ◌≢◌, refl, true, false, none, some, [], ◌∷◌, if◌then◌else◌,
}
use mastodon.Streaming.Database.{Database}
use mastodon.Streaming.Auth.{Session}
use mastodon.Streaming.Filter.{
  Update, object, string, Message, transmit, skip, account_domain, language_refused, blocks_query,
  placeholders, target_account_ids, listener,
}
use mastodon.Streaming.Filter.Query.{is_apart, blocks_query-is_apart}
use mastodon.Streaming.Filter.Laws.{may_see, update_message, listener-update}

abbrev db : Database
db = record {
  connects = true;
  answers = true;
  oauth_access_tokens = [];
  users = [];
  lists = [];
  blocks = [];
  mutes = record { account_id = codes "1"; target = codes "3" } ∷ [];
  account_domain_blocks = [];
}

abbrev session : Session
session = record { account_id = some (codes "1"); chosen_languages = none }

-- The reader 1 has muted account 3, which the update mentions.
abbrev update : Update
update = record {
  id = codes "9";
  author_id = codes "2";
  author_acct = codes "bob@example.com";
  mentions = codes "3" ∷ [];
  language = none;
}

domain_of : account_domain (codes "bob@example.com") ≡ some (codes "example.com")
unfolding account_domain
domain_of = refl

muted_mention : listener db session true false (update_message update) ≡ skip
unfolding listener text_eq
muted_mention = refl

listener-update_example : listener db session true false (update_message update) ≡ (
    if language_refused none none
    then skip
    else (if may_see db (codes "1") update
        then transmit (codes "update") (object update)
        else skip))
listener-update_example = listener-update db session update

abbrev deletion : Message
deletion = record { event = codes "delete"; payload = string (codes "9") }

not_update : codes "delete" ≢ codes "update"
unfolding text_eq
not_update = ne_of_text_eq (codes "delete") (codes "update") refl

blocks_query-is_apart_example :
    blocks_query db
      (codes "1" ∷ codes "2" ∷ target_account_ids update)
      (placeholders (target_account_ids update) 2)
    ≡ is_apart db (codes "1") update
blocks_query-is_apart_example = blocks_query-is_apart db (codes "1") update
