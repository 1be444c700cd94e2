-- ===== src/Streaming/Filter/Laws.antt =====
-- What a client gets of its channel.
use mastodon.Prelude.{
  Text, codes, text_eq, text_eq_iff, truthy, ◌≡◌, ◌≢◌, refl, ◌↔◌, Bool, true, false, not, ◌&&◌,
  Option, none, some, if◌then◌else◌, arith,
}
use mastodon.Streaming.Database.{Database}
use mastodon.Streaming.Auth.{Session}
use mastodon.Streaming.Filter.{
  Update, object, Message, Outcome, transmit, skip, account_domain, domain_query, language_refused,
  check_database, filter_update, listener,
}
use mastodon.Streaming.Filter.Query.{is_apart, blocks_query-is_apart}

-- The reader has blocked the domain of the author.
abbrev pub domain_blocked : Database → Text → Update → Bool
domain_blocked db reader u = elim (account_domain u.author_acct) [
  | none ↦ false
  | some d ↦ truthy (some d) && domain_query db reader d
]

-- The database was asked and answered, and the reader may see the update.
abbrev pub may_see : Database → Text → Update → Bool
may_see db reader u =
    db.connects && (db.answers && (not (is_apart db reader u) && not (domain_blocked db reader u)))

abbrev pub update_message : Update → Message
update_message u = record { event = codes "update"; payload = object u }

check_database-may_see :
    (db : Database) (reader : Text) (u : Update) (event : Text)
    → check_database db reader u event
      ≡ (if may_see db reader u then transmit event (object u) else skip)
unfolding check_database
check_database-may_see db reader u event = rw (blocks_query-is_apart db reader u) (ground arith)

-- The two sides of `listener-update`, by the reader.
by_reader :
    (db : Database) (u : Update) (event : Text) (refused : Bool) (account : Option Text)
    → ◌≡◌ {A = Outcome}
        (if refused then skip else elim account [
          | none ↦ transmit event (object u)
          | some reader ↦ check_database db reader u event
        ])
        (if refused then skip else elim account [
          | none ↦ transmit event (object u)
          | some reader ↦ if may_see db reader u then transmit event (object u) else skip
        ])
by_reader db u event true account = refl
by_reader db u event false none = refl
by_reader db u event false (some reader) = check_database-may_see db reader u event

-- A client that is logged in gets a status on a filtered stream exactly if its languages allow it
-- and the database says that reader, author, mentioned accounts and domain are not apart; where the
-- database fails, it gets nothing. A client that is not logged in gets it if no language is refused.
pub listener-update :
    (db : Database) (session : Session) (u : Update)
    → listener db session true false (update_message u) ≡ (
        if language_refused session.chosen_languages u.language
        then skip
        else elim session.account_id [
          | none ↦ transmit (codes "update") (object u)
          | some reader ↦ if may_see db reader u then transmit (codes "update") (object u) else skip
        ])
unfolding listener filter_update text_eq
listener-update db session u =
    by_reader db u (codes "update") (language_refused session.chosen_languages u.language)
      session.account_id

-- What is no status passes, whatever the database says, unless the stream is of notifications only:
-- such a stream passes nothing but notifications.
listener-other :
    (db : Database) (session : Session) (needs_filtering notification_only : Bool) (m : Message)
    → m.event ≢ codes "update"
    → (notification_only ≡ false
        → listener db session needs_filtering notification_only m ≡ transmit m.event m.payload)
      × (notification_only ≡ true
          → (listener db session needs_filtering notification_only m ≡ transmit m.event m.payload)
            ↔ (m.event ≡ codes "notification"))
unfolding listener
listener-other db session needs_filtering notification_only m other = (
  (λ e. rw e (ground (arith, text_eq_iff m.event (codes "update")))),
  λ e. rw e (
    ground
        (arith, text_eq_iff m.event (codes "notification"), text_eq_iff m.event (codes "update")),
    ground
        (arith, text_eq_iff m.event (codes "notification"), text_eq_iff m.event (codes "update")),
  ),
)
