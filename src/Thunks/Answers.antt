-- ===== src/Thunks/Answers.antt =====
-- Requests to the API and their answers, with the fields that the client reads.
use mastodon.Prelude.{ℕ, Text, Bool, Option, none, some, List, []}
use mastodon.Entities.{Account, Status, Relationship, Notification, ListEntity, Media}

-- An account as the server sends it, with the account that it has moved to.
pub data FetchedAccount : Type 0 where
  settled : Account → FetchedAccount
  moved : Account → FetchedAccount → FetchedAccount

abbrev pub account_of : FetchedAccount → Account
account_of (settled account) = account
account_of (moved account to) = account

-- What a status has besides the one that it reblogs.
pub record Post : Type 0 where
  pub id : Text
  pub account : FetchedAccount
  pub in_reply_to_id : Option Text
  pub spoiler_text : Text
  pub sensitive : Bool
  pub favourited : Option Bool
  pub reblogged : Option Bool
  pub muted : Option Bool

pub data Fetched : Type 0 where
  original : Post → Fetched
  reblog : Post → Fetched → Fetched

abbrev pub post_of : Fetched → Post
post_of (original post) = post
post_of (reblog post inner) = post

abbrev pub reblog_id : Fetched → Option Text
reblog_id (original post) = none
reblog_id (reblog post inner) = some (post_of inner).id

-- The fields that reducers read of a status that was just fetched.
abbrev pub status_of : Fetched → Status
status_of s = record {
  id = (post_of s).id;
  account = (account_of (post_of s).account).id;
  reblog = reblog_id s;
  in_reply_to_id = (post_of s).in_reply_to_id;
}

pub record FetchedNotification : Type 0 where
  pub id : Text
  pub kind : Text
  pub account : FetchedAccount
  pub status : Option Fetched

abbrev pub notification_of : FetchedNotification → Notification
notification_of n = record {
  id = n.id;
  kind = n.kind;
  account = account_of n.account;
  status = elim n.status [ none ↦ none | some s ↦ some (status_of s) ];
}

-- A page, with the link to the next one.
pub record Page (A : Type 0) : Type 0 where
  pub entries : List A
  pub next : Option Text

-- A status that was just posted.
pub record Posted : Type 0 where
  pub status : Fetched
  pub tags : List Text
  pub visibility : Text

pub data Kind : Type 0 where
  nothing statuses accounts account status context notifications relationship relationships lists
        list domains search card phrases hashtags media posted :
      Kind

-- What an answer of each kind carries.
abbrev pub Answer : Kind → Type 0
Answer Kind.nothing = Unit
Answer Kind.statuses = Page Fetched
Answer Kind.accounts = Page FetchedAccount
Answer Kind.account = FetchedAccount
Answer Kind.status = Fetched
Answer Kind.context = List Fetched × List Fetched
Answer Kind.notifications = Page FetchedNotification
Answer Kind.relationship = Relationship
Answer Kind.relationships = List Relationship
Answer Kind.lists = List ListEntity
Answer Kind.list = ListEntity
Answer Kind.domains = Page Text
Answer Kind.search = List FetchedAccount × (List Fetched × List Text)
Answer Kind.card = Text
Answer Kind.phrases = List Text
Answer Kind.hashtags = List Text
Answer Kind.media = Media
Answer Kind.posted = Posted

-- The value of a query or body parameter; `object` stands for an object where a text is wanted.
pub data Param : Type 0 where
  text : Text → Param
  flag : Bool → Param
  number : ℕ → Param
  texts : List Text → Param
  null object : Param

abbrev pub optional : Option Text → Param
optional none = null
optional (some t) = text t

pub data Method : Type 0 where
  get post put patch delete : Method

pub record Request : Type 0 where
  pub method : Method
  pub path : Text
  pub headers : List (Text × Text)
  pub params : List (Text × Param)

abbrev pub request : Method → Text → List (Text × Param) → Request
request method path params = record { method = method; path = path; headers = []; params = params }
