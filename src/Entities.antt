-- ===== src/Entities.antt =====
-- The entities that actions carry, with the fields that the reducers of app/javascript/mastodon
-- read: a status as the store keeps it (its account and reblog are ids), a relationship and a
-- notification as the server sends it.
use mastodon.Prelude.{Map, Text, Bool, Option, List, ℕ}

pub record Account : Type 0 where
  pub id : Text
  pub acct : Text
  pub followers_count : ℕ
  pub following_count : ℕ
  pub statuses_count : ℕ

pub record Status : Type 0 where
  pub id : Text
  pub account : Text
  pub reblog : Option Text
  pub in_reply_to_id : Option Text

pub record Relationship : Type 0 where
  pub id : Text
  pub muting_notifications : Bool
  pub domain_blocking : Bool

pub record Notification : Type 0 where
  pub id : Text
  pub kind : Text
  pub account : Account
  pub status : Option Status

pub record Mention : Type 0 where
  pub id : Text
  pub acct : Text
  pub url : Text

pub record Media : Type 0 where
  pub id : Text
  pub description : Option Text

-- A status as a selector hands it to the components, with its account.
pub record StatusView : Type 0 where
  pub id : Text
  pub account : Account
  pub in_reply_to_id : Option Text
  pub visibility : Text
  pub spoiler_text : Text
  pub content : Text
  pub mentions : List Mention
  pub media_attachments : List Media

pub record Emoji : Type 0 where
  pub id : Text
  pub native : Text

-- What the server writes into the page for the compose form; a key may be missing.
pub record HydratedCompose : Type 0 where
  pub default_privacy : Option Text
  pub default_sensitive : Option Bool
  pub text : Option Text

-- What a status is in the store: its fields, if it was imported, and the flags that are set on it.
pub record StatusEntry : Type 0 where
  pub body : Option Status
  pub favourited : Option Bool
  pub reblogged : Option Bool
  pub muted : Option Bool
  pub hidden : Option Bool

pub record ListEntity : Type 0 where
  pub id : Text
  pub title : Text

pub record Alert : Type 0 where
  pub title : Text
  pub message : Text

-- A column of the advanced interface; a LIST column has the id of its list among its parameters.
pub record Column : Type 0 where
  pub id : Text
  pub uuid : Text
  pub list_id : Option Text

pub record SearchResults : Type 0 where
  pub accounts : List Account
  pub statuses : List Status
  pub hashtags : List Text

-- What the server writes into the page for push notifications.
pub record PushSubscription : Type 0 where
  pub id : Text
  pub endpoint : Text
  pub alerts : Option (Map Bool)
