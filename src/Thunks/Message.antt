-- ===== src/Thunks/Message.antt =====
-- What is dispatched: an action object with the keys that the middleware reads
-- (app/javascript/mastodon/middleware) and, if a reducer reads it, the action for the store.
use mastodon.Prelude.{ℕ, Text, Bool, true, false, Option, none, some}
use mastodon.Actions.{Action}

-- What a failed request leaves behind; `none` where no response came, or another exception was
-- thrown.
pub record Response : Type 0 where
  pub status : ℕ
  pub status_text : Text
  pub error : Option Text

pub record Error : Type 0 where
  pub response : Option Response

-- An exception that is no answer of the server.
abbrev pub thrown : Error
thrown = record { response = none }

pub record Message : Type 0 where
  pub kind : Text
  pub error : Option Error
  pub skip_loading : Bool
  pub skip_alert : Bool
  pub body : Option Action

-- A message that a reducer reads, one that none reads, and the failures.
abbrev pub message : Text → Action → Message
message kind action = record {
  kind = kind;
  error = none;
  skip_loading = false;
  skip_alert = false;
  body = some action;
}

abbrev pub unread : Text → Message
unread kind = record {
  kind = kind;
  error = none;
  skip_loading = false;
  skip_alert = false;
  body = none;
}

abbrev pub failure : Text → Error → Action → Message
failure kind error action = record (message kind action) { error = some error }

abbrev pub unread_failure : Text → Error → Message
unread_failure kind error = record (unread kind) { error = some error }

-- `skipLoading: true` and `skipAlert: true`.
abbrev pub skipping_loading : Message → Message
skipping_loading m = record m { skip_loading = true }

abbrev pub skipping_alert : Message → Message
skipping_alert m = record m { skip_alert = true }
