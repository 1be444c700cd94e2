-- ===== src/Streaming/Database.antt =====
-- What streaming/index.js reads from PostgreSQL: the tables that its queries name, and whether a
-- connection and a query succeed. The queries are evaluated over the rows.
use mastodon.Prelude.{Text, Bool, Option, List}

pub record AccessToken : Type 0 where
  pub token : Text
  pub resource_owner_id : Text
  pub is_revoked : Bool

pub record User : Type 0 where
  pub id : Text
  pub account_id : Text
  pub chosen_languages : Option (List Text)

pub record ListRow : Type 0 where
  pub id : Text
  pub account_id : Text

-- A row of `blocks` or `mutes`: who, and whom; of `account_domain_blocks`: who, and which domain.
pub record Row : Type 0 where
  pub account_id : Text
  pub target : Text

pub record Database : Type 0 where
  pub connects : Bool
  pub answers : Bool
  pub oauth_access_tokens : List AccessToken
  pub users : List User
  pub lists : List ListRow
  pub blocks : List Row
  pub mutes : List Row
  pub account_domain_blocks : List Row
