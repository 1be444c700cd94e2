-- ===== src/Streaming/Auth/Tests.antt =====
-- Who is let in, with one stored token.
use mastodon.Prelude.{
  Text, codes, text_eq, ◌≡◌, refl, true, false, not, ◌&&◌, none, some, [], ◌∷◌, any, if◌then◌else◌,
}
use mastodon.Streaming.Database.{Database, ListRow}
use mastodon.Streaming.Auth.{
  Request, Session, anonymous, ok, account_from_request, is_public_stream, is_public_endpoint,
  ws_verify_client, authentication_middleware, authorize_list_access, account_from_token,
}
use mastodon.Streaming.Auth.Laws.{
  IsAdmitted, ws_verify_client-IsAdmitted, authentication_middleware-IsAdmitted,
  ws_verify_client-no_token, authorize_list_access-owner,
}

abbrev db : Database
db = record {
  connects = true;
  answers = true;
  oauth_access_tokens =
      record { token = codes "t"; resource_owner_id = codes "7"; is_revoked = false } ∷ [];
  users = record { id = codes "7"; account_id = codes "1"; chosen_languages = none } ∷ [];
  lists = record { id = codes "5"; account_id = codes "1" } ∷ [];
  blocks = [];
  mutes = [];
  account_domain_blocks = [];
}

abbrev request : Request
request = record {
  method = codes "GET";
  path = codes "/api/v1/streaming/user";
  authorization = some (codes "Bearer t");
  access_token = none;
  stream = codes "user";
  only_media = none;
  tag = [];
  list = codes "5";
  remote_address = codes "127.0.0.1";
}

abbrev session : Session
session = record { account_id = some (codes "1"); chosen_languages = none }

accepted : ws_verify_client db request ≡ some session
unfolding ws_verify_client account_from_request is_public_stream text_eq account_from_token
accepted = refl

ws_verify_client-IsAdmitted_example :
    IsAdmitted db request (not (is_public_stream (codes "user"))) session
ws_verify_client-IsAdmitted_example = ws_verify_client-IsAdmitted db request session accepted

passed : authentication_middleware db request ≡ ok session
unfolding authentication_middleware account_from_request is_public_endpoint text_eq
    account_from_token
passed = refl

authentication_middleware-IsAdmitted_example :
    IsAdmitted db request (not (is_public_endpoint (codes "/api/v1/streaming/user"))) session
authentication_middleware-IsAdmitted_example =
    authentication_middleware-IsAdmitted db request session (λ e. cc) passed

abbrev stranger : Request
stranger = record request { authorization = none; stream = codes "public" }

ws_verify_client-no_token_example :
    ws_verify_client db stranger
    ≡ (if is_public_stream (codes "public") then some anonymous else none)
ws_verify_client-no_token_example = ws_verify_client-no_token db stranger refl refl

has_access : authorize_list_access db (codes "5") session ≡ true
unfolding authorize_list_access text_eq
has_access = refl

authorize_list_access-owner_example :
    (account : Text) × (session.account_id ≡ some account)
    × (any (λ (l : ListRow). text_eq l.id (codes "5") && text_eq l.account_id account) db.lists
        ≡ true)
authorize_list_access-owner_example = authorize_list_access-owner db (codes "5") session has_access
