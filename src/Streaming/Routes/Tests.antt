-- ===== src/Streaming/Routes/Tests.antt =====
-- Which streams one client is attached to.
use mastodon.Prelude.{
  ℕ, ◌+◌, leb, ◌==◌, ◌&&◌, Bool, if◌then◌else◌, Text, codes, text_eq, ◌≡◌, refl, true, false, none,
  some, [], ◌∷◌,
}
use mastodon.Streaming.Database.{Database}
use mastodon.Streaming.Auth.{
  Request, Session, missing_token, account_from_request, account_from_token, is_public_stream,
  is_public_endpoint, ws_verify_client, authentication_middleware, authorize_list_access,
}
use mastodon.Streaming.Auth.Laws.{grants}
use mastodon.Streaming.Routes.{
  Stream, streams, refused, Endpoint, kind, endpoint, http_stream, http_get, ws_stream, ws_connect,
  list_channel, only_media,
}
use mastodon.Streaming.Routes.Names.{path_of, kind_of}
use mastodon.Streaming.Routes.Laws.{
  IsPersonal, http_stream-ws_stream, ws_connect-IsPersonal, http_get-IsPersonal,
}

abbrev db : Database
db = record {
  connects = true;
  answers = true;
  oauth_access_tokens =
      record { token = codes "t"; resource_owner_id = codes "7"; is_revoked = false } ∷ [];
  users = record { id = codes "7"; account_id = codes "1"; chosen_languages = none } ∷ [];
  lists = record { id = codes "5"; account_id = codes "1" } ∷ [];
  blocks = [];
  mutes = [];
  account_domain_blocks = [];
}

abbrev request : Request
request = record {
  method = codes "GET";
  path = codes "/api/v1/streaming/list";
  authorization = none;
  access_token = some (codes "t");
  stream = codes "list";
  only_media = none;
  tag = [];
  list = codes "5";
  remote_address = codes "127.0.0.1";
}

abbrev session : Session
session = record { account_id = some (codes "1"); chosen_languages = none }

abbrev of_list : Stream
of_list = record {
  channel = codes "timeline:list:5";
  needs_filtering = false;
  notification_only = false;
  heartbeat = true;
}

abbrev same : Text → Text
same tag = tag

connected : ws_connect same db request ≡ some (streams session of_list)
unfolding ws_connect ws_verify_client account_from_request account_from_token is_public_stream
    text_eq kind ws_stream authorize_list_access list_channel
connected = refl

list_is_private : is_public_stream (codes "list") ≡ false
unfolding is_public_stream text_eq
list_is_private = refl

ws_connect-IsPersonal_example :
    (account : Text) × (grants db (codes "t") account ≡ true)
    × IsPersonal db request account (codes "timeline:list:5")
ws_connect-IsPersonal_example =
    ws_connect-IsPersonal same db request session of_list list_is_private connected

abbrev lower : ℕ → ℕ
lower c = if leb 65 c && leb c 90 then c + 32 else c

-- The path in small letters and without a slash at its end.
abbrev plain : Text → Text
plain [] = []
plain (c ∷ []) = if c == 47 then [] else lower c ∷ []
plain (c ∷ d ∷ path) = lower c ∷ plain (d ∷ path)

abbrev matches : Text → Text → Bool
matches route path = text_eq (plain route) (plain path)

own_routes : (a b : Endpoint) → matches (path_of a) (path_of b) ≡ true → a ≡ b
unfolding text_eq
own_routes Endpoint.user Endpoint.user h = refl
own_routes Endpoint.user_notification Endpoint.user_notification h = refl
own_routes Endpoint.public Endpoint.public h = refl
own_routes Endpoint.public_local Endpoint.public_local h = refl
own_routes Endpoint.direct Endpoint.direct h = refl
own_routes Endpoint.hashtag Endpoint.hashtag h = refl
own_routes Endpoint.hashtag_local Endpoint.hashtag_local h = refl
own_routes Endpoint.list Endpoint.list h = refl
own_routes _ _ h = cc

-- The same request with another spelling of the path.
abbrev respelled : Request
respelled = record request { path = codes "/api/v1/Streaming/list/" }

taken : endpoint matches (codes "/api/v1/Streaming/list/") ≡ some Endpoint.list
unfolding endpoint text_eq
taken = refl

answered : http_get same matches db respelled ≡ streams session of_list
unfolding http_get authentication_middleware account_from_request account_from_token
    is_public_endpoint text_eq endpoint http_stream authorize_list_access list_channel
answered = refl

endpoint_is_private : is_public_endpoint (codes "/api/v1/streaming/list") ≡ false
unfolding is_public_endpoint text_eq
endpoint_is_private = refl

http_get-IsPersonal_example :
    (account : Text) × (grants db (codes "t") account ≡ true)
    × IsPersonal db respelled account (codes "timeline:list:5")
http_get-IsPersonal_example =
    http_get-IsPersonal same matches db respelled Endpoint.list session of_list own_routes taken
      endpoint_is_private (λ e. cc) answered

-- A public endpoint in another spelling is not open without a token.
public_refused :
    http_get same matches db
      (record request { path = codes "/api/v1/streaming/public/"; access_token = none })
    ≡ refused missing_token
unfolding http_get authentication_middleware account_from_request is_public_endpoint text_eq
public_refused = refl

http_stream-ws_stream_example :
    http_stream same db request session Endpoint.public
    ≡ ws_stream same db request session (kind_of Endpoint.public (only_media request))
http_stream-ws_stream_example = http_stream-ws_stream same db request session Endpoint.public
