-- ===== src/Streaming/Routes.antt =====
-- streaming/index.js: which channel a request is attached to, over HTTP and over WebSockets.
pub mod Names
pub mod Laws
mod Tests
use mastodon.Prelude.{
  Text, codes, text_eq, option_eq, truthy, Bool, true, false, not, ◌&&◌, ◌||◌, Option, none, some,
  List, [], ◌∷◌, ◌++◌, if◌then◌else◌,
}
use mastodon.Streaming.Database.{Database}
use mastodon.Streaming.Auth.{
  Request, Session, AuthError, Result, ok, err, ws_verify_client, authentication_middleware,
  authorize_list_access,
}

-- The arguments of `streamFrom`, and whether the channel is marked as subscribed while it is open.
pub record Stream : Type 0 where
  pub channel : Text
  pub needs_filtering : Bool
  pub notification_only : Bool
  pub heartbeat : Bool

pub data Answer : Type 0 where
  streams : Session → Stream → Answer
  refused : AuthError → Answer
  not_found : Answer

-- `${req.accountId}` of a request that has none.
abbrev pub account_text : Session → Text
account_text session = elim session.account_id [ none ↦ codes "undefined" | some a ↦ a ]

abbrev personal : Text → Stream
personal channel = record {
  channel = channel;
  needs_filtering = false;
  notification_only = false;
  heartbeat = true;
}

abbrev notifications_of : Text → Stream
notifications_of channel = record {
  channel = channel;
  needs_filtering = false;
  notification_only = true;
  heartbeat = false;
}

abbrev filtered : Text → Stream
filtered channel = record {
  channel = channel;
  needs_filtering = true;
  notification_only = false;
  heartbeat = false;
}

unfoldable pub timeline_of : Text → Text
timeline_of account = codes "timeline:" ++ account

unfoldable pub direct_of : Text → Text
direct_of account = codes "timeline:direct:" ++ account

unfoldable pub list_channel : Text → Text
list_channel id = codes "timeline:list:" ++ id

abbrev only_media : Request → Bool
only_media req =
    option_eq req.only_media (some (codes "1")) || option_eq req.only_media (some (codes "true"))

-- The endpoints of `app.get`.
pub data Endpoint : Type 0 where
  user user_notification public public_local direct hashtag hashtag_local list : Endpoint

-- The first route that takes the path of the request. Whether a route takes a path is for Express to
-- say (`matches`, of the route's path and the request's): with its defaults neither the case of the
-- letters nor a slash at the end counts.
unfoldable pub endpoint : (Text → Text → Bool) → Text → Option Endpoint
endpoint matches path =
    if matches (codes "/api/v1/streaming/user") path
    then some user
    else if matches (codes "/api/v1/streaming/user/notification") path
    then some user_notification
    else if matches (codes "/api/v1/streaming/public") path
    then some public
    else if matches (codes "/api/v1/streaming/public/local") path
    then some public_local
    else if matches (codes "/api/v1/streaming/direct") path
    then some direct
    else if matches (codes "/api/v1/streaming/hashtag") path
    then some hashtag
    else if matches (codes "/api/v1/streaming/hashtag/local") path
    then some hashtag_local
    else if matches (codes "/api/v1/streaming/list") path
    then some list
    else none

-- The cases of the `switch` on the stream of a WebSocket connection.
pub data Kind : Type 0 where
  user user_notification public public_local public_media public_local_media direct hashtag
        hashtag_local list :
      Kind

unfoldable pub kind : Text → Option Kind
kind stream =
    if text_eq stream (codes "user")
    then some Kind.user
    else if text_eq stream (codes "user:notification")
    then some Kind.user_notification
    else if text_eq stream (codes "public")
    then some Kind.public
    else if text_eq stream (codes "public:local")
    then some Kind.public_local
    else if text_eq stream (codes "public:media")
    then some Kind.public_media
    else if text_eq stream (codes "public:local:media")
    then some Kind.public_local_media
    else if text_eq stream (codes "direct")
    then some Kind.direct
    else if text_eq stream (codes "hashtag")
    then some Kind.hashtag
    else if text_eq stream (codes "hashtag:local")
    then some Kind.hashtag_local
    else if text_eq stream (codes "list")
    then some Kind.list
    else none

-- `toLowerCase` is the environment's.
module _ (to_lower_case : Text → Text) where
  unfoldable pub hashtag_channel : Text → Text
  hashtag_channel tag = codes "timeline:hashtag:" ++ to_lower_case tag

  unfoldable pub local_hashtag_channel : Text → Text
  local_hashtag_channel tag = codes "timeline:hashtag:" ++ (to_lower_case tag ++ codes ":local")

  -- The handlers of the endpoints.
  unfoldable pub http_stream : Database → Request → Session → Endpoint → Answer
  http_stream db req session Endpoint.user =
      streams session (personal (timeline_of (account_text session)))
  http_stream db req session Endpoint.user_notification =
      streams session (notifications_of (timeline_of (account_text session)))
  http_stream db req session Endpoint.public =
      streams session (
        filtered
          (if only_media req then codes "timeline:public:media" else codes "timeline:public"))
  http_stream db req session Endpoint.public_local = streams session (
      filtered (
        if only_media req
        then codes "timeline:public:local:media"
        else codes "timeline:public:local"))
  http_stream db req session Endpoint.direct =
      streams session (filtered (direct_of (account_text session)))
  http_stream db req session Endpoint.hashtag = streams session (filtered (hashtag_channel req.tag))
  http_stream db req session Endpoint.hashtag_local =
      streams session (filtered (local_hashtag_channel req.tag))
  http_stream db req session Endpoint.list =
      if authorize_list_access db req.list session
      then streams session (personal (list_channel req.list))
      else not_found

  -- A GET request: the middleware, then its handler. Express answers a path that no route takes with
  -- 404.
  unfoldable pub http_get : (Text → Text → Bool) → Database → Request → Answer
  http_get matches db req = elim (authentication_middleware db req) [
    | err e ↦ refused e
    | ok session ↦ elim (endpoint matches req.path) [
      | none ↦ not_found
      | some e ↦ http_stream db req session e
    ]
  ]

  -- The bodies of the `switch`; `not_found` is `ws.close()`.
  unfoldable pub ws_stream : Database → Request → Session → Kind → Answer
  ws_stream db req session Kind.user =
      streams session (personal (timeline_of (account_text session)))
  ws_stream db req session Kind.user_notification =
      streams session (notifications_of (timeline_of (account_text session)))
  ws_stream db req session Kind.public = streams session (filtered (codes "timeline:public"))
  ws_stream db req session Kind.public_local =
      streams session (filtered (codes "timeline:public:local"))
  ws_stream db req session Kind.public_media =
      streams session (filtered (codes "timeline:public:media"))
  ws_stream db req session Kind.public_local_media =
      streams session (filtered (codes "timeline:public:local:media"))
  ws_stream db req session Kind.direct =
      streams session (filtered (direct_of (account_text session)))
  ws_stream db req session Kind.hashtag = streams session (filtered (hashtag_channel req.tag))
  ws_stream db req session Kind.hashtag_local =
      streams session (filtered (local_hashtag_channel req.tag))
  ws_stream db req session Kind.list =
      if authorize_list_access db req.list session
      then streams session (personal (list_channel req.list))
      else not_found

  -- A handshake that is accepted, then the `switch`. `none` is the answer 401.
  unfoldable pub ws_connect : Database → Request → Option Answer
  ws_connect db req = elim (ws_verify_client db req) [
    | none ↦ none
    | some session ↦ elim (kind req.stream) [
      | none ↦ some not_found
      | some k ↦ some (ws_stream db req session k)
    ]
  ]
