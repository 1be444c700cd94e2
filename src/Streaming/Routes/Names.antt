-- ===== src/Streaming/Routes/Names.antt =====
-- The names of the streams and the paths of the endpoints.
use mastodon.Prelude.{
  Text, codes, text_eq, text_eq_iff, ◌≡◌, refl, Bool, true, false, ap, sym, Bool-cases, inl, inr,
  some, if◌then◌else◌, arith,
}
use mastodon.Streaming.Auth.{is_public_stream, is_public_endpoint}
use mastodon.Streaming.Routes.{Endpoint, Kind, kind, endpoint}

-- The name of each case of the `switch`, and the path of each endpoint.
abbrev pub name_of : Kind → Text
name_of Kind.user = codes "user"
name_of Kind.user_notification = codes "user:notification"
name_of Kind.public = codes "public"
name_of Kind.public_local = codes "public:local"
name_of Kind.public_media = codes "public:media"
name_of Kind.public_local_media = codes "public:local:media"
name_of Kind.direct = codes "direct"
name_of Kind.hashtag = codes "hashtag"
name_of Kind.hashtag_local = codes "hashtag:local"
name_of Kind.list = codes "list"

abbrev pub path_of : Endpoint → Text
path_of Endpoint.user = codes "/api/v1/streaming/user"
path_of Endpoint.user_notification = codes "/api/v1/streaming/user/notification"
path_of Endpoint.public = codes "/api/v1/streaming/public"
path_of Endpoint.public_local = codes "/api/v1/streaming/public/local"
path_of Endpoint.direct = codes "/api/v1/streaming/direct"
path_of Endpoint.hashtag = codes "/api/v1/streaming/hashtag"
path_of Endpoint.hashtag_local = codes "/api/v1/streaming/hashtag/local"
path_of Endpoint.list = codes "/api/v1/streaming/list"

pub kind-name : (s : Text) (k : Kind) → kind s ≡ some k → s ≡ name_of k
unfolding kind
kind-name s k e = ground (
  arith,
  text_eq_iff s (codes "user"),
  text_eq_iff s (codes "user:notification"),
  text_eq_iff s (codes "public"),
  text_eq_iff s (codes "public:local"),
  text_eq_iff s (codes "public:media"),
  text_eq_iff s (codes "public:local:media"),
  text_eq_iff s (codes "direct"),
  text_eq_iff s (codes "hashtag"),
  text_eq_iff s (codes "hashtag:local"),
  text_eq_iff s (codes "list"),
)

endpoint-path :
    (matches : Text → Text → Bool) (path : Text) (e : Endpoint)
    → endpoint matches path ≡ some e
    → matches (path_of e) path ≡ true
unfolding endpoint
endpoint-path matches path e h = ground arith

public_path : (path : Text) → is_public_endpoint path ≡ true → (e : Endpoint) × (path ≡ path_of e)
unfolding is_public_endpoint
public_path path h = elim (Bool-cases (text_eq (path_of Endpoint.public) path)) [
  | inl e ↦ (Endpoint.public, sym ((text_eq_iff _ path).0 e))
  | inr not_public ↦ elim (Bool-cases (text_eq (path_of Endpoint.public_local) path)) [
    | inl e ↦ (Endpoint.public_local, sym ((text_eq_iff _ path).0 e))
    | inr not_local ↦ elim (Bool-cases (text_eq (path_of Endpoint.hashtag) path)) [
      | inl e ↦ (Endpoint.hashtag, sym ((text_eq_iff _ path).0 e))
      | inr not_hashtag ↦
          let last : text_eq (path_of Endpoint.hashtag_local) path ≡ true =
            ground (arith, h, not_public, not_local, not_hashtag) in
          (Endpoint.hashtag_local, sym ((text_eq_iff _ path).0 last))
    ]
  ]
]

-- Where no route takes the path of another endpoint, the route of an endpoint that is not public
-- takes no path of PUBLIC_ENDPOINTS.
pub endpoint-private :
    (matches : Text → Text → Bool) (path : Text) (e : Endpoint)
    → ((a b : Endpoint) → matches (path_of a) (path_of b) ≡ true → a ≡ b)
    → endpoint matches path ≡ some e
    → is_public_endpoint (path_of e) ≡ false
    → is_public_endpoint path ≡ false
endpoint-private matches path e own h private = elim (Bool-cases (is_public_endpoint path)) [
  | inl listed ↦
      let (b, is_b) = public_path path listed in
      let taken : matches (path_of e) (path_of b) ≡ true =
        rw is_b at (endpoint-path matches path e h) in
      let same = ap (λ c. is_public_endpoint (path_of c)) (own e b taken) in
      let public = ap is_public_endpoint is_b in absurd (cc)
  | inr unlisted ↦ unlisted
]

-- The case of the `switch` that an endpoint corresponds to.
abbrev pub kind_of : Endpoint → Bool → Kind
kind_of Endpoint.user media = Kind.user
kind_of Endpoint.user_notification media = Kind.user_notification
kind_of Endpoint.public media = if media then Kind.public_media else Kind.public
kind_of Endpoint.public_local media = if media then Kind.public_local_media else Kind.public_local
kind_of Endpoint.direct media = Kind.direct
kind_of Endpoint.hashtag media = Kind.hashtag
kind_of Endpoint.hashtag_local media = Kind.hashtag_local
kind_of Endpoint.list media = Kind.list

pub private_endpoint :
    (e : Endpoint) (media : Bool)
    → is_public_endpoint (path_of e) ≡ false
    → is_public_stream (name_of (kind_of e media)) ≡ false
unfolding is_public_endpoint is_public_stream text_eq
private_endpoint Endpoint.public media h = cc
private_endpoint Endpoint.public_local media h = cc
private_endpoint Endpoint.hashtag media h = cc
private_endpoint Endpoint.hashtag_local media h = cc
private_endpoint _ media h = refl
