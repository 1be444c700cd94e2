-- ===== src/Streaming/Auth.antt =====
-- streaming/index.js: who a request comes from, and which requests are let in.
pub mod Laws
mod Tests
use mastodon.Prelude.{
  ℕ, Text, codes, text_eq, truthy, Bool, true, false, not, ◌&&◌, ◌||◌, Option, none, some, List, [],
  ◌∷◌, ◌==◌, if◌then◌else◌, any,
}
use mastodon.Streaming.Database.{Database, AccessToken, User, ListRow}

-- The parts of a request that are read: the header, the query and the path of its URL.
pub record Request : Type 0 where
  pub method : Text
  pub path : Text
  pub authorization : Option Text
  pub access_token : Option Text
  pub stream : Text
  pub only_media : Option Text
  pub tag : Text
  pub list : Text
  pub remote_address : Text

-- What authentication stores in the request.
pub record Session : Type 0 where
  pub account_id : Option Text
  pub chosen_languages : Option (List Text)

abbrev pub anonymous : Session
anonymous = record { account_id = none; chosen_languages = none }

-- An error that `next` is called with: of the database, or with status code 401.
pub data AuthError : Type 0 where
  database_error missing_token invalid_token : AuthError

pub data Result {ℓ} (A : Type ℓ) : Type ℓ where
  ok : A → Result A
  err : AuthError → Result A

-- The row of `users` with the id.
find_user : Text → List User → Option User
find_user id [] = none
find_user id (u ∷ users) = if text_eq u.id id then some u else find_user id users

-- The first row of the join: a token that is not revoked, with its owner.
token_row : Text → List User → List AccessToken → Option User
unfolding find_user
token_row token users [] = none
token_row token users (t ∷ tokens) =
    let rest = token_row token users tokens in
    if text_eq t.token token && not t.is_revoked
    then elim (find_user t.resource_owner_id users) [ none ↦ rest | some u ↦ some u ]
    else rest

unfoldable pub account_from_token : Database → Text → Result Session
unfolding token_row
account_from_token db token =
    if not db.connects
    then err database_error
    else (if not db.answers
        then err database_error
        else elim (token_row token db.users db.oauth_access_tokens) [
          | none ↦ err invalid_token
          | some u ↦
              ok (record { account_id = some u.account_id; chosen_languages = u.chosen_languages })
        ])

-- `authorization.replace(/^Bearer /, '')`.
strip_prefix : Text → Text → Option Text
strip_prefix [] s = some s
strip_prefix (c ∷ part) [] = none
strip_prefix (c ∷ part) (d ∷ s) = elim (c == d) [ true ↦ strip_prefix part s | false ↦ none ]

unfoldable pub strip_bearer : Text → Text
unfolding strip_prefix
strip_bearer header = elim (strip_prefix (codes "Bearer ") header) [
  | none ↦ header
  | some rest ↦ rest
]

abbrev text_of : Option Text → Text
text_of none = []
text_of (some s) = s

unfoldable pub account_from_request : Database → Request → Bool → Result Session
unfolding strip_bearer
account_from_request db req required =
    if not (truthy req.authorization) && not (truthy req.access_token)
    then (if required then err missing_token else ok anonymous)
    else account_from_token db (
        if truthy req.authorization
        then strip_bearer (text_of req.authorization)
        else text_of req.access_token)

abbrev pub public_streams : List Text
public_streams =
    codes "public"
    ∷ codes "public:media"
    ∷ codes "public:local"
    ∷ codes "public:local:media"
    ∷ codes "hashtag"
    ∷ codes "hashtag:local"
    ∷ []

unfoldable pub is_public_stream : Text → Bool
is_public_stream stream = any (λ s. text_eq s stream) public_streams

-- `wsVerifyClient`: whether the handshake is accepted, and with whose session.
unfoldable pub ws_verify_client : Database → Request → Option Session
ws_verify_client db req = elim (account_from_request db req (not (is_public_stream req.stream))) [
  | ok session ↦ some session
  | err e ↦ none
]

abbrev pub public_endpoints : List Text
public_endpoints =
    codes "/api/v1/streaming/public"
    ∷ codes "/api/v1/streaming/public/local"
    ∷ codes "/api/v1/streaming/hashtag"
    ∷ codes "/api/v1/streaming/hashtag/local"
    ∷ []

unfoldable pub is_public_endpoint : Text → Bool
is_public_endpoint path = any (λ s. text_eq s path) public_endpoints

unfoldable pub authentication_middleware : Database → Request → Result Session
authentication_middleware db req =
    if text_eq req.method (codes "OPTIONS")
    then ok anonymous
    else account_from_request db req (not (is_public_endpoint req.path))

-- `errorMiddleware`: the status of the answer, and whether its text tells what went wrong.
unfoldable pub error_middleware : AuthError → ℕ × Bool
error_middleware database_error = (500, false)
error_middleware missing_token = (401, true)
error_middleware invalid_token = (401, true)

find_list : Text → List ListRow → Option ListRow
find_list id [] = none
find_list id (l ∷ lists) = if text_eq l.id id then some l else find_list id lists

-- `authorizeListAccess`: the list exists and is the account's own.
unfoldable pub authorize_list_access : Database → Text → Session → Bool
unfolding find_list
authorize_list_access db id session =
    if not db.connects
    then false
    else (if not db.answers then false else elim (find_list id db.lists) [
      | none ↦ false
      | some l ↦ elim session.account_id [ none ↦ false | some a ↦ text_eq l.account_id a ]
    ])
