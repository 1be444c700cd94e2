-- ===== src/Streaming/Auth/Laws.antt =====
-- Which requests are let in, and as whom.
use mastodon.Prelude.{
  Text, codes, text_eq, text_eq_iff, text_eq_refl, truthy, ◌≡◌, ◌≢◌, Bool, true, false, not, ◌&&◌,
  ◌⊎◌, none, some, List, [], ◌∷◌, any, if◌then◌else◌, Bool-cases, Option-cases, inl, inr, arith,
}
use mastodon.Streaming.Database.{Database, AccessToken, User, ListRow}
use mastodon.Streaming.Auth.{
  Request, Session, anonymous, missing_token, Result, ok, err, find_user, token_row,
  account_from_token, strip_bearer, text_of, account_from_request, is_public_stream,
  ws_verify_client, is_public_endpoint, authentication_middleware, find_list, authorize_list_access,
}

-- The token is stored, not revoked, and owned by a user of the account.
abbrev pub owns : List User → Text → Text → Bool
owns users owner account =
    any (λ (u : User). text_eq u.id owner && text_eq u.account_id account) users

abbrev pub grants : Database → Text → Text → Bool
grants db token account =
    any
      (λ (t : AccessToken).
        text_eq t.token token && (not t.is_revoked && owns db.users t.resource_owner_id account))
      db.oauth_access_tokens

find_user-owns :
    (id : Text) (users : List User) (u : User)
    → find_user id users ≡ some u
    → owns users id u.account_id ≡ true
unfolding find_user
find_user-owns id [] u e = cc
find_user-owns id (v ∷ users) u e =
    ground (arith, text_eq_refl u.account_id, find_user-owns id users u)

token_row-grants :
    (token : Text) (users : List User) (tokens : List AccessToken) (u : User)
    → token_row token users tokens ≡ some u
    → any
        (λ (t : AccessToken).
          text_eq t.token token
          && (not t.is_revoked && owns users t.resource_owner_id u.account_id))
        tokens
      ≡ true
unfolding token_row
token_row-grants token users [] u e = cc
token_row-grants token users (t ∷ tokens) u e =
    ground
      (arith, find_user-owns t.resource_owner_id users u, token_row-grants token users tokens u)

-- The token that a request presents: that of its header, or else that of its query.
abbrev pub presented : Request → Text
presented req =
    if truthy req.authorization
    then strip_bearer (text_of req.authorization)
    else text_of req.access_token

-- The session is of an account that the presented token is granted for.
abbrev pub IsGranted : Database → Request → Session → Type 0
IsGranted db req session =
    (account : Text) × (session.account_id ≡ some account)
    × (grants db (presented req) account ≡ true)

account_from_token-grants :
    (db : Database) (token : Text) (session : Session)
    → account_from_token db token ≡ ok session
    → (account : Text) × (session.account_id ≡ some account) × (grants db token account ≡ true)
unfolding account_from_token
account_from_token-grants db token session e =
    elim (Option-cases (token_row token db.users db.oauth_access_tokens)) [
      | inl missing ↦ absurd (ground (arith, missing))
      | inr (u, found) ↦ (
        u.account_id,
        ground (arith, found),
        token_row-grants token db.users db.oauth_access_tokens u found,
      )
    ]

-- A session is of a granted account, or anonymous where no token is presented or required.
abbrev pub IsAdmitted : Database → Request → Bool → Session → Type 0
IsAdmitted db req required session =
    IsGranted db req session
    ⊎ ((required ≡ false)
        × (truthy req.authorization ≡ false)
        × (truthy req.access_token ≡ false)
        × (session ≡ anonymous))

account_from_request-IsAdmitted :
    (db : Database) (req : Request) (required : Bool) (session : Session)
    → account_from_request db req required ≡ ok session
    → IsAdmitted db req required session
unfolding account_from_request
account_from_request-IsAdmitted db req required session e =
    elim (Bool-cases (not (truthy req.authorization) && not (truthy req.access_token))) [
      | inl none_given ↦ inr (
        ground (arith, none_given),
        ground (arith, none_given),
        ground (arith, none_given),
        ground (arith, none_given),
      )
      | inr given ↦ inl (
          account_from_token-grants db (presented req) session
            (rw (given, account_from_request) at e))
    ]

session_of :
    (r : Result Session) (session : Session)
    → elim r [ ok s ↦ some s | err e ↦ none ] ≡ some session
    → r ≡ ok session
session_of (ok s) session e = cc
session_of (err x) session e = cc

-- A handshake is accepted as an account that the presented token is granted for, or as nobody, and
-- that only for a public stream and without a token.
pub ws_verify_client-IsAdmitted :
    (db : Database) (req : Request) (session : Session)
    → ws_verify_client db req ≡ some session
    → IsAdmitted db req (not (is_public_stream req.stream)) session
unfolding ws_verify_client
ws_verify_client-IsAdmitted db req session e =
    account_from_request-IsAdmitted db req (not (is_public_stream req.stream)) session
      (session_of (account_from_request db req (not (is_public_stream req.stream))) session e)

-- A request passes the middleware as an account that the presented token is granted for, or as
-- nobody: for a public endpoint without a token, or where it only asks for options.
pub authentication_middleware-IsAdmitted :
    (db : Database) (req : Request) (session : Session)
    → req.method ≢ codes "OPTIONS"
    → authentication_middleware db req ≡ ok session
    → IsAdmitted db req (not (is_public_endpoint req.path)) session
unfolding authentication_middleware
authentication_middleware-IsAdmitted db req session method e =
    account_from_request-IsAdmitted db req (not (is_public_endpoint req.path)) session
      (ground (arith, text_eq_iff req.method (codes "OPTIONS")))

account_from_request-no_token :
    (db : Database) (req : Request) (required : Bool)
    → truthy req.authorization ≡ false
    → truthy req.access_token ≡ false
    → account_from_request db req required ≡ (if required then err missing_token else ok anonymous)
unfolding account_from_request
account_from_request-no_token db req required a t = ground arith

-- Without a token a public stream is open, and every other is closed.
pub ws_verify_client-no_token :
    (db : Database) (req : Request)
    → truthy req.authorization ≡ false
    → truthy req.access_token ≡ false
    → ws_verify_client db req ≡ (if is_public_stream req.stream then some anonymous else none)
unfolding ws_verify_client
ws_verify_client-no_token db req a t =
    rw
      (
        account_from_request-no_token db req (not (is_public_stream req.stream)) a t,
        ws_verify_client,
      )
      (ground arith)

find_list-found :
    (id account : Text) (lists : List ListRow) (l : ListRow)
    → find_list id lists ≡ some l
    → text_eq l.account_id account ≡ true
    → any (λ (r : ListRow). text_eq r.id id && text_eq r.account_id account) lists ≡ true
unfolding find_list
find_list-found id account [] l e own = cc
find_list-found id account (r ∷ lists) l e own = ground (arith, find_list-found id account lists l)

-- Access to a list is given to the owner of the list alone.
pub authorize_list_access-owner :
    (db : Database) (id : Text) (session : Session)
    → authorize_list_access db id session ≡ true
    → (account : Text) × (session.account_id ≡ some account)
      × (any (λ (l : ListRow). text_eq l.id id && text_eq l.account_id account) db.lists ≡ true)
unfolding authorize_list_access
authorize_list_access-owner db id session e = elim (Option-cases (find_list id db.lists)) [
  | inl missing ↦ absurd (ground (arith, missing))
  | inr (l, found) ↦ elim (Option-cases session.account_id) [
    | inl nobody ↦ absurd (ground (arith, found, nobody))
    | inr (a, own) ↦ (a, own, find_list-found id a db.lists l found (ground (arith, found, own)))
  ]
]
