-- ===== src/Streaming/Routes/Laws.antt =====
-- Which channels a client can reach, and that both transports reach the same ones.
use mastodon.Prelude.{
  Text, codes, text_eq, ◌≡◌, ◌≢◌, ◌⊎◌, refl, sym, ◌∙◌, Bool, true, false, ◌&&◌, some, any,
  Bool-cases, Option-cases, inl, inr, arith,
}
use mastodon.Streaming.Database.{Database, ListRow}
use mastodon.Streaming.Auth.{
  Request, Session, AuthError, Result, ok, err, is_public_stream, is_public_endpoint,
  ws_verify_client, authentication_middleware, authorize_list_access,
}
use mastodon.Streaming.Auth.Laws.{
  grants, presented, IsGranted, IsAdmitted, ws_verify_client-IsAdmitted,
  authentication_middleware-IsAdmitted, authorize_list_access-owner,
}
use mastodon.Streaming.Routes.{
  Stream, streams, timeline_of, direct_of, list_channel, Endpoint, Kind, kind, endpoint, only_media,
  http_stream, http_get, ws_stream, ws_connect,
}
use mastodon.Streaming.Routes.Names.{
  name_of, path_of, kind_of, kind-name, endpoint-private, private_endpoint,
}

-- The channel is the account's own timeline or direct messages, or a list that the account owns.
abbrev pub IsPersonal : Database → Request → Text → Text → Type 0
IsPersonal db req account channel =
    (channel ≡ timeline_of account)
    ⊎ (channel ≡ direct_of account)
    ⊎ ((channel ≡ list_channel req.list)
        × (any (λ (l : ListRow). text_eq l.id req.list && text_eq l.account_id account) db.lists
            ≡ true))

granted :
    (db : Database) (req : Request) (session : Session)
    → IsAdmitted db req true session
    → IsGranted db req session
granted db req session (inl h) = h
granted db req session (inr h) = absurd (cc (h.0))

Result-cases : (r : Result Session) → ((x : AuthError) × (r ≡ err x)) ⊎ ((s : Session) × (r ≡ ok s))
Result-cases (ok s) = inr (s, refl)
Result-cases (err x) = inl (x, refl)

module _ (to_lower_case : Text → Text) where
  -- Both transports attach a client to the same channel, with the same filtering.
  pub http_stream-ws_stream :
      (db : Database) (req : Request) (session : Session) (e : Endpoint)
      → http_stream to_lower_case db req session e
        ≡ ws_stream to_lower_case db req session (kind_of e (only_media req))
  unfolding http_stream ws_stream
  http_stream-ws_stream db req session Endpoint.user = refl
  http_stream-ws_stream db req session Endpoint.public = elim (Bool-cases (only_media req)) [
    | inl m ↦ rw m refl
    | inr m ↦ rw m refl
  ]
  http_stream-ws_stream db req session Endpoint.public_local = elim (Bool-cases (only_media req)) [
    | inl m ↦ rw m refl
    | inr m ↦ rw m refl
  ]
  http_stream-ws_stream db req session _ = refl

  list-IsPersonal :
      (db : Database) (req : Request) (session : Session) (account : Text) (session' : Session)
      (st : Stream)
      → session.account_id ≡ some account
      → ws_stream to_lower_case db req session Kind.list ≡ streams session' st
      → IsPersonal db req account st.channel
  unfolding ws_stream
  list-IsPersonal db req session account session' st own e =
      elim (Bool-cases (authorize_list_access db req.list session)) [
        | inl yes_it_is ↦
            let (a, own', row) = authorize_list_access-owner db req.list session yes_it_is in
            let same : a ≡ account = cc in inr (inr (ground (arith, yes_it_is), rw (← same) row))
        | inr no_access ↦ absurd (ground (arith, no_access))
      ]

  ws_stream-IsPersonal :
      (db : Database) (req : Request) (session : Session) (account : Text) (k : Kind)
      (session' : Session) (st : Stream)
      → session.account_id ≡ some account
      → is_public_stream (name_of k) ≡ false
      → ws_stream to_lower_case db req session k ≡ streams session' st
      → IsPersonal db req account st.channel
  unfolding ws_stream is_public_stream text_eq
  ws_stream-IsPersonal db req session account Kind.user session' st own private e =
      inl (ground (arith, own))
  ws_stream-IsPersonal db req session account Kind.user_notification session' st own private e =
      inl (ground (arith, own))
  ws_stream-IsPersonal db req session account Kind.direct session' st own private e =
      inr (inl (ground (arith, own)))
  ws_stream-IsPersonal db req session account Kind.list session' st own private e =
      list-IsPersonal db req session account session' st own e
  ws_stream-IsPersonal db req session account Kind.public session' st own private e = cc
  ws_stream-IsPersonal db req session account Kind.public_local session' st own private e = cc
  ws_stream-IsPersonal db req session account Kind.public_media session' st own private e = cc
  ws_stream-IsPersonal db req session account Kind.public_local_media session' st own private e = cc
  ws_stream-IsPersonal db req session account Kind.hashtag session' st own private e = cc
  ws_stream-IsPersonal db req session account Kind.hashtag_local session' st own private e = cc

  -- A WebSocket client gets a stream that is not public only with a granted token, and then only a
  -- channel of the token's account.
  pub ws_connect-IsPersonal :
      (db : Database) (req : Request) (session : Session) (st : Stream)
      → is_public_stream req.stream ≡ false
      → ws_connect to_lower_case db req ≡ some (streams session st)
      → (account : Text) × (grants db (presented req) account ≡ true)
        × IsPersonal db req account st.channel
  unfolding ws_connect
  ws_connect-IsPersonal db req session st private e =
      elim (Option-cases (ws_verify_client db req)) [
        | inl n ↦ absurd (ground (arith, n))
        | inr (s, v) ↦ elim (Option-cases (kind req.stream)) [
          | inl n ↦ absurd (ground (arith, v, n))
          | inr (k, f) ↦
              let (account, own, grant) =
                granted db req s (rw private at (ws_verify_client-IsAdmitted db req s v)) in
              (
                account,
                grant,
                ws_stream-IsPersonal db req s account k session st own
                    (rw (kind-name req.stream k f) at private) (ground (arith, v, f)),
              )
        ]
      ]

  -- An HTTP client whose request is no preflight gets the stream of an endpoint whose path is not in
  -- PUBLIC_ENDPOINTS only with a granted token, and then only a channel of the token's account, however
  -- the request spells the path, as long as no route takes the path of another endpoint.
  pub http_get-IsPersonal :
      (matches : Text → Text → Bool) (db : Database) (req : Request) (e : Endpoint)
      (session : Session) (st : Stream)
      → ((a b : Endpoint) → matches (path_of a) (path_of b) ≡ true → a ≡ b)
      → endpoint matches req.path ≡ some e
      → is_public_endpoint (path_of e) ≡ false
      → req.method ≢ codes "OPTIONS"
      → http_get to_lower_case matches db req ≡ streams session st
      → (account : Text) × (grants db (presented req) account ≡ true)
        × IsPersonal db req account st.channel
  unfolding http_get
  http_get-IsPersonal matches db req e session st own taken private method answer =
      elim (Result-cases (authentication_middleware db req)) [
        | inl (x, n) ↦ absurd (ground (arith, n))
        | inr (s, v) ↦
            let unlisted = endpoint-private matches req.path e own taken private in
            let (account, owned, grant) =
              granted db req s
                (rw unlisted at (authentication_middleware-IsAdmitted db req s method v)) in
            (
              account,
              grant,
              ws_stream-IsPersonal db req s account (kind_of e (only_media req)) session st owned
                  (private_endpoint e (only_media req) private)
                  (sym (http_stream-ws_stream db req s e) ∙ ground (arith, v, taken)),
            )
      ]
