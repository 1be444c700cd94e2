-- ===== src/Thunks/Submit.antt =====
-- app/javascript/mastodon/actions/compose.js: what is posted, and what becomes of it.
use mastodon.Prelude.{
  Text, codes, text_eq, Bool, true, ◌&&◌, not, ltb, Option, none, some, List, [], ◌∷◌, ◌++◌, map,
  length, if◌then◌else◌, take, filter_not, any, is_empty, get_or, is_some,
}
use mastodon.Entities.{Account, Media, StatusView}
use mastodon.Actions.{Action}
use mastodon.Thunks.Message.{message}
use mastodon.Thunks.Answers.{Kind, Method, request, Param, Fetched, post_of, optional}
use mastodon.Thunks.Program.{Program, done, put, ask, dispatch, call, when, ◌>>◌}
use mastodon.Entities.{Media, Account, StatusView}
use mastodon.Compose.State.{Compose}
use mastodon.Timelines.{initial_timeline}
use mastodon.Thunks.Answers.{Posted}
use mastodon.Thunks.Timelines.{update_timeline}
use mastodon.Thunks.Relations.{not_an_error}
use mastodon.Thunks.Form.{
  update_tag_history, submit_compose_request, submit_compose_success, submit_compose_fail,
  upload_compose_request, upload_compose_success, upload_compose_fail,
  change_upload_compose_request, change_upload_compose_success, change_upload_compose_fail,
}

-- `router.push` is left out of the next three: it opens the form on a small screen.
unfoldable pub reply_compose : StatusView → Program
reply_compose status = dispatch (message (codes "COMPOSE_REPLY") (Action.compose_reply status))

unfoldable pub mention_compose : Account → Program
mention_compose account =
    dispatch (message (codes "COMPOSE_MENTION") (Action.compose_mention account))

unfoldable pub direct_compose : Account → Program
direct_compose account = dispatch (message (codes "COMPOSE_DIRECT") (Action.compose_direct account))

-- The names of the tags, then the older ones, 1000 at most.
unfoldable pub new_history : List Text → List Text → List Text
new_history names old_history =
    take 1000 (names ++ filter_not (λ name. any (λ n. text_eq n name) names) old_history)

-- The copy in the browser's storage is left out.
unfoldable pub insert_into_tag_history : List Text → Program
unfolding new_history
insert_into_tag_history names =
    ask (λ store. dispatch (update_tag_history (new_history names store.compose_state.tag_history)))

-- What the browser's storage has.
unfoldable pub hydrate_compose : Option (List Text) → Program
hydrate_compose none = done
hydrate_compose (some history) = dispatch (update_tag_history history)

-- Only null in the first place, a gap, is `null`: a timeline that is missing or empty has undefined.
unfoldable pub is_online : List (Option Text) → Bool
is_online [] = true
is_online (item ∷ items) = is_some item

unfoldable pub insert_if_online : Fetched → Text → Program
unfolding is_online update_timeline
insert_if_online status timeline = ask (λ store.
    when (is_online (get_or initial_timeline timeline store.timelines_state).items)
      (update_timeline timeline status))

-- The columns that get a status that was just posted, besides the home column.
unfoldable pub further_columns : Posted → List Text
further_columns posted =
    if not (is_some (post_of posted.status).in_reply_to_id)
      && text_eq posted.visibility (codes "public")
    then codes "community" ∷ codes "public" ∷ []
    else if text_eq posted.visibility (codes "direct")
    then codes "direct" ∷ []
    else []

unfoldable pub insert_all : Fetched → List Text → Program
unfolding insert_if_online ◌>>◌
insert_all status [] = done
insert_all status (timeline ∷ rest) = insert_if_online status timeline >> insert_all status rest

unfoldable pub status_posted : Posted → Program
unfolding insert_into_tag_history insert_all further_columns ◌>>◌
status_posted posted =
    insert_into_tag_history posted.tags
    >> put submit_compose_success (insert_all posted.status (codes "home" ∷ further_columns posted))

abbrev pub form_params : Compose → List (Text × Param)
form_params form =
    (codes "status", Param.text form.text)
    ∷ (codes "in_reply_to_id", optional form.in_reply_to)
    ∷ (codes "media_ids", Param.texts (map (λ (m : Media). m.id) form.media_attachments))
    ∷ (codes "sensitive", Param.flag form.sensitive)
    ∷ (codes "spoiler_text", Param.text form.spoiler_text)
    ∷ (codes "visibility", optional form.privacy)
    ∷ []

-- A header whose value is null or undefined is not sent.
abbrev pub idempotency : Compose → List (Text × Text)
idempotency form = elim form.idempotency_key [
  | none ↦ []
  | some key ↦ (codes "Idempotency-Key", key) ∷ []
]

-- The request is built after the reducers have taken the first message.
unfoldable pub submit_compose : Program
unfolding status_posted
submit_compose = ask (λ store.
    if is_empty store.compose_state.text && is_empty store.compose_state.media_attachments
    then done
    else put submit_compose_request (
        ask (λ now.
          call
            (record {
              method = Method.post;
              path = codes "/api/v1/statuses";
              headers = idempotency now.compose_state;
              params = form_params (record now.compose_state {
                text = store.compose_state.text;
                media_attachments = store.compose_state.media_attachments;
              });
            })
            Kind.posted status_posted (λ error. dispatch (submit_compose_fail error)))))

-- The file, resized, and the messages about the progress are the browser's.
unfoldable pub upload_compose : Program
upload_compose = ask (λ store.
    if ltb 3 (length store.compose_state.media_attachments)
    then done
    else put upload_compose_request (
        call (request Method.post (codes "/api/v1/media") ((codes "file", Param.object) ∷ []))
          Kind.media (λ file. dispatch (upload_compose_success file))
          (λ error. dispatch (upload_compose_fail error))))

-- The failure takes the error first, but is called with the id first.
unfoldable pub change_upload_compose : Text → List (Text × Param) → Program
change_upload_compose id params = put change_upload_compose_request (
    call (request Method.put (codes "/api/v1/media/" ++ id) params) Kind.media
      (λ file. dispatch (change_upload_compose_success file))
      (λ error. dispatch (change_upload_compose_fail (not_an_error id))))
