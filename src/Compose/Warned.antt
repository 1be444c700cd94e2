-- ===== src/Compose/Warned.antt =====
-- Media behind a content warning are marked as sensitive.
use mastodon.Prelude.{
  Text, text_eq, ◌≡◌, refl, Bool, true, false, Option, none, some, List, [], ◌∷◌, map, length,
  filter_not, is_empty, IfSome, arith,
}
use mathlib.Core.Option
use mastodon.Entities.{Media, StatusView}
use mastodon.Actions.{
  Action, timeline_delete, store_hydrate, compose_sensitivity_change, compose_spoilerness_change,
  compose_reply, redraft, compose_upload_success, compose_upload_change_success,
  compose_upload_undo, compose_submit_success, compose_reply_cancel, compose_reset,
}
use mastodon.Compose.State.{Compose, Env}
use mastodon.Compose.Edits.{
  clear_all, append_media, remove_media, hydrate, reply, reset, redraft_text, expand_mentions,
  insert_suggestion, update_suggestion_tags, insert_emoji,
}
use mastodon.Compose.{compose, change_media}

-- While there are media and a content warning, the media are sensitive.
abbrev pub IsWarned : Compose → Type 0
IsWarned state =
    state.spoiler ≡ true → is_empty state.media_attachments ≡ false → state.sensitive ≡ true

-- The three actions that can take the mark away do not: a reply copies no content warning to media
-- that are not sensitive, nor does a draft from a deleted status, and the upload that is undone is
-- among the media.
abbrev pub MindsMedia : Compose → Action → Type 0
MindsMedia state (compose_reply status) =
    is_empty status.spoiler_text ≡ false
    → is_empty state.media_attachments ≡ false
    → state.sensitive ≡ true
MindsMedia state (redraft status) =
    is_empty status.spoiler_text ≡ false
    → is_empty status.media_attachments ≡ false
    → state.sensitive ≡ true
MindsMedia state (compose_upload_undo media_id) =
    length state.media_attachments ≡ 1
    → filter_not (λ (m : Media). text_eq m.id media_id) state.media_attachments ≡ []
MindsMedia state _ = Unit

is_empty-map {ℓ κ} :
    {A : Type ℓ} {B : Type κ} (f : A → B) (xs : List A) → is_empty (map f xs) ≡ is_empty xs
is_empty-map f [] = refl
is_empty-map f (x ∷ xs) = refl

is_empty-filter_not {ℓ} :
    {A : Type ℓ} (p : A → Bool) (xs : List A)
    → is_empty xs ≡ true
    → is_empty (filter_not p xs) ≡ true
is_empty-filter_not p [] h = refl
is_empty-filter_not p (x ∷ xs) h = ground arith

append_media-IsWarned :
    (env : Env) (state : Compose) (media : Media)
    → IsWarned state
    → IsWarned (append_media env state media)
unfolding append_media
append_media-IsWarned env state media h spoiler some_media = ground (arith, h spoiler)

remove_media-IsWarned :
    (env : Env) (state : Compose) (media_id : Text)
    → MindsMedia state (compose_upload_undo media_id)
    → IsWarned state
    → IsWarned (remove_media env state media_id)
unfolding remove_media
remove_media-IsWarned env state media_id minds h spoiler some_media = ground (
  arith,
  minds,
  h spoiler,
  is_empty-filter_not (λ (m : Media). text_eq m.id media_id) state.media_attachments,
)

spoilerness-IsWarned :
    (env : Env) (state : Compose) → IfSome IsWarned (compose env state compose_spoilerness_change)
unfolding compose
spoilerness-IsWarned env state spoiler some_media = ground arith

redraft-IsWarned :
    (env : Env) (state : Compose) (status : StatusView)
    → MindsMedia state (redraft status)
    → (html : Option Text) → IfSome IsWarned (Option.map (redraft_text env state status) html)
unfolding redraft_text
redraft-IsWarned env state status minds none = tt
redraft-IsWarned env state status minds (some html) = λ spoiler some_media. ground (arith, minds)

-- Every action keeps media behind a content warning sensitive, but a reply or a draft that brings a
-- content warning to media that are not, and the undoing of an upload that is not there.
pub compose-IsWarned :
    (env : Env) (state : Compose) (action : Action)
    → MindsMedia state action
    → IsWarned state
    → IfSome IsWarned (compose env state action)
unfolding compose clear_all hydrate reply reset insert_suggestion update_suggestion_tags
    insert_emoji
compose-IsWarned env state compose_spoilerness_change minds h = spoilerness-IsWarned env state
compose-IsWarned env state compose_sensitivity_change minds h =
    λ spoiler some_media. ground (arith, h spoiler some_media)
compose-IsWarned env state (compose_reply status) minds h =
    λ spoiler some_media. ground (arith, minds)
compose-IsWarned env state (redraft status) minds h =
    redraft-IsWarned env state status minds (expand_mentions env status)
compose-IsWarned env state (compose_upload_success media) minds h =
    append_media-IsWarned env state media h
compose-IsWarned env state (compose_upload_undo media_id) minds h =
    remove_media-IsWarned env state media_id minds h
compose-IsWarned env state (compose_upload_change_success media) minds h = λ spoiler some_media.
    ground (arith, h spoiler, is_empty-map (change_media media) state.media_attachments)
compose-IsWarned env state (timeline_delete id account_id references reblog_of) minds h =
    λ spoiler some_media. ground (arith, h)
compose-IsWarned env state (store_hydrate hydrated push) minds h =
    λ spoiler some_media. ground arith
compose-IsWarned env state compose_submit_success minds h = λ spoiler some_media. ground arith
compose-IsWarned env state compose_reply_cancel minds h = λ spoiler some_media. ground arith
compose-IsWarned env state compose_reset minds h = λ spoiler some_media. ground arith
compose-IsWarned env state _ minds h = λ spoiler some_media. h spoiler some_media
