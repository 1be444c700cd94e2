-- ===== src/Thunks/Tests.antt =====
-- Thunks in a concrete store.
use mastodon.Prelude.{
  length, ◌≤◌, Text, text_eq, text_eq_iff, codes, ◌≡◌, refl, true, false, none, some, List, [], ◌∷◌,
  get, IfSome, if◌then◌else◌, Bool-cases, inl, inr,
}
use mastodon.Entities.{Account}
use mastodon.Store.Sample.{env, store}
use mastodon.Timelines.Loading.{loading}
use mastodon.Thunks.Message.{Error, unread}
use mastodon.Thunks.Answers.{Fetched, original, settled, Kind, Page}
use mastodon.Thunks.Program.{done}
use mastodon.Thunks.Run.{World, Texts, answered, refused, run, resume}
use mastodon.Thunks.Timelines.{expand_timeline, page_arrived, page_failed}
use mastodon.Thunks.Importer.{import_fetched_statuses}
use mastodon.Thunks.Paging.{Event, Client, open_page, page, other}
use mastodon.Thunks.Paging
use mastodon.Thunks.Answers.{Posted}
use mastodon.Thunks.Submit.{status_posted, new_history}
use mastodon.Thunks.Posting.{is_open, LeavesAlone, status_posted-public}
use mastodon.Thunks.TagHistory.{new_history-IsDistinct}
use mastodon.Compose.Mentions.{IsDistinct}
use mastodon.Thunks.Paging.Tracked.{IsTracked, steps-IsTracked, resume-loading}
use mastodon.Thunks.Deleting.{IsKeyed}
use mastodon.Thunks.Imported.{chains, first, imported}
use mastodon.Thunks.Importing.{run-import-IsKeyed, IsAsHidden}
use mastodon.Thunks.Refusals.{idle, refused_after-IsTold, IsTold, refused_after}
use mastodon.Thunks.Relations.{
  follow_account, unfollow_account, block_account, unblock_account, mute_account, unmute_account,
  pin_account, unpin_account,
}

abbrev texts : Texts
texts = record {
  decimal = λ n. n ∷ [];
  unexpected_title = codes "Oops!";
  unexpected_message = codes "An unexpected error occurred.";
}

abbrev author : Account
author = record {
  id = codes "a";
  acct = codes "a";
  followers_count = 0;
  following_count = 0;
  statuses_count = 0;
}

abbrev post : Fetched
post = original (record {
  id = codes "3";
  account = settled author;
  in_reply_to_id = none;
  spoiler_text = [];
  sensitive = true;
  favourited = none;
  reblogged = none;
  muted = none;
})

abbrev one_page : Page Fetched
one_page = record { entries = post ∷ []; next = none }

-- The page is asked for twice, then it arrives; the next one is refused.
abbrev events : List Event
events =
    open_page (codes "home") (codes "/api/v1/timelines/home") []
    ∷ open_page (codes "home") (codes "/api/v1/timelines/home") []
    ∷ other (unread (codes "STATUS_DELETE_REQUEST"))
    ∷ page (codes "home") (answered one_page)
    ∷ open_page (codes "home") (codes "/api/v1/timelines/home") []
    ∷ page (codes "home") (refused (record { response = none }))
    ∷ []

abbrev client : Client
client = record { world = idle store; waiting = [] }

client-IsTracked : IsTracked client
unfolding get text_eq
client-IsTracked t = elim (Bool-cases (text_eq (codes "home") t)) [
  | inl e ↦ rw e refl
  | inr e ↦ rw e refl
]

steps-IsTracked_example : IsTracked (Paging.steps env texts client events)
steps-IsTracked_example =
    steps-IsTracked env texts client events (tt, (tt, (refl, (tt, (tt, (tt, tt))))))
      client-IsTracked

-- The home timeline, while its first page is under way.
abbrev waiting_world : World
waiting_world =
    (run env texts (expand_timeline (codes "home") (codes "/api/v1/timelines/home") [] done)
      (idle store)).world

resume-loading_example :
    let o =
      resume env texts Kind.statuses
        (page_arrived (codes "home") done)
        (page_failed (codes "home") done)
        (answered one_page)
        waiting_world in
    (o.completed ≡ true)
    × (loading (codes "home") o.world.store.timelines_state ≡ (
        if text_eq (codes "home") (codes "home")
        then false
        else loading (codes "home") waiting_world.store.timelines_state))
resume-loading_example =
    resume-loading env texts (codes "home") (codes "home") (answered one_page) waiting_world

store-IsKeyed : IsKeyed store.statuses_state
unfolding get
store-IsKeyed k = elim (Bool-cases (text_eq (codes "2") k)) [
  | inl e ↦ rw e ((text_eq_iff (codes "2") k).0 e)
  | inr e ↦ rw e tt
]

run-import-IsKeyed_example :
    let o = run env texts (import_fetched_statuses (post ∷ post ∷ [])) (idle store) in
    (o.completed ≡ true)
    × ((k : Text)
        → get k o.world.store.statuses_state
          ≡ imported (first k (chains (post ∷ post ∷ []))) (get k store.statuses_state))
    × IsKeyed o.world.store.statuses_state
    × ((k : Text) → IfSome (IsAsHidden store.statuses_state k) (get k o.world.store.statuses_state))
run-import-IsKeyed_example =
    run-import-IsKeyed env texts (post ∷ post ∷ []) (idle store) store-IsKeyed

-- What the server says of a block that it refuses.
abbrev forbidden : Error
forbidden = record {
  response =
      some (record { status = 403; status_text = codes "Forbidden"; error = some (codes "No") });
}

refused_after-IsTold_example :
    IsTold
      (403 ∷ [], codes "No")
      store
      (refused_after env texts (follow_account (codes "a") true false) forbidden store)
    × IsTold
        (403 ∷ [], codes "No")
        store
        (refused_after env texts (unfollow_account (codes "a")) forbidden store)
    × IsTold
        (403 ∷ [], codes "No")
        store
        (refused_after env texts (pin_account (codes "a")) forbidden store)
    × IsTold
        (403 ∷ [], codes "No")
        store
        (refused_after env texts (unpin_account (codes "a")) forbidden store)
    × IsTold
        (texts.unexpected_title, texts.unexpected_message)
        store
        (refused_after env texts (block_account (codes "a")) forbidden store)
    × IsTold
        (texts.unexpected_title, texts.unexpected_message)
        store
        (refused_after env texts (unblock_account (codes "a")) forbidden store)
    × IsTold
        (texts.unexpected_title, texts.unexpected_message)
        store
        (refused_after env texts (mute_account (codes "a") true) forbidden store)
    × IsTold
        (texts.unexpected_title, texts.unexpected_message)
        store
        (refused_after env texts (unmute_account (codes "a")) forbidden store)
refused_after-IsTold_example =
    refused_after-IsTold env texts (codes "a") true false true forbidden store

-- A direct status with two tags.
abbrev posted : Posted
posted = record { status = post; tags = codes "b" ∷ codes "c" ∷ []; visibility = codes "direct" }

posted-is_open : is_open posted ≡ false
unfolding text_eq
posted-is_open = refl

status_posted-public_example :
    LeavesAlone env texts (codes "public") (status_posted posted) (idle store)
    × LeavesAlone env texts (codes "community") (status_posted posted) (idle store)
status_posted-public_example = status_posted-public env texts posted (idle store) posted-is_open

old_tags-IsDistinct : IsDistinct (codes "a" ∷ codes "b" ∷ [])
unfolding text_eq
old_tags-IsDistinct = (refl, (refl, tt))

new_tags-IsDistinct : IsDistinct (codes "b" ∷ codes "c" ∷ [])
unfolding text_eq
new_tags-IsDistinct = (refl, (refl, tt))

new_history-IsDistinct_example :
    (length (new_history (codes "b" ∷ codes "c" ∷ []) (codes "a" ∷ codes "b" ∷ [])) ≤ 1000)
    × IsDistinct (new_history (codes "b" ∷ codes "c" ∷ []) (codes "a" ∷ codes "b" ∷ []))
new_history-IsDistinct_example =
    new_history-IsDistinct (codes "b" ∷ codes "c" ∷ []) (codes "a" ∷ codes "b" ∷ [])
      new_tags-IsDistinct old_tags-IsDistinct
