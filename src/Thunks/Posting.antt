-- ===== src/Thunks/Posting.antt =====
-- Where a status appears at once when the user has posted it: submitCompose of
-- app/javascript/mastodon/actions/compose.js.
use mastodon.Prelude.{
  Text, text_eq, codes, ◌≡◌, ◌∙◌, refl, Bool, true, false, ◌&&◌, not, List, [], ◌∷◌, any, get,
  get_or, Bool-cases, inl, inr, arith, is_some,
}
use mastodon.Actions.{timeline_update}
use mastodon.Timelines.{timelines, initial_timeline}
use mastodon.Timelines.Update.{get-timelines_other}
use mastodon.Compose.State.{Env}
use mastodon.Compose.{compose}
use mastodon.Reducers.UserLists.{user_lists}
use mastodon.Reducers.Settings.{settings}
use mastodon.Store.{reducer}
use mastodon.Thunks.Answers.{Fetched, Posted, post_of, status_of}
use mastodon.Thunks.Program.{Program, when, ◌>>◌}
use mastodon.Thunks.Importer.{import_fetched_statuses, import_collected}
use mastodon.Thunks.Timelines.{update_timeline}
use mastodon.Thunks.Submit.{
  status_posted, insert_all, insert_if_online, is_online, further_columns, insert_into_tag_history,
}
use mastodon.Thunks.Run.{World, Texts, run, dispatched, alerted, bar_of, ends_with}

-- A program completes and leaves a timeline alone.
abbrev pub LeavesAlone : Env → Texts → Text → Program → World → Type 0
LeavesAlone env texts t p w =
    let o = run env texts p w in
    (o.completed ≡ true) × (get t o.world.store.timelines_state ≡ get t w.store.timelines_state)

update_timeline-LeavesAlone :
    (env : Env) (texts : Texts) (status : Fetched) (c t : Text) (online : Bool) (p : Program)
    (w : World)
    → text_eq c t ≡ false
    → ((v : World) → LeavesAlone env texts t p v)
    → LeavesAlone env texts t (when online (update_timeline c status) >> p) w
unfolding run dispatched alerted bar_of ends_with text_eq ◌>>◌ import_fetched_statuses
    import_collected reducer compose user_lists settings update_timeline timelines get
update_timeline-LeavesAlone env texts status c t false p w out rest = rest w
update_timeline-LeavesAlone env texts status c t true p w out rest =
    let action = timeline_update c (status_of status) in
    let (fine, same) = rest _ in
    (fine, same ∙ get-timelines_other w.store.timelines_state action c t refl out)

insert_all-LeavesAlone :
    (env : Env) (texts : Texts) (status : Fetched) (columns : List Text) (t : Text) (w : World)
    → any (λ c. text_eq c t) columns ≡ false
    → LeavesAlone env texts t (insert_all status columns) w
unfolding run insert_all insert_if_online ◌>>◌
insert_all-LeavesAlone env texts status [] t w out = (refl, refl)
insert_all-LeavesAlone env texts status (c ∷ columns) t w out =
    update_timeline-LeavesAlone env texts status c t
      (is_online (get_or initial_timeline c w.store.timelines_state).items)
      (insert_all status columns) w (ground (arith, out))
      (λ v. insert_all-LeavesAlone env texts status columns t v (ground (arith, out)))

-- Whether the status may be shown to everyone, and answers nothing.
abbrev pub is_open : Posted → Bool
is_open posted =
    not (is_some (post_of posted.status).in_reply_to_id)
    && text_eq posted.visibility (codes "public")

-- What happens when the server has taken a status completes, and leaves alone every timeline other
-- than home, for an open status the community and the public one, and for a direct one that is not
-- open the direct one.
pub status_posted-LeavesAlone :
    (env : Env) (texts : Texts) (posted : Posted) (t : Text) (w : World)
    → any (λ c. text_eq c t) (codes "home" ∷ further_columns posted) ≡ false
    → LeavesAlone env texts t (status_posted posted) w
unfolding run dispatched alerted bar_of ends_with text_eq ◌>>◌ reducer compose user_lists settings
    status_posted insert_into_tag_history timelines
status_posted-LeavesAlone env texts posted t w out =
    insert_all-LeavesAlone env texts posted.status (codes "home" ∷ further_columns posted) t _ out

further_columns-not_open :
    (posted : Posted)
    → is_open posted ≡ false
    → (any (λ c. text_eq c (codes "public")) (codes "home" ∷ further_columns posted) ≡ false)
      × (any (λ c. text_eq c (codes "community")) (codes "home" ∷ further_columns posted) ≡ false)
unfolding further_columns text_eq
further_columns-not_open posted closed =
    elim (Bool-cases (text_eq posted.visibility (codes "direct"))) [
      | inl e ↦ rw (closed, e) (refl, refl)
      | inr e ↦ rw (closed, e) (refl, refl)
    ]

-- A status that is not public, or answers another one, does not appear in the public timelines when
-- its author has posted it, and what is done with it completes.
pub status_posted-public :
    (env : Env) (texts : Texts) (posted : Posted) (w : World)
    → is_open posted ≡ false
    → LeavesAlone env texts (codes "public") (status_posted posted) w
      × LeavesAlone env texts (codes "community") (status_posted posted) w
status_posted-public env texts posted w closed =
    let (a, b) = further_columns-not_open posted closed in
    (
      status_posted-LeavesAlone env texts posted (codes "public") w a,
      status_posted-LeavesAlone env texts posted (codes "community") w b,
    )
