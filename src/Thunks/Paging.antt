-- ===== src/Thunks/Paging.antt =====
-- The pages of the timelines as a protocol: requests go out, answers come back in any order, and
-- other messages are dispatched in between.
pub mod Tracked
use mathlib.Core.Option.{none-ne-some, some-injective}
use mastodon.Prelude.{
  ◌++◌, codes, true, ◌&&◌, arith, length-append, get_or, ap, ◌∙◌, sym, text_eq_iff, inl, inr,
  Bool-cases, Option-cases, ℕ, suc, ◌-◌, Text, text_eq, ◌≡◌, refl, Bool, true, false, not, ltb,
  Option, none, some, List, [], ◌∷◌, length, if◌then◌else◌, any,
}
use mastodon.Actions.{Action}
use mastodon.Timelines.{Timelines, timelines, expand_normalized_timeline, initial_timeline}
use mastodon.Timelines.Loading.{loading, is_paging, loading-set, loading-timelines}
use mastodon.Compose.State.{Env}
use mastodon.Compose.{compose}
use mastodon.Reducers.UserLists.{user_lists}
use mastodon.Store.{Store, reducer}
use mastodon.Thunks.Message.{Message, Error}
use mastodon.Thunks.Answers.{Kind, Param, Page, Fetched}
use mastodon.Thunks.Program.{Program, done, dispatch, ◌>>◌}
use mastodon.Thunks.Importer.{import_fetched_statuses, import_collected}
use mastodon.Thunks.Timelines.{expand_timeline, page_arrived, page_failed}
use mastodon.Thunks.Run.{
  World, Job, Texts, Outcome, Result, answered, refused, run, resume, settle, dispatched, alerted,
  alert_error, bar_of, ends_with, and_then, reduce,
}
use mastodon.Thunks.Effects.{reducer-timelines}

-- What can happen: a page is asked for, an answer to a request for a page comes, another message.
pub data Event : Type 0 where
  open_page : (timeline path : Text) (params : List (Text × Param)) → Event
  page : (timeline : Text) (result : Result Kind.statuses) → Event
  other : (m : Message) → Event

-- The timelines whose page is under way, one entry for each request.
pub record Client : Type 0 where
  pub world : World
  pub waiting : List Text

abbrev pub count : Text → List Text → ℕ
count t [] = 0
count t (u ∷ us) = let rest = count t us in if text_eq u t then suc rest else rest

abbrev pub remove_first : Text → List Text → List Text
remove_first t [] = []
remove_first t (u ∷ us) = let rest = remove_first t us in if text_eq u t then us else u ∷ rest

-- A request was sent where there is one more.
unfoldable pub step : Env → Texts → Client → Event → Client
step env texts c (open_page timeline path params) =
    let o = run env texts (expand_timeline timeline path params done) c.world in
    record {
      world = o.world;
      waiting =
          if ltb (length c.world.jobs) (length o.world.jobs)
          then timeline ∷ c.waiting
          else c.waiting;
    }
step env texts c (page timeline result) =
    if ltb 0 (count timeline c.waiting)
    then record {
      world =
          (resume env texts Kind.statuses (page_arrived timeline done) (page_failed timeline done)
            result c.world).world;
      waiting = remove_first timeline c.waiting;
    }
    else c
step env texts c (other m) = record c { world = (run env texts (dispatch m) c.world).world }

unfoldable pub steps : Env → Texts → Client → List Event → Client
unfolding step
steps env texts c [] = c
steps env texts c (e ∷ es) = steps env texts (step env texts c e) es

-- A message about no page.
abbrev pub is_other : Option Action → Bool
is_other none = true
is_other (some action) = not (is_paging action)

abbrev pub IsProper : Event → Type 0
IsProper (other m) = is_other m.body ≡ true
IsProper _ = Unit
