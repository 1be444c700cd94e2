-- ===== src/Thunks/Paging/Tracked.antt =====
-- The loading of a timeline and the requests for its pages.
use mathlib.Core.Option.{none-ne-some, some-injective}
use mastodon.Prelude.{
  All, ◌++◌, codes, true, ◌&&◌, arith, length-append, ap, ◌∙◌, sym, text_eq_iff, inl, inr,
  Bool-cases, Option-cases, ℕ, ◌-◌, Text, text_eq, ◌≡◌, refl, true, false, not, ltb, Option, none,
  some, List, [], ◌∷◌, length, if◌then◌else◌,
}
use mastodon.Actions.{Action}
use mastodon.Timelines.{timelines, expand_normalized_timeline}
use mastodon.Timelines.Loading.{loading, loading-set, loading-timelines}
use mastodon.Compose.State.{Env}
use mastodon.Compose.{compose}
use mastodon.Reducers.UserLists.{user_lists}
use mastodon.Reducers.Settings.{settings}
use mastodon.Store.{Store, reducer}
use mastodon.Thunks.Message.{Message, Error}
use mastodon.Thunks.Answers.{Kind, Param}
use mastodon.Thunks.Program.{done, ◌>>◌}
use mastodon.Thunks.Importer.{import_fetched_statuses, import_collected}
use mastodon.Thunks.Timelines.{expand_timeline, page_arrived, page_failed}
use mastodon.Thunks.Run.{
  World, Job, Texts, Result, answered, refused, run, resume, settle, dispatched, alerted,
  alert_error, bar_of, ends_with, reduce,
}
use mastodon.Thunks.Effects.{reducer-timelines}
use mastodon.Thunks.Paging.{
  Event, open_page, page, other, Client, count, remove_first, step, steps, is_other, IsProper,
}

-- A timeline is loading exactly if one request for a page of it is under way, and there are never
-- two.
abbrev pub IsTracked : Client → Type 0
IsTracked c =
    (t : Text) → count t c.waiting ≡ (if loading t c.world.store.timelines_state then 1 else 0)

-- An answer, whatever it is, ends the loading of its timeline.
pub resume-loading :
    (env : Env) (texts : Texts) (timeline u : Text) (result : Result Kind.statuses) (w : World)
    → let o =
        resume env texts Kind.statuses
          (page_arrived timeline done)
          (page_failed timeline done)
          result
          w in
      (o.completed ≡ true)
      × (loading u o.world.store.timelines_state
          ≡ (if text_eq timeline u then false else loading u w.store.timelines_state))
unfolding resume run settle dispatched alerted bar_of ends_with text_eq ◌>>◌ page_arrived
    page_failed import_fetched_statuses import_collected reducer compose user_lists settings
    timelines expand_normalized_timeline
resume-loading env texts timeline u (answered p) w =
    (refl, loading-set timeline u _ w.store.timelines_state)
resume-loading env texts timeline u (refused error) w =
    (refl, loading-set timeline u _ w.store.timelines_state)

-- Asking for a page of a timeline that is loading does nothing.
run-expand_loading :
    (env : Env) (texts : Texts) (timeline path : Text) (params : List (Text × Param)) (w : World)
    → loading timeline w.store.timelines_state ≡ true
    → run env texts (expand_timeline timeline path params done) w
      ≡ record { world = w; completed = true }
unfolding run expand_timeline
run-expand_loading env texts timeline path params w e = rw (e, run) refl

more_jobs : (jobs : List Job) (j : Job) → ltb (length jobs) (length (jobs ++ (j ∷ []))) ≡ true
more_jobs jobs j = ground (arith, length-append jobs (j ∷ []))

-- Otherwise one request goes out, and the timeline is loading from then on.
run-expand :
    (env : Env) (texts : Texts) (timeline path u : Text) (params : List (Text × Param)) (w : World)
    → loading timeline w.store.timelines_state ≡ false
    → let o = run env texts (expand_timeline timeline path params done) w in
      (ltb (length w.jobs) (length o.world.jobs) ≡ true)
      × (loading u o.world.store.timelines_state
          ≡ (if text_eq timeline u then true else loading u w.store.timelines_state))
unfolding run expand_timeline dispatched alerted bar_of ends_with text_eq reducer compose user_lists
    settings timelines
run-expand env texts timeline path u params w e =
    rw (e, run) (more_jobs w.jobs _, loading-set timeline u _ w.store.timelines_state)

count-remove_first :
    (t u : Text) (ws : List Text)
    → count u (remove_first t ws) ≡ (if text_eq t u then count u ws - 1 else count u ws)
count-remove_first t u [] = ground arith
count-remove_first t u (w ∷ ws) =
    ground (arith, count-remove_first t u ws, text_eq_iff w t, text_eq_iff t u, text_eq_iff w u)

alert_error-timelines :
    (env : Env) (texts : Texts) (error : Option Error) (store next : Store)
    → alert_error env texts error store ≡ some next
    → next.timelines_state ≡ store.timelines_state
unfolding timelines
alert_error-timelines env texts none store next e = absurd (none-ne-some next e)
alert_error-timelines env texts (some error) store next e = reducer-timelines env store next _ e

alerted-timelines :
    (env : Env) (texts : Texts) (m : Message) (store next : Store)
    → alerted env texts m store ≡ some next
    → next.timelines_state ≡ store.timelines_state
unfolding alerted
alerted-timelines env texts m store next e =
    elim (Bool-cases (not m.skip_alert && ends_with (codes "FAIL") m.kind)) [
      | inl failed ↦ alert_error-timelines env texts m.error store next (rw failed at e)
      | inr quiet ↦
          ap (λ (s : Store). s.timelines_state) (sym (some-injective store next (rw quiet at e)))
    ]

reduce-loading :
    (env : Env) (body : Option Action) (t : Text) (store next : Store)
    → is_other body ≡ true
    → reduce env body store ≡ some next
    → loading t next.timelines_state ≡ loading t store.timelines_state
reduce-loading env none t store next o e =
    ap (λ (s : Store). loading t s.timelines_state) (sym (some-injective store next e))
reduce-loading env (some action) t store next o e =
    ap (loading t) (reducer-timelines env store next action e)
    ∙ loading-timelines t store.timelines_state action (ground arith)

dispatched-loading :
    (env : Env) (texts : Texts) (m : Message) (t : Text) (store next : Store)
    → is_other m.body ≡ true
    → dispatched env texts m store ≡ some next
    → loading t next.timelines_state ≡ loading t store.timelines_state
unfolding dispatched
dispatched-loading env texts m t store next o e = elim (Option-cases (alerted env texts m store)) [
  | inl crashed ↦ absurd (none-ne-some next (rw crashed at e))
  | inr (s, fine) ↦
      reduce-loading env m.body t s next o (rw fine at e)
      ∙ ap (loading t) (alerted-timelines env texts m store s fine)
]

ltb_irrefl : (n : ℕ) → ltb n n ≡ false
ltb_irrefl n = ground arith

step-IsTracked :
    (env : Env) (texts : Texts) (c : Client) (e : Event)
    → IsProper e
    → IsTracked c
    → IsTracked (step env texts c e)
unfolding step run mastodon.Prelude.get
step-IsTracked env texts c (open_page timeline path params) proper h = λ t.
    elim (Bool-cases (loading timeline c.world.store.timelines_state)) [
      | inl busy ↦
          rw (run-expand_loading env texts timeline path params c.world busy)
            (rw (ltb_irrefl (length c.world.jobs)) (h t))
      | inr free ↦
          let (sent, now) = run-expand env texts timeline path t params c.world free in
          ground (arith, sent, now, h t, h timeline, text_eq_iff timeline t)
    ]
step-IsTracked env texts c (page timeline result) proper h = λ t.
    let (fine, now) = resume-loading env texts timeline t result c.world in
    ground
      (arith, now, h t, h timeline, text_eq_iff timeline t, count-remove_first timeline t c.waiting)
step-IsTracked env texts c (other m) proper h = λ t.
    elim (Option-cases (dispatched env texts m c.world.store)) [
      | inl e ↦ rw (e, run) (h t)
      | inr (next, e) ↦
          let same = dispatched-loading env texts m t c.world.store next proper e in
          rw (e, run) (rw same (h t))
    ]

-- Whatever happens, in whatever order, but for messages about pages from elsewhere, a timeline is
-- loading exactly if one request for a page of it is under way, and never are there two, where this
-- held before.
pub steps-IsTracked :
    (env : Env) (texts : Texts) (c : Client) (events : List Event)
    → All IsProper events
    → IsTracked c
    → IsTracked (steps env texts c events)
unfolding steps
steps-IsTracked env texts c [] proper h = h
steps-IsTracked env texts c (e ∷ events) proper h =
    steps-IsTracked env texts (step env texts c e) events proper.1
      (step-IsTracked env texts c e proper.0 h)
