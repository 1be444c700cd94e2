-- ===== src/Timelines/Loading.antt =====
-- Which timelines are loading.
use mathlib.Core.Option
use mastodon.Prelude.{
  ◌∙◌, Text, codes, text_eq, text_eq_iff, ◌≡◌, refl, sym, ap, inl, inr, Bool, true, false, Option,
  none, some, if◌then◌else◌, Map, get, set, get_or, value_or, get-set, Bool-cases, Option-cases,
}
use mastodon.Entities.{Status, Relationship}
use mastodon.Actions.{
  Action, timeline_update, timeline_delete, timeline_expand_request, timeline_expand_success,
  timeline_expand_fail, timeline_scroll_top, timeline_disconnect, account_block_success,
  account_mute_success, account_unfollow_success,
}
use mastodon.Timelines.{
  Timeline, Timelines, initial_timeline, timelines, update_timeline, filter_timeline, includes,
  items_in,
}
use mastodon.Timelines.Delete.{get-delete_status, get-filter_timelines, without}

-- A timeline that is not in the state is not loading.
abbrev pub loading : Text → Timelines → Bool
loading timeline state = (get_or initial_timeline timeline state).is_loading

abbrev loading_of : Option Timeline → Bool
loading_of o = (value_or initial_timeline o).is_loading

loading_of-if :
    (b : Bool) (v : Timeline) (o : Option Timeline)
    → loading_of (if b then some v else o) ≡ (if b then v.is_loading else loading_of o)
loading_of-if true v o = refl
loading_of-if false v o = refl

-- The actions about pages of a timeline.
abbrev pub is_paging : Action → Bool
is_paging (timeline_expand_request timeline) = true
is_paging (timeline_expand_success timeline statuses next partial) = true
is_paging (timeline_expand_fail timeline) = true
is_paging _ = false

pub loading-set :
    (k t : Text) (v : Timeline) (state : Timelines)
    → loading t (set k v state) ≡ (if text_eq k t then v.is_loading else loading t state)
loading-set k t v state = ap loading_of (get-set k t v state) ∙ loading_of-if (text_eq k t) v _

loading-without :
    (p : Option Text → Bool) (o : Option Timeline)
    → (value_or initial_timeline (Option.map (without p) o)).is_loading
      ≡ (value_or initial_timeline o).is_loading
loading-without p none = refl
loading-without p (some t) = refl

-- An update of a timeline that does not look at loading.
loading-kept :
    (k t : Text) (v : Timeline) (state : Timelines)
    → v.is_loading ≡ loading k state
    → loading t (set k v state) ≡ loading t state
loading-kept k t v state same = elim (Bool-cases (text_eq k t)) [
  | inl e ↦
      loading-set k t v state ∙ rw e (same ∙ ap (λ u. loading u state) ((text_eq_iff k t).0 e))
  | inr e ↦ loading-set k t v state ∙ rw e refl
]

update_timeline-loading :
    (t timeline : Text) (status : Status) (state : Timelines)
    → loading t (update_timeline state timeline status) ≡ loading t state
unfolding update_timeline
update_timeline-loading t timeline status state =
    elim (Bool-cases (includes (items_in (get timeline state)) status.id)) [
      | inl e ↦ rw e refl
      | inr e ↦ rw e (loading-kept timeline t _ state refl)
    ]

filter_timeline-loading :
    (t timeline : Text) (relationship : Relationship) (statuses : Map Status) (state : Timelines)
    → loading t (filter_timeline timeline state relationship statuses) ≡ loading t state
unfolding filter_timeline
filter_timeline-loading t timeline relationship statuses state =
    elim (Option-cases (get timeline state)) [
      | inl e ↦ rw (e, filter_timeline) refl
      | inr (found, e) ↦
          rw (e, filter_timeline)
            (loading-kept timeline t _ state
              (ap (λ o. (value_or initial_timeline o).is_loading) (sym e)))
    ]

pub loading-timelines :
    (t : Text) (state : Timelines) (action : Action)
    → is_paging action ≡ false
    → loading t (timelines state action) ≡ loading t state
unfolding timelines
loading-timelines t state (timeline_expand_request timeline) e = cc
loading-timelines t state (timeline_expand_success timeline statuses next partial) e = cc
loading-timelines t state (timeline_expand_fail timeline) e = cc
loading-timelines t state (timeline_update timeline status) e =
    update_timeline-loading t timeline status state
loading-timelines t state (timeline_delete id account_id references reblog_of) e =
    ap loading_of (get-delete_status state t id references) ∙ loading-without _ (get t state)
loading-timelines t state (account_block_success relationship statuses) e =
    ap loading_of (get-filter_timelines state t relationship statuses)
    ∙ loading-without _ (get t state)
loading-timelines t state (account_mute_success relationship statuses) e =
    ap loading_of (get-filter_timelines state t relationship statuses)
    ∙ loading-without _ (get t state)
loading-timelines t state (account_unfollow_success relationship statuses) e =
    filter_timeline-loading t (codes "home") relationship statuses state
loading-timelines t state (timeline_scroll_top timeline top) e =
    loading-kept timeline t _ state refl
loading-timelines t state (timeline_disconnect timeline) e = loading-kept timeline t _ state refl
loading-timelines t state _ e = refl
