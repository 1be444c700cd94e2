-- ===== src/Timelines.antt =====
-- app/javascript/mastodon/reducers/timelines.js: the timelines of the web client. An entry of
-- `items` is a status id, newest first, or `none` (null) for a gap that is still to be loaded.
pub mod Sorted
pub mod Pieces
pub mod Expand
pub mod Order
pub mod Invariant
pub mod Delete
pub mod Loading
pub mod Update
mod Tests
use mathlib.Core.Option
use mastodon.Prelude.{
  ℕ, zero, suc, ◌+◌, Text, codes, text_eq, option_eq, truthy, Bool, true, false, ◌&&◌, ◌||◌, not,
  Option, none, some, List, [], ◌∷◌, ◌++◌, map, length, ltb, ◌==◌, if◌then◌else◌, take, drop,
  last_or, get_elem?, filter_not, keep_if, find_last_index, after, is_some, Map, get, set, update,
  value_or, get_or, map_values, values,
}
use mastodon.Entities.{Status, Relationship}
use mastodon.Actions.{
  Action, Reference, timeline_update, timeline_delete, timeline_expand_request,
  timeline_expand_success, timeline_expand_fail, timeline_scroll_top, timeline_disconnect,
  account_block_success, account_mute_success, account_unfollow_success,
}
use mastodon.CompareId.{compare_id, is_ge, is_gt}

abbrev pub Ids : Type 0
Ids = List (Option Text)

pub record Timeline : Type 0 where
  pub unread : ℕ
  pub top : Bool
  pub is_loading : Bool
  pub has_more : Bool
  pub items : Ids

abbrev pub Timelines : Type 0
Timelines = Map Timeline

abbrev pub initial_state : Timelines
initial_state = []

abbrev pub initial_timeline : Timeline
initial_timeline = record {
  unread = 0;
  top = true;
  is_loading = false;
  has_more = true;
  items = [];
}

-- `timeline.indexOf(part) !== -1`.
starts_with : Text → Text → Bool
starts_with [] s = true
starts_with (c ∷ part) [] = false
starts_with (c ∷ part) (d ∷ s) = c == d && starts_with part s

unfoldable pub has_part : Text → Text → Bool
unfolding starts_with
has_part part [] = starts_with part []
has_part part (c ∷ s) = starts_with part (c ∷ s) || has_part part s

-- `id !== null && test(id)`.
abbrev pub known_and : (Text → Bool) → Option Text → Bool
known_and test none = false
known_and test (some id) = test id

-- The tests of the two searches: not older, and newer, than the given id.
abbrev pub not_older : Text → Text → Bool
not_older bound id = is_ge (compare_id id bound)

abbrev pub newer : Text → Text → Bool
newer bound id = is_gt (compare_id id bound)

-- The updater of `items`, for a page of ids `new ∷ rest` on an ordinary timeline.
unfoldable pub merge_page : Ids → Text → List Text → Bool → Ids
merge_page old_ids new rest is_partial =
    let new_ids : Ids = some new ∷ map some rest in
    let gap : Ids = none ∷ new_ids in
    let last_index = after (find_last_index (known_and (not_older (last_or new rest))) old_ids) in
    elim (find_last_index (known_and (newer new)) (take last_index old_ids)) [
      | none ↦ (if is_partial then gap else new_ids) ++ drop last_index old_ids
      | some first_index ↦
          take (suc first_index) old_ids
          ++ ((if is_partial && is_some (value_or none (get_elem? old_ids first_index))
                then gap
                else new_ids)
              ++ drop last_index old_ids)
    ]

unfoldable pub expand_items : Text → Ids → List Status → Bool → Ids
unfolding has_part
expand_items timeline old_ids [] is_partial = old_ids
expand_items timeline old_ids (s ∷ statuses) is_partial =
    if has_part (codes ":pinned") timeline
    then map (λ (t : Status). some t.id) (s ∷ statuses)
    else merge_page old_ids s.id (map (λ (t : Status). t.id) statuses) is_partial

unfoldable pub expand_normalized_timeline :
    Timelines → Text → List Status → Option Text → Bool → Timelines
expand_normalized_timeline state timeline statuses next is_partial =
    update timeline initial_timeline
      (λ t. record t {
        is_loading = false;
        has_more = if truthy next then t.has_more else false;
        items = expand_items timeline t.items statuses is_partial;
      })
      state

-- `ids.includes(id)`.
unfoldable pub includes : Ids → Text → Bool
includes [] id = false
includes (item ∷ items) id = option_eq item (some id) || includes items id

-- `state.getIn([timeline, field])`: a missing timeline has no `top`, which counts as false.
abbrev pub top_in : Option Timeline → Bool
top_in none = false
top_in (some t) = t.top

abbrev pub items_in : Option Timeline → Ids
items_in none = []
items_in (some t) = t.items

abbrev pub unread_in : Option Timeline → ℕ
unread_in none = 0
unread_in (some t) = t.unread

unfoldable pub update_timeline : Timelines → Text → Status → Timelines
unfolding includes
update_timeline state timeline status =
    let top : Bool = top_in (get timeline state) in
    let ids : Ids = items_in (get timeline state) in
    let unread : ℕ = unread_in (get timeline state) in
    if includes ids status.id
    then state
    else update timeline initial_timeline
        (λ t. record t {
          unread = if top then t.unread else unread + 1;
          items = some status.id ∷ (if top && ltb 40 (length ids) then take 20 ids else ids);
        })
        state

abbrev pub drop_id : Text → Timeline → Timeline
drop_id id t = record t { items = filter_not (λ item. option_eq item (some id)) t.items }

-- `deleteStatus` with no references, as it calls itself: every timeline loses the id.
unfoldable pub delete_single : Timelines → Text → Timelines
delete_single state id = map_values (drop_id id) state

delete_references : Timelines → List Reference → Timelines
delete_references state [] = state
delete_references state ((ref, account) ∷ references) =
    delete_references (delete_single state ref) references

unfoldable pub delete_status : Timelines → Text → List Reference → Timelines
unfolding delete_references delete_single
delete_status state id references = delete_references (delete_single state id) references

-- The reblogs of a status among the known statuses.
unfoldable pub references_of : Text → Map Status → List Reference
references_of id statuses =
    map (λ (s : Status). (s.id, s.account))
      (keep_if (λ (s : Status). option_eq s.reblog (some id)) (values statuses))

-- The loop of `filterTimelines` over the statuses that are left.
filter_loop : Text → Map Status → List Status → Timelines → Timelines
filter_loop owner statuses [] state = state
filter_loop owner statuses (s ∷ rest) state = filter_loop owner statuses rest (
    if text_eq s.account owner
    then delete_status state s.id (references_of s.id statuses)
    else state)

unfoldable pub filter_timelines : Timelines → Relationship → Map Status → Timelines
unfolding filter_loop
filter_timelines state relationship statuses =
    filter_loop relationship.id statuses (values statuses) state

-- `statuses.getIn([statusId, 'account']) === accountId`.
unfoldable pub written_by : Map Status → Text → Option Text → Bool
written_by statuses account none = false
written_by statuses account (some id) = elim (get id statuses) [
  | none ↦ false
  | some s ↦ text_eq s.account account
]

-- A timeline that is missing stays missing: an update that changes nothing stores nothing.
unfoldable pub filter_timeline : Text → Timelines → Relationship → Map Status → Timelines
unfolding written_by
filter_timeline timeline state relationship statuses = elim (get timeline state) [
  | none ↦ state
  | some t ↦
      set timeline (record t { items = filter_not (written_by statuses relationship.id) t.items })
        state
]

unfoldable pub update_top : Timelines → Text → Bool → Timelines
update_top state timeline top =
    update timeline initial_timeline
      (λ t. record t { unread = if top then 0 else t.unread; top = top }) state

-- A gap in front, unless the list is empty or begins with one.
unfoldable pub mark_gap : Ids → Ids
mark_gap [] = []
mark_gap (item ∷ items) = if truthy item then none ∷ item ∷ items else item ∷ items

unfoldable pub timelines : Timelines → Action → Timelines
unfolding expand_normalized_timeline update_timeline delete_status filter_timelines filter_timeline
    update_top mark_gap
timelines state (timeline_expand_request timeline) =
    update timeline initial_timeline (λ t. record t { is_loading = true }) state
timelines state (timeline_expand_fail timeline) =
    update timeline initial_timeline (λ t. record t { is_loading = false }) state
timelines state (timeline_expand_success timeline statuses next partial) =
    expand_normalized_timeline state timeline statuses next partial
timelines state (timeline_update timeline status) = update_timeline state timeline status
timelines state (timeline_delete id account_id references reblog_of) =
    delete_status state id references
timelines state (account_block_success relationship statuses) =
    filter_timelines state relationship statuses
timelines state (account_mute_success relationship statuses) =
    filter_timelines state relationship statuses
timelines state (account_unfollow_success relationship statuses) =
    filter_timeline (codes "home") state relationship statuses
timelines state (timeline_scroll_top timeline top) = update_top state timeline top
timelines state (timeline_disconnect timeline) =
    update timeline initial_timeline (λ t. record t { items = mark_gap t.items }) state
timelines state _ = state
