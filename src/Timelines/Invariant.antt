-- ===== src/Timelines/Invariant.antt =====
-- The reducer as a whole keeps every timeline in order, if the statuses arrive in order.
use mastodon.Prelude.{
  Text, codes, text_eq, ◌≡◌, refl, ap, ◌&&◌, ltb, length, value_or, truthy, AllValues-update, Bool,
  true, false, Option, none, some, List, [], ◌∷◌, map, take, All, Option-cases, inl, inr,
  Bool-cases, if◌then◌else◌, AllValues, AllValues-set, AllValues-map_values, AllValues-get_or,
  get_or, Map, get, values,
}
use mastodon.Entities.{Status, Relationship}
use mastodon.Actions.{
  Action, Reference, timeline_update, timeline_delete, timeline_expand_request,
  timeline_expand_success, timeline_expand_fail, timeline_scroll_top, timeline_disconnect,
  account_block_success, account_mute_success, account_unfollow_success,
}
use mastodon.CompareId.Order.{Newer}
use mastodon.Timelines.{
  Ids, Timeline, Timelines, initial_timeline, expand_items, has_part, timelines, mark_gap,
  delete_single, delete_references, delete_status, filter_loop, references_of, filter_timeline,
  update_timeline, includes, top_in, items_in, drop_id,
}
use mastodon.Timelines.Sorted.{known, IsSorted}
use mastodon.Timelines.Order.{merge_page-IsSorted}
use mastodon.Timelines.Pieces.{known-filter_not, IsSorted-filter_not, All-known-take, IsSorted-take}

known-mark_gap : (items : Ids) → known (mark_gap items) ≡ known items
unfolding mark_gap
known-mark_gap [] = refl
known-mark_gap (none ∷ items) = refl
known-mark_gap (some [] ∷ items) = refl
known-mark_gap (some (c ∷ id) ∷ items) = refl

-- A timeline of the state is in order.
abbrev pub InOrder : Timeline → Type 0
InOrder t = IsSorted (known t.items)

mark_gap-InOrder : (t : Timeline) → InOrder t → InOrder (record t { items = mark_gap t.items })
mark_gap-InOrder t h = rw (known-mark_gap t.items) h

drop_id-InOrder : (id : Text) (t : Timeline) → InOrder t → InOrder (drop_id id t)
drop_id-InOrder id t h = rw known-filter_not (IsSorted-filter_not _ (known t.items) h)

delete_references-InOrder :
    (state : Timelines) (references : List Reference)
    → AllValues InOrder state
    → AllValues InOrder (delete_references state references)
unfolding delete_references delete_single
delete_references-InOrder state [] h = h
delete_references-InOrder state ((ref, account) ∷ references) h =
    delete_references-InOrder (delete_single state ref) references
      (AllValues-map_values InOrder (drop_id ref) state (drop_id-InOrder ref) h)

delete_status-InOrder :
    (state : Timelines) (id : Text) (references : List Reference)
    → AllValues InOrder state
    → AllValues InOrder (delete_status state id references)
unfolding delete_status
delete_status-InOrder state id references h =
    delete_references-InOrder _ references
      (AllValues-map_values InOrder (drop_id id) state (drop_id-InOrder id) h)

filter_loop-InOrder :
    (owner : Text) (statuses : Map Status) (rest : List Status) (state : Timelines)
    → AllValues InOrder state
    → AllValues InOrder (filter_loop owner statuses rest state)
unfolding filter_loop
filter_loop-InOrder owner statuses [] state h = h
filter_loop-InOrder owner statuses (s ∷ rest) state h =
    elim (Bool-cases (text_eq s.account owner)) [
      | inl e ↦ rw e (
          filter_loop-InOrder owner statuses rest
            (delete_status state s.id (references_of s.id statuses))
            (delete_status-InOrder state s.id _ h))
      | inr e ↦ rw e (filter_loop-InOrder owner statuses rest state h)
    ]

filter_timeline-InOrder :
    (timeline : Text) (state : Timelines) (relationship : Relationship) (statuses : Map Status)
    → AllValues InOrder state
    → AllValues InOrder (filter_timeline timeline state relationship statuses)
unfolding filter_timeline
filter_timeline-InOrder timeline state relationship statuses h =
    elim (Option-cases (get timeline state)) [
      | inl e ↦ rw (e, filter_timeline) h
      | inr (t, e) ↦
          rw (e, filter_timeline)
            (AllValues-set InOrder timeline _ state
              (rw known-filter_not (
                IsSorted-filter_not _ (known t.items)
                  (rw e at (AllValues-get_or InOrder initial_timeline timeline state tt h))))
              h)
    ]

-- A new id in front, of all the items or of the first 20.
new_items-IsSorted :
    (id : Text) (found : Option Timeline)
    → All (Newer id) (known (value_or initial_timeline found).items)
    → InOrder (value_or initial_timeline found)
    → IsSorted (
        known (
          some id
          ∷ (if top_in found && ltb 40 (length (items_in found))
              then take 20 (items_in found)
              else items_in found)))
new_items-IsSorted id none new h = (tt, tt)
new_items-IsSorted id (some t) new h = elim (Bool-cases (t.top && ltb 40 (length t.items))) [
  | inl e ↦ rw e (All-known-take (Newer id) 20 t.items new, IsSorted-take 20 t.items h)
  | inr e ↦ rw e (new, h)
]

update_timeline-InOrder :
    (state : Timelines) (timeline : Text) (status : Status)
    → All (Newer status.id) (known (get_or initial_timeline timeline state).items)
    → AllValues InOrder state
    → AllValues InOrder (update_timeline state timeline status)
unfolding update_timeline
update_timeline-InOrder state timeline status new h =
    elim (Bool-cases (includes (items_in (get timeline state)) status.id)) [
      | inl e ↦ rw e h
      | inr e ↦ rw e (
          AllValues-set InOrder timeline _ state
            (new_items-IsSorted status.id (get timeline state) new
              (AllValues-get_or InOrder initial_timeline timeline state tt h))
            h)
    ]

map-some {κ} :
    {A : Type κ} (f : A → Text) (xs : List A) → known (map (λ x. some (f x)) xs) ≡ map f xs
map-some f [] = refl
map-some f (x ∷ xs) = ap (f x ∷◌) (map-some f xs)

expand_items-IsSorted :
    (timeline : Text) (old : Ids) (statuses : List Status) (is_partial : Bool)
    → IsSorted (map (λ (s : Status). s.id) statuses)
    → IsSorted (known old)
    → IsSorted (known (expand_items timeline old statuses is_partial))
unfolding expand_items
expand_items-IsSorted timeline old [] is_partial page h = h
expand_items-IsSorted timeline old (s ∷ statuses) is_partial page h =
    elim (Bool-cases (has_part (codes ":pinned") timeline)) [
      | inl e ↦ rw e (rw (map-some (λ (t : Status). t.id) statuses) page)
      | inr e ↦ rw e (merge_page-IsSorted old s.id _ is_partial h page)
    ]

-- Statuses arrive in order: a new status is newer than those of its timeline, and a page is sorted.
abbrev pub ArrivesInOrder : Timelines → Action → Type 0
ArrivesInOrder state (timeline_update timeline status) =
    All (Newer status.id) (known (get_or initial_timeline timeline state).items)
ArrivesInOrder state (timeline_expand_success timeline statuses next partial) =
    IsSorted (map (λ (s : Status). s.id) statuses)
ArrivesInOrder state _ = Unit

-- Every action keeps each timeline strictly sorted from the newest to the oldest id, where a status
-- that arrives is newer than those of its timeline and the statuses of a page are sorted.
pub timelines-InOrder :
    (state : Timelines) (action : Action)
    → ArrivesInOrder state action
    → AllValues InOrder state
    → AllValues InOrder (timelines state action)
unfolding timelines
timelines-InOrder state (timeline_expand_request timeline) a h =
    AllValues-update InOrder timeline initial_timeline (λ t. record t { is_loading = true }) state
      tt (λ t k. k) h
timelines-InOrder state (timeline_expand_fail timeline) a h =
    AllValues-update InOrder timeline initial_timeline (λ t. record t { is_loading = false }) state
      tt (λ t k. k) h
timelines-InOrder state (timeline_expand_success timeline statuses next partial) a h =
    AllValues-update InOrder timeline initial_timeline
      (λ t. record t {
        is_loading = false;
        has_more = if truthy next then t.has_more else false;
        items = expand_items timeline t.items statuses partial;
      })
      state tt (λ t k. expand_items-IsSorted timeline t.items statuses partial a k) h
timelines-InOrder state (timeline_update timeline status) a h =
    update_timeline-InOrder state timeline status a h
timelines-InOrder state (timeline_delete id account_id references reblog_of) a h =
    delete_status-InOrder state id references h
timelines-InOrder state (account_block_success relationship statuses) a h =
    filter_loop-InOrder relationship.id statuses (values statuses) state h
timelines-InOrder state (account_mute_success relationship statuses) a h =
    filter_loop-InOrder relationship.id statuses (values statuses) state h
timelines-InOrder state (account_unfollow_success relationship statuses) a h =
    filter_timeline-InOrder (codes "home") state relationship statuses h
timelines-InOrder state (timeline_scroll_top timeline top) a h =
    AllValues-update InOrder timeline initial_timeline
      (λ t. record t { unread = if top then 0 else t.unread; top = top }) state tt (λ t k. k) h
timelines-InOrder state (timeline_disconnect timeline) a h =
    AllValues-update InOrder timeline initial_timeline (λ t. record t { items = mark_gap t.items })
      state tt mark_gap-InOrder h
timelines-InOrder state _ a h = h
