-- ===== src/Timelines/Update.antt =====
-- Streaming updates, disconnects, and which timelines an action leaves alone.
use mastodon.Prelude.{
  ℕ, zero, suc, ◌≤◌, ◌<◌, ◌++◌, ap, drop, take-append-drop, append-nil, Text, codes, text_eq,
  text_eq_refl, ◌≡◌, refl, true, false, ltb, Option, none, some, [], ◌∷◌, length, length-take-le,
  take, head?, Bool-cases, Option-cases, inl, inr, if◌then◌else◌, Map, get, set, get-set,
  get-set_self, set-set, arith,
}
use mastodon.Entities.{Status, Relationship}
use mastodon.Actions.{
  Action, timeline_update, timeline_expand_request, timeline_expand_success, timeline_expand_fail,
  timeline_scroll_top, timeline_disconnect, account_unfollow_success,
}
use mastodon.Timelines.{
  Ids, Timeline, Timelines, initial_timeline, includes, items_in, update_timeline, filter_timeline,
  mark_gap, timelines,
}

length-take : (n : ℕ) (ids : Ids) → n ≤ length ids → length (take n ids) ≡ n
length-take zero ids h = refl
length-take (suc n) [] h = omega (arith, h)
length-take (suc n) (x ∷ ids) h = ground (arith, length-take n ids, h)

-- At the top of a timeline that lacks the status: it comes first, and the items follow it in their
-- order, all of them where there were at most 40, and only the first 20 where there were more, so
-- that the timeline has 21 items then. Nothing is counted as unread.
pub update_timeline_top :
    (state : Timelines) (timeline : Text) (status : Status) (t : Timeline)
    → get timeline state ≡ some t
    → t.top ≡ true
    → includes t.items status.id ≡ false
    → (t' : Timeline) × (get timeline (update_timeline state timeline status) ≡ some t')
      × ((dropped : Ids) × (t'.items ++ dropped ≡ some status.id ∷ t.items)
          × (length t.items ≤ 40 → dropped ≡ [])
          × (40 < length t.items → length t'.items ≡ 21))
      × (head? t'.items ≡ some (some status.id))
      × (length t'.items ≤ 41)
      × (t'.unread ≡ t.unread)
unfolding update_timeline
update_timeline_top state timeline status t e top new = (
  record t {
    items = some status.id ∷ (if ltb 40 (length t.items) then take 20 t.items else t.items);
  },
  rw (e, update_timeline) (rw (new, top) (get-set_self timeline _ state)),
  elim (Bool-cases (ltb 40 (length t.items))) [
    | inl long ↦ rw long (
      drop 20 t.items,
      ap (some status.id ∷◌) (take-append-drop 20 t.items),
      λ short. ground (arith, long, short),
      λ _. ap suc (length-take 20 t.items (ground (arith, long))),
    )
    | inr short ↦ rw short (
      [],
      ap (some status.id ∷◌) (append-nil t.items),
      λ _. refl,
      λ long. ground (arith, long, short),
    )
  ],
  refl,
  ground (arith, length-take-le 20 t.items),
  refl,
)

includes_self : (id : Text) (items : Ids) → includes (some id ∷ items) id ≡ true
unfolding includes
includes_self id items = ground (arith, text_eq_refl id)

-- A status that is delivered twice is taken once.
update_timeline_twice :
    (state : Timelines) (timeline : Text) (status : Status)
    → update_timeline (update_timeline state timeline status) timeline status
      ≡ update_timeline state timeline status
unfolding update_timeline
update_timeline_twice state timeline status =
    elim (Bool-cases (includes (items_in (get timeline state)) status.id)) [
      | inl e ↦ rw e (rw e refl)
      | inr e ↦ rw e (rw (get-set_self timeline _ state) (rw (includes_self status.id _) refl))
    ]

-- On a timeline that is not there yet the first status is counted as unread, although the new
-- timeline is at its top.
update_timeline_missing :
    (state : Timelines) (timeline : Text) (status : Status)
    → get timeline state ≡ none
    → (t : Timeline) × (get timeline (update_timeline state timeline status) ≡ some t)
      × (t.top ≡ true)
      × (t.unread ≡ 1)
unfolding update_timeline includes
update_timeline_missing state timeline status e = (
  record initial_timeline { unread = 1; items = some status.id ∷ [] },
  rw (e, update_timeline) (get-set_self timeline _ state),
  refl,
  refl,
)

mark_gap_twice : (items : Ids) → mark_gap (mark_gap items) ≡ mark_gap items
unfolding mark_gap
mark_gap_twice [] = refl
mark_gap_twice (none ∷ items) = refl
mark_gap_twice (some [] ∷ items) = refl
mark_gap_twice (some (c ∷ id) ∷ items) = refl

-- However often the stream breaks before anything arrives, it leaves one gap.
disconnect_twice :
    (state : Timelines) (timeline : Text)
    → timelines (timelines state (timeline_disconnect timeline)) (timeline_disconnect timeline)
      ≡ timelines state (timeline_disconnect timeline)
unfolding timelines
disconnect_twice state timeline =
    rw (get-set_self timeline _ state) (rw set-set (rw mark_gap_twice refl))

-- The timeline that an action is about, if it is about one.
abbrev pub target : Action → Option Text
target (timeline_expand_request timeline) = some timeline
target (timeline_expand_fail timeline) = some timeline
target (timeline_expand_success timeline statuses next partial) = some timeline
target (timeline_update timeline status) = some timeline
target (timeline_scroll_top timeline top) = some timeline
target (timeline_disconnect timeline) = some timeline
target (account_unfollow_success relationship statuses) = some (codes "home")
target _ = none

get-set_other :
    (k target j : Text) (t : Timeline) (state : Timelines)
    → some k ≡ some target
    → text_eq target j ≡ false
    → get j (set k t state) ≡ get j state
get-set_other k target j t state e ne = ground (arith, get-set k j t state)

update_timeline_other :
    (k timeline j : Text) (status : Status) (state : Timelines)
    → some k ≡ some timeline
    → text_eq timeline j ≡ false
    → get j (update_timeline state k status) ≡ get j state
unfolding update_timeline
update_timeline_other k timeline j status state e ne =
    elim (Bool-cases (includes (items_in (get k state)) status.id)) [
      | inl old ↦ rw old refl
      | inr new ↦ rw new (get-set_other k timeline j _ state e ne)
    ]

filter_timeline_other :
    (k timeline j : Text) (relationship : Relationship) (statuses : Map Status) (state : Timelines)
    → some k ≡ some timeline
    → text_eq timeline j ≡ false
    → get j (filter_timeline k state relationship statuses) ≡ get j state
unfolding filter_timeline
filter_timeline_other k timeline j relationship statuses state e ne =
    elim (Option-cases (get k state)) [
      | inl missing ↦ rw (missing, filter_timeline) refl
      | inr (t, found) ↦ rw (found, filter_timeline) (get-set_other k timeline j _ state e ne)
    ]

-- An action that is about one timeline leaves every other one as it was.
pub get-timelines_other :
    (state : Timelines) (action : Action) (timeline other : Text)
    → target action ≡ some timeline
    → text_eq timeline other ≡ false
    → get other (timelines state action) ≡ get other state
unfolding timelines
get-timelines_other state (timeline_expand_request k) timeline other e ne =
    get-set_other k timeline other _ state e ne
get-timelines_other state (timeline_expand_fail k) timeline other e ne =
    get-set_other k timeline other _ state e ne
get-timelines_other state (timeline_expand_success k statuses next partial) timeline other e ne =
    get-set_other k timeline other _ state e ne
get-timelines_other state (timeline_update k status) timeline other e ne =
    update_timeline_other k timeline other status state e ne
get-timelines_other state (timeline_scroll_top k top) timeline other e ne =
    get-set_other k timeline other _ state e ne
get-timelines_other state (timeline_disconnect k) timeline other e ne =
    get-set_other k timeline other _ state e ne
get-timelines_other state (account_unfollow_success relationship statuses) timeline other e ne =
    filter_timeline_other (codes "home") timeline other relationship statuses state e ne
get-timelines_other state _ timeline other e ne = cc
