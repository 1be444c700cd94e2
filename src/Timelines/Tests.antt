-- ===== src/Timelines/Tests.antt =====
-- timelines.js at concrete timelines.
use mathlib.Core.Option
use mastodon.Prelude.{
  ◌≤◌, ◌<◌, Text, codes, text_eq, ◌≡◌, refl, true, false, Option, none, some, [], ◌∷◌, ◌++◌, length,
  keep_if, head?, Map, get, values, AllValues,
}
use mastodon.Entities.{Status, Relationship}
use mastodon.Actions.{Action, timeline_expand_success}
use mastodon.CompareId.{compare_id, text_gt}
use mastodon.Timelines.{
  Ids, Timeline, Timelines, initial_timeline, newer, merge_page, includes, update_timeline,
  filter_timelines, timelines,
}
use mastodon.Timelines.Sorted.{known, IsSorted}
use mastodon.Timelines.Expand.{older, merge_page-known}
use mastodon.Timelines.Order.{merge_page-IsSorted}
use mastodon.Timelines.Invariant.{InOrder, timelines-InOrder}
use mastodon.Timelines.Delete.{without, hidden_by, get-filter_timelines}
use mastodon.Timelines.Update.{update_timeline_top}

abbrev status : Text → Text → Option Text → Status
status id account reblog = record {
  id = id;
  account = account;
  reblog = reblog;
  in_reply_to_id = none;
}

abbrev one : Status
one = status (codes "1") (codes "a") none

abbrev boost : Status
boost = status (codes "2") (codes "b") (some (codes "1"))

abbrev three : Status
three = status (codes "3") (codes "b") none

abbrev statuses : Map Status
statuses = (codes "1", one) ∷ (codes "2", boost) ∷ (codes "3", three) ∷ []

-- Items 3, a gap, 2 and 1.
abbrev old_items : Ids
old_items = some (codes "3") ∷ none ∷ some (codes "2") ∷ some (codes "1") ∷ []

abbrev home : Timeline
home = record initial_timeline { items = old_items }

abbrev state : Timelines
state = (codes "home", home) ∷ []

-- A partial page in front of what is known keeps a gap behind the newer items.
page_with_gap :
    merge_page old_items (codes "2") (codes "1" ∷ []) true
    ≡ some (codes "3") ∷ none ∷ some (codes "2") ∷ some (codes "1") ∷ []
unfolding merge_page compare_id text_gt text_eq
page_with_gap = refl

old-IsSorted : IsSorted (known old_items)
unfolding compare_id text_gt text_eq
old-IsSorted = ((refl, (refl, tt)), ((refl, tt), (tt, tt)))

page-IsSorted : IsSorted (codes "3" ∷ codes "2" ∷ [])
unfolding compare_id text_gt text_eq
page-IsSorted = ((refl, tt), (tt, tt))

merge_page-known_example :
    known (merge_page old_items (codes "3") (codes "2" ∷ []) false)
    ≡ keep_if (newer (codes "3")) (known old_items)
      ++ ((codes "3" ∷ codes "2" ∷ []) ++ keep_if (older (codes "2")) (known old_items))
merge_page-known_example =
    merge_page-known old_items (codes "3") (codes "2" ∷ []) old-IsSorted page-IsSorted false

merge_page-IsSorted_example :
    IsSorted (known (merge_page old_items (codes "3") (codes "2" ∷ []) true))
merge_page-IsSorted_example =
    merge_page-IsSorted old_items (codes "3") (codes "2" ∷ []) true old-IsSorted page-IsSorted

abbrev page_action : Action
page_action = timeline_expand_success (codes "home") (three ∷ boost ∷ []) none false

timelines-InOrder_example : AllValues InOrder (timelines state page_action)
timelines-InOrder_example = timelines-InOrder state page_action page-IsSorted (old-IsSorted, tt)

abbrev blocked : Relationship
blocked = record { id = codes "a"; muting_notifications = false; domain_blocking = false }

get-filter_timelines_example :
    get (codes "home") (filter_timelines state blocked statuses)
    ≡ Option.map
        (without (hidden_by (codes "a") statuses (values statuses)))
        (get (codes "home") state)
get-filter_timelines_example = get-filter_timelines state (codes "home") blocked statuses

abbrev four : Status
four = status (codes "4") (codes "a") none

home-found : get (codes "home") state ≡ some home
unfolding get text_eq
home-found = refl

four-new : includes old_items (codes "4") ≡ false
unfolding includes text_eq
four-new = refl

update_timeline_top_example :
    (t' : Timeline) × (get (codes "home") (update_timeline state (codes "home") four) ≡ some t')
    × ((dropped : Ids) × (t'.items ++ dropped ≡ some (codes "4") ∷ old_items)
        × (length old_items ≤ 40 → dropped ≡ [])
        × (40 < length old_items → length t'.items ≡ 21))
    × (head? t'.items ≡ some (some (codes "4")))
    × (length t'.items ≤ 41)
    × (t'.unread ≡ 0)
update_timeline_top_example =
    update_timeline_top state (codes "home") four home home-found refl four-new

public-missing : get (codes "public") state ≡ none
unfolding get text_eq
public-missing = refl
