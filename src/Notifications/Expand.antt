-- ===== src/Notifications/Expand.antt =====
-- A page of notifications is merged as a page of statuses is.
use mathlib.Core.Option
use mastodon.Prelude.{
  Text, text_eq_iff, ◌≡◌, refl, ap, false, Option, none, some, List, [], ◌∷◌, map, map-append,
  map-take, map-drop, last_or, last_or-map, find_last_index, find_last_index-map, after, arith,
}
use mastodon.CompareId.Order.{compare_id-eq_iff}
use mastodon.Timelines
use mastodon.Timelines.{Ids, known_and}
use mastodon.Timelines.Sorted.{known, IsSorted}
use mastodon.Timelines.Expand.{merge_page-false}
use mastodon.Timelines.Order.{merge_page-IsSorted}
use mastodon.Notifications.{Item, Items, merge_page, item_and, newer, newer_or_same}

abbrev item_id : Option Item → Option Text
item_id item = Option.map (λ (i : Item). i.id) item

-- The ids of the items, with the gaps.
abbrev pub ids : Items → Ids
ids = map item_id

newer_or_same-not_older :
    (bound : Text) (item : Option Item)
    → known_and (Timelines.not_older bound) (Option.map (λ (i : Item). i.id) item)
      ≡ item_and (newer_or_same bound) item
newer_or_same-not_older bound none = refl
newer_or_same-not_older bound (some item) =
    ground (arith, text_eq_iff item.id bound, compare_id-eq_iff item.id bound)

newer-newer :
    (bound : Text) (item : Option Item)
    → known_and (Timelines.newer bound) (Option.map (λ (i : Item). i.id) item)
      ≡ item_and (newer bound) item
newer-newer bound none = refl
newer-newer bound (some item) = refl

ids-map-some :
    (items : List Item) → ids (map some items) ≡ map some (map (λ (i : Item). i.id) items)
ids-map-some [] = refl
ids-map-some (item ∷ items) = ap (some item.id ∷◌) (ids-map-some items)

-- The ids of a page of notifications are merged with those of the column the way a timeline merges a
-- page that is complete, gaps included.
pub ids-merge_page :
    (list : Items) (first : Item) (rest : List Item)
    → ids (merge_page list first rest)
      ≡ Timelines.merge_page (ids list) first.id (map (λ (i : Item). i.id) rest) false
unfolding merge_page
ids-merge_page list first rest =
    rw
      (
        merge_page-false (ids list) first.id (map (λ (i : Item). i.id) rest),
        last_or-map (λ (i : Item). i.id) first rest,
      )
      (rw
        (
          find_last_index-map item_id (known_and (Timelines.not_older (last_or first rest).id))
              (item_and (newer_or_same (last_or first rest).id)) list
              (newer_or_same-not_older (last_or first rest).id),
          ← map-take item_id
              (after (find_last_index (item_and (newer_or_same (last_or first rest).id)) list))
              list,
          find_last_index-map item_id (known_and (Timelines.newer first.id))
              (item_and (newer first.id)) _ (newer-newer first.id),
        )
        (simp (map-append, map-take, map-drop, ids-map-some)))

-- The column is in order: the ids of its notifications fall.
abbrev pub InOrder : Items → Type 0
InOrder items = IsSorted (known (ids items))

-- A page that is sorted keeps the column in order.
pub merge_page-InOrder :
    (list : Items) (first : Item) (rest : List Item)
    → InOrder list
    → IsSorted (map (λ (i : Item). i.id) (first ∷ rest))
    → InOrder (merge_page list first rest)
merge_page-InOrder list first rest h page =
    rw (ids-merge_page list first rest)
      (merge_page-IsSorted (ids list) first.id (map (λ (i : Item). i.id) rest) false h page)
