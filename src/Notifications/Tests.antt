-- ===== src/Notifications/Tests.antt =====
-- notifications.js at concrete columns.
use mastodon.Prelude.{◌⊎◌, Text, codes, text_eq, ◌≡◌, refl, true, false, none, some, [], ◌∷◌}
use mastodon.Entities.{Account, Notification, Relationship}
use mastodon.Actions.{notifications_clear, Action, notifications_expand_success}
use mastodon.CompareId.{compare_id, text_gt}
use mastodon.Timelines
use mastodon.Timelines.Sorted.{IsSorted}
use mastodon.Notifications.{Item, State, initial_state, merge_page, notifications}
use mastodon.Notifications.Expand.{ids, InOrder, ids-merge_page}
use mastodon.Notifications.Laws.{notifications-InOrder, notifications-has_more}

abbrev item : Text → Item
item id = record { id = id; kind = codes "follow"; account = codes "a"; status = none }

abbrev column : State
column = record initial_state {
  items = some (item (codes "3")) ∷ none ∷ some (item (codes "1")) ∷ [];
}

abbrev sender : Account
sender = record {
  id = codes "a";
  acct = codes "alice";
  followers_count = 1;
  following_count = 2;
  statuses_count = 3;
}

abbrev follow : Text → Notification
follow id = record { id = id; kind = codes "follow"; account = sender; status = none }

ids-merge_page_example :
    ids (merge_page column.items (item (codes "3")) (item (codes "2") ∷ []))
    ≡ Timelines.merge_page (ids column.items) (codes "3") (codes "2" ∷ []) false
ids-merge_page_example = ids-merge_page column.items (item (codes "3")) (item (codes "2") ∷ [])

column-InOrder : InOrder column.items
unfolding compare_id text_gt text_eq
column-InOrder = ((refl, tt), (tt, tt))

page-IsSorted : IsSorted (codes "3" ∷ codes "2" ∷ [])
unfolding compare_id text_gt text_eq
page-IsSorted = ((refl, tt), (tt, tt))

abbrev page_action : Action
page_action = notifications_expand_success (follow (codes "3") ∷ follow (codes "2") ∷ []) none

notifications-InOrder_example : InOrder (notifications column page_action).items
notifications-InOrder_example =
    notifications-InOrder column page_action page-IsSorted column-InOrder

notifications-has_more_example :
    ((notifications column page_action).has_more ≡ true) ⊎ (page_action ≡ notifications_clear)
notifications-has_more_example = notifications-has_more column page_action refl

abbrev muted : Relationship
muted = record { id = codes "a"; muting_notifications = true; domain_blocking = false }
