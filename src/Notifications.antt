-- ===== src/Notifications.antt =====
-- app/javascript/mastodon/reducers/notifications.js: the notifications column. An entry of `items`
-- is a notification, newest first, or `none` (null) for a gap.
pub mod Expand
pub mod Laws
mod Tests
use mathlib.Core.Option
use mastodon.Prelude.{
  ℕ, zero, suc, ◌+◌, Text, codes, text_eq, option_eq, truthy, Bool, true, false, ◌&&◌, ◌||◌, Option,
  none, some, List, [], ◌∷◌, ◌++◌, map, length, ltb, if◌then◌else◌, take, drop, last_or, filter_not,
  find_last_index, after, is_empty,
}
use mastodon.Entities.{Notification, Relationship, Account, Status}
use mastodon.Actions.{
  Action, timeline_delete, timeline_disconnect, account_block_success, account_mute_success,
  notifications_update, notifications_expand_request, notifications_expand_fail,
  notifications_clear, notifications_expand_success, notifications_scroll_top,
}
use mastodon.CompareId.{compare_id, is_gt}

pub record Item : Type 0 where
  pub id : Text
  pub kind : Text
  pub account : Text
  pub status : Option Text

abbrev pub Items : Type 0
Items = List (Option Item)

pub record State : Type 0 where
  pub items : Items
  pub has_more : Bool
  pub top : Bool
  pub unread : ℕ
  pub is_loading : Bool

abbrev pub initial_state : State
initial_state = record { items = []; has_more = true; top = true; unread = 0; is_loading = false }

unfoldable pub notification_to_map : Notification → Item
notification_to_map n = record {
  id = n.id;
  kind = n.kind;
  account = n.account.id;
  status = Option.map (λ (s : Status). s.id) n.status;
}

unfoldable pub normalize_notification : State → Notification → State
normalize_notification state n = record state {
  unread = if state.top then state.unread else state.unread + 1;
  items =
      some (notification_to_map n)
      ∷ (if state.top && ltb 40 (length state.items) then take 20 state.items else state.items);
}

-- `item !== null && test(item)`.
abbrev pub item_and : (Item → Bool) → Option Item → Bool
item_and test none = false
item_and test (some item) = test item

-- The tests of the two searches.
abbrev pub newer_or_same : Text → Item → Bool
newer_or_same bound item = is_gt (compare_id item.id bound) || text_eq item.id bound

abbrev pub newer : Text → Item → Bool
newer bound item = is_gt (compare_id item.id bound)

-- The updater of `items`, for a page that is not empty.
unfoldable pub merge_page : Items → Item → List Item → Items
merge_page list first rest =
    let last_index =
      after (find_last_index (item_and (newer_or_same (last_or first rest).id)) list) in
    let first_index = after (find_last_index (item_and (newer first.id)) (take last_index list)) in
    take first_index list ++ (map some (first ∷ rest) ++ drop last_index list)

unfoldable pub expand_items : Items → List Item → Items
expand_items list [] = list
expand_items list (first ∷ rest) = merge_page list first rest

unfoldable pub expand_normalized_notifications : State → List Notification → Option Text → State
expand_normalized_notifications state notifications next = record state {
  items = expand_items state.items (map notification_to_map notifications);
  has_more = if truthy next then state.has_more else true;
  is_loading = false;
}

unfoldable pub filter_notifications : State → Relationship → State
filter_notifications state relationship = record state {
  items = filter_not (item_and (λ (item : Item). text_eq item.account relationship.id)) state.items;
}

unfoldable pub update_top : State → Bool → State
update_top state top = record state { unread = if top then 0 else state.unread; top = top }

unfoldable pub delete_by_status : State → Text → State
delete_by_status state status_id = record state {
  items =
      filter_not (item_and (λ (item : Item). option_eq item.status (some status_id))) state.items;
}

-- A gap in front, unless the list is empty or begins with one.
unfoldable pub mark_gap : Items → Items
mark_gap [] = []
mark_gap (none ∷ items) = none ∷ items
mark_gap (some item ∷ items) = none ∷ some item ∷ items

unfoldable pub notifications : State → Action → State
unfolding normalize_notification expand_normalized_notifications filter_notifications update_top
    delete_by_status mark_gap notification_to_map
notifications state notifications_expand_request = record state { is_loading = true }
notifications state notifications_expand_fail = record state { is_loading = false }
notifications state (notifications_scroll_top top) = update_top state top
notifications state (notifications_update notification) = normalize_notification state notification
notifications state (notifications_expand_success page next) =
    expand_normalized_notifications state page next
notifications state (account_block_success relationship statuses) =
    if relationship.muting_notifications then filter_notifications state relationship else state
notifications state (account_mute_success relationship statuses) =
    if relationship.muting_notifications then filter_notifications state relationship else state
notifications state notifications_clear = record state { items = []; has_more = false }
notifications state (timeline_delete id account_id references reblog_of) = delete_by_status state id
notifications state (timeline_disconnect timeline) =
    if text_eq timeline (codes "home") then record state { items = mark_gap state.items } else state
notifications state _ = state
