-- ===== src/Notifications/Laws.antt =====
-- What the actions do to the notifications column.
use mastodon.Prelude.{
  ℕ, ◌+◌, ◌≤◌, Text, codes, text_eq, option_eq, ◌≡◌, refl, ap, Bool, true, false, ◌&&◌, ltb, Option,
  none, some, List, [], ◌∷◌, map, map-take, Map, length, length-take-le, take, filter_not,
  if◌then◌else◌, Bool-cases, inl, inr, ◌⊎◌, All, arith,
}
use mastodon.Entities.{Notification, Relationship, Status}
use mastodon.Actions.{
  Action, timeline_delete, timeline_disconnect, account_block_success, account_mute_success,
  notifications_update, notifications_expand_request, notifications_expand_fail,
  notifications_clear, notifications_expand_success, notifications_scroll_top,
}
use mastodon.CompareId.Order.{Newer}
use mastodon.Timelines.Sorted.{known, IsSorted}
use mastodon.Timelines.Pieces.{IsSorted-take, All-known-take}
use mastodon.Notifications.{
  Item, Items, State, notifications, notification_to_map, normalize_notification, expand_items,
  expand_normalized_notifications, filter_notifications, mark_gap, item_and,
}
use mastodon.Notifications.Expand.{ids, InOrder, merge_page-InOrder}

-- Notifications arrive in order: a new one is newer than all in the column, and a page is sorted.
abbrev pub ArrivesInOrder : State → Action → Type 0
ArrivesInOrder state (notifications_update n) = All (Newer n.id) (known (ids state.items))
ArrivesInOrder state (notifications_expand_success page next) =
    IsSorted (map (λ (n : Notification). n.id) page)
ArrivesInOrder state _ = Unit

All-known-filter_not {κ} :
    (P : Text → Type κ) (p : Item → Bool) (items : Items)
    → All P (known (ids items))
    → All P (known (ids (filter_not (item_and p) items)))
All-known-filter_not P p [] h = tt
All-known-filter_not P p (none ∷ items) h = All-known-filter_not P p items h
All-known-filter_not P p (some item ∷ items) h = elim (Bool-cases (p item)) [
  | inl e ↦ rw e (All-known-filter_not P p items h.1)
  | inr e ↦ rw e (h.0, All-known-filter_not P p items h.1)
]

filter_not-InOrder :
    (p : Item → Bool) (items : Items) → InOrder items → InOrder (filter_not (item_and p) items)
filter_not-InOrder p [] h = tt
filter_not-InOrder p (none ∷ items) h = filter_not-InOrder p items h
filter_not-InOrder p (some item ∷ items) h = elim (Bool-cases (p item)) [
  | inl e ↦ rw e (filter_not-InOrder p items h.1)
  | inr e ↦ rw e (All-known-filter_not (Newer item.id) p items h.0, filter_not-InOrder p items h.1)
]

ids-take : (n : ℕ) (items : Items) → ids (take n items) ≡ take n (ids items)
ids-take n items = map-take _ n items

mark_gap-InOrder : (items : Items) → InOrder items → InOrder (mark_gap items)
unfolding mark_gap
mark_gap-InOrder [] h = h
mark_gap-InOrder (none ∷ items) h = h
mark_gap-InOrder (some item ∷ items) h = h

page_ids :
    (page : List Notification)
    → map (λ (i : Item). i.id) (map notification_to_map page)
      ≡ map (λ (n : Notification). n.id) page
unfolding notification_to_map
page_ids [] = refl
page_ids (n ∷ page) = ap (n.id ∷◌) (page_ids page)

expand_items-InOrder :
    (list : Items) (page : List Item)
    → InOrder list
    → IsSorted (map (λ (i : Item). i.id) page)
    → InOrder (expand_items list page)
unfolding expand_items
expand_items-InOrder list [] h page = h
expand_items-InOrder list (first ∷ rest) h page = merge_page-InOrder list first rest h page

update_items-InOrder :
    (state : State) (n : Notification)
    → All (Newer n.id) (known (ids state.items))
    → InOrder state.items
    → InOrder (normalize_notification state n).items
unfolding normalize_notification notification_to_map
update_items-InOrder state n new h = elim (Bool-cases (state.top && ltb 40 (length state.items))) [
  | inl e ↦
      rw (e, ids-take 20 state.items)
        (All-known-take (Newer n.id) 20 (ids state.items) new, IsSorted-take 20 (ids state.items) h)
  | inr e ↦ rw e (new, h)
]

if-InOrder :
    (b : Bool) (state other : State)
    → InOrder state.items
    → InOrder other.items
    → InOrder (if b then state else other).items
if-InOrder true state other h k = h
if-InOrder false state other h k = k

-- Every action keeps the column in order, if notifications arrive in order.
pub notifications-InOrder :
    (state : State) (action : Action)
    → ArrivesInOrder state action
    → InOrder state.items
    → InOrder (notifications state action).items
unfolding notifications
notifications-InOrder state (notifications_update n) a h = update_items-InOrder state n a h
notifications-InOrder state (notifications_expand_success page next) a h =
    expand_items-InOrder state.items (map notification_to_map page) h (rw page_ids a)
notifications-InOrder state (account_block_success relationship statuses) a h =
    if-InOrder relationship.muting_notifications (filter_notifications state relationship) state
      (filter_not-InOrder _ state.items h) h
notifications-InOrder state (account_mute_success relationship statuses) a h =
    if-InOrder relationship.muting_notifications (filter_notifications state relationship) state
      (filter_not-InOrder _ state.items h) h
notifications-InOrder state notifications_clear a h = tt
notifications-InOrder state (timeline_delete id account_id references reblog_of) a h =
    filter_not-InOrder _ state.items h
notifications-InOrder state (timeline_disconnect timeline) a h =
    if-InOrder (text_eq timeline (codes "home")) (record state { items = mark_gap state.items })
      state (mark_gap-InOrder state.items h) h
notifications-InOrder state notifications_expand_request a h = h
notifications-InOrder state notifications_expand_fail a h = h
notifications-InOrder state (notifications_scroll_top top) a h = h
notifications-InOrder state _ a h = h

-- While more notifications are expected, no action but clearing the column ends that, the last page
-- included.
pub notifications-has_more :
    (state : State) (action : Action)
    → state.has_more ≡ true
    → ((notifications state action).has_more ≡ true) ⊎ (action ≡ notifications_clear)
unfolding notifications expand_normalized_notifications filter_notifications
notifications-has_more state (notifications_expand_success page next) h = inl (ground arith)
notifications-has_more state (account_block_success relationship statuses) h = inl (ground arith)
notifications-has_more state (account_mute_success relationship statuses) h = inl (ground arith)
notifications-has_more state notifications_clear h = inr refl
notifications-has_more state (timeline_disconnect timeline) h = inl (ground arith)
notifications-has_more state _ h = inl h

-- Out of sight every notification is counted, and all items stay; at the top none is counted, and
-- the column has at most 41 items.
update_counts :
    (state : State) (n : Notification)
    → let after_it = notifications state (notifications_update n) in
      (state.top ≡ false
        → (after_it.unread ≡ state.unread + 1) × (length after_it.items ≡ length state.items + 1))
      × (state.top ≡ true → (after_it.unread ≡ state.unread) × (length after_it.items ≤ 41))
unfolding notifications
update_counts state n = ground (arith, length-take-le 20 state.items)

-- An item of the column is about the status, or from the account.
abbrev pub IsAbout : (Item → Bool) → Option Item → Type 0
IsAbout p item = item_and p item ≡ true

filter_not-fails {ℓ} :
    {A : Type ℓ} (p : A → Bool) (xs : List A) → All (λ x. p x ≡ false) (filter_not p xs)
filter_not-fails p [] = tt
filter_not-fails p (x ∷ xs) = elim (Bool-cases (p x)) [
  | inl e ↦ rw e (filter_not-fails p xs)
  | inr e ↦ rw e (e, filter_not-fails p xs)
]

-- Deleting a status leaves no notification about it; muting an account together with its
-- notifications leaves none from it, and without them changes nothing.
pub notifications-removed :
    (state : State) (id : Text) (relationship : Relationship) (statuses : Map Status)
    → All
        (λ item. item_and (λ (i : Item). option_eq i.status (some id)) item ≡ false)
        (notifications state (timeline_delete id none [] none)).items
      × (relationship.muting_notifications ≡ true
          → All
              (λ item. item_and (λ (i : Item). text_eq i.account relationship.id) item ≡ false)
              (notifications state (account_mute_success relationship statuses)).items)
      × (relationship.muting_notifications ≡ false
          → notifications state (account_mute_success relationship statuses) ≡ state)
unfolding notifications
notifications-removed state id relationship statuses =
    (filter_not-fails _ state.items, (λ e. rw e (filter_not-fails _ state.items)), λ e. rw e refl)
