-- ===== src/Reducers/AlertKeys.antt =====
-- The keys of the alerts on the screen.
use mastodon.Prelude.{
  All-filter_not, ◌+◌, ◌<◌, inl, inr, Bool, List, [], ◌∷◌, ◌++◌, last_or, filter_not, All,
  Bool-cases, arith, All-append,
}
use mastodon.Actions.{Action, alert_show, alert_dismiss, alert_clear}
use mastodon.Reducers.Alerts.{Shown, next_key, alerts}

-- Each alert has a smaller key than those after it.
abbrev pub IsAscending : List Shown → Type 0
IsAscending [] = Unit
IsAscending (x ∷ xs) = All (λ (y : Shown). x.key < y.key) xs × IsAscending xs

filter_not-IsAscending :
    (p : Shown → Bool) (xs : List Shown) → IsAscending xs → IsAscending (filter_not p xs)
filter_not-IsAscending p [] h = tt
filter_not-IsAscending p (x ∷ xs) h = elim (Bool-cases (p x)) [
  | inl e ↦ rw e (filter_not-IsAscending p xs h.1)
  | inr e ↦ rw e (All-filter_not _ p xs h.0, filter_not-IsAscending p xs h.1)
]

append-IsAscending :
    (xs : List Shown) (x : Shown)
    → IsAscending xs
    → All (λ (y : Shown). y.key < x.key) xs
    → IsAscending (xs ++ (x ∷ []))
append-IsAscending [] x h k = (tt, tt)
append-IsAscending (y ∷ xs) x h k =
    (All-append _ xs (x ∷ []) h.0 (k.0, tt), append-IsAscending xs x h.1 k.1)

last-greatest :
    (x : Shown) (xs : List Shown)
    → IsAscending (x ∷ xs)
    → All (λ (y : Shown). y.key < (last_or x xs).key + 1) (x ∷ xs)
last-greatest x [] h = (omega arith, tt)
last-greatest x (y ∷ xs) h =
    let rest = last-greatest y xs h.1 in (omega (arith, h.0.0, rest.0), rest)

next_key-greatest : (xs : List Shown) → IsAscending xs → All (λ (y : Shown). y.key < next_key xs) xs
unfolding next_key
next_key-greatest [] h = tt
next_key-greatest (x ∷ xs) h = last-greatest x xs h

-- Every action keeps the keys strictly ascending, so that no two alerts share a key, whatever was
-- dismissed in between.
pub alerts-IsAscending :
    (state : List Shown) (action : Action) → IsAscending state → IsAscending (alerts state action)
unfolding alerts
alerts-IsAscending state (alert_show alert) h =
    append-IsAscending state _ h (next_key-greatest state h)
alerts-IsAscending state (alert_dismiss key) h = filter_not-IsAscending _ state h
alerts-IsAscending state alert_clear h = tt
alerts-IsAscending state _ h = h
