-- ===== src/Selectors/Crashes.antt =====
-- When the selector of a status throws.
use mastodon.Prelude.{
  Text, ◌≡◌, refl, Bool, true, false, ◌&&◌, not, Option, none, some, List, [], ◌∷◌, get, has,
  is_empty, Option-cases, inl, inr,
}
use mastodon.Entities.{StatusEntry}
use mastodon.Reducers.Statuses.{Statuses}
use mastodon.Store.{Store}
use mastodon.Selectors.{
  Filter, Selection, crashed, get_status, reblog_of, selection, filtered_by, lookup,
  regex_from_filters,
}

abbrev pub is_crashed : Selection → Bool
is_crashed crashed = true
is_crashed _ = false

abbrev pub is_missing : Option Text → Statuses → Bool
is_missing none state = false
is_missing (some id) state = not (has id state)

selection-crashed :
    (test : Text → Text → Bool) (index : StatusEntry → Text) (store : Store) (base : StatusEntry)
    (regex : Text)
    → is_crashed (
        selection store base (lookup store.statuses_state (reblog_of base)) (
          filtered_by test index
            (some regex)
            base
            (reblog_of base)
            (lookup store.statuses_state (reblog_of base))))
      ≡ is_missing (reblog_of base) store.statuses_state
selection-crashed test index store base regex = elim (Option-cases (reblog_of base)) [
  | inl e ↦ rw e refl
  | inr (id, e) ↦ rw e (elim (Option-cases (get id store.statuses_state)) [
    | inl f ↦ rw f refl
    | inr (entry, f) ↦ rw f refl
  ])
]

-- Of a status in the store the selector throws exactly if there are filters and it reblogs a status
-- that the store does not have.
pub get_status-crashed :
    (test : Text → Text → Bool) (index : StatusEntry → Text) (store : Store) (filters : List Filter)
    (id : Text) (base : StatusEntry)
    → get id store.statuses_state ≡ some base
    → is_crashed (get_status test index store filters id)
      ≡ (not (is_empty filters) && is_missing (reblog_of base) store.statuses_state)
unfolding get_status regex_from_filters
get_status-crashed test index store [] id base e = rw (e, get_status) refl
get_status-crashed test index store (f ∷ filters) id base e =
    rw (e, get_status) (selection-crashed test index store base _)
