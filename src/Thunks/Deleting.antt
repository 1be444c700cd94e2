-- ===== src/Thunks/Deleting.antt =====
-- Deleting a status from the client, deleteFromTimelines of
-- app/javascript/mastodon/actions/timelines.js, down to the store.
use mastodon.Prelude.{
  Text, text_eq, option_eq, ◌≡◌, Bool, false, Option, none, some, List, any, get, IfSome,
}
use mastodon.Entities.{Status, StatusEntry}
use mastodon.Reducers.Statuses.{Statuses}

-- Every status that is stored is kept under its own id.
abbrev pub IsKeyed : Statuses → Type 0
IsKeyed state =
    (k : Text)
    → IfSome (λ (e : StatusEntry). IfSome (λ (s : Status). s.id ≡ k) e.body) (get k state)

abbrev reblogs : Text → Option Status → Bool
reblogs id none = false
reblogs id (some s) = option_eq s.reblog (some id)

-- No status that is stored reblogs the given one.
abbrev pub IsUnreblogged : Text → Statuses → Type 0
IsUnreblogged id state =
    (k : Text) → IfSome (λ (e : StatusEntry). reblogs id e.body ≡ false) (get k state)

abbrev is_in : Text → List (Text × Text) → Bool
is_in k references = any (λ (r : Text × Text). text_eq r.0 k) references
