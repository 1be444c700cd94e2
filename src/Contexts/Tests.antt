-- ===== src/Contexts/Tests.antt =====
-- contexts.js at concrete threads.
use mastodon.Prelude.{Text, codes, text_eq, ◌≡◌, refl, none, some, [], ◌∷◌, get, set}
use mastodon.Entities.{Status}
use mastodon.Actions.{Action, context_fetch_success}
use mastodon.CompareId.{compare_id, text_gt}
use mastodon.Contexts.{initial_state, includes, contexts}
use mastodon.Contexts.Linked.{IsLinked, contexts-IsLinked}

abbrev reply : Text → Text → Status
reply id parent = record {
  id = id;
  account = codes "a";
  reblog = none;
  in_reply_to_id = some parent;
}

-- The thread 1, 2 and 3 of a status 2, each in reply to the one before.
abbrev thread : Action
thread =
    context_fetch_success (codes "2")
      (record { id = codes "1"; account = codes "a"; reblog = none; in_reply_to_id = none } ∷ [])
      (reply (codes "3") (codes "2") ∷ [])

thread_links : contexts initial_state thread ≡ record {
  in_reply_tos = (codes "2", codes "1") ∷ (codes "3", codes "2") ∷ [];
  replies = (codes "1", codes "2" ∷ []) ∷ (codes "2", codes "3" ∷ []) ∷ [];
}
unfolding contexts get set text_eq compare_id text_gt
thread_links = refl

initial-IsLinked : IsLinked initial_state
unfolding get includes
initial-IsLinked = record { listed = λ c p e. cc; linked = λ c p e. cc }

contexts-IsLinked_example : IsLinked (contexts initial_state thread)
contexts-IsLinked_example = contexts-IsLinked initial_state thread tt initial-IsLinked
