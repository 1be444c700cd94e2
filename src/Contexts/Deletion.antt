-- ===== src/Contexts/Deletion.antt =====
-- What a deletion leaves of a status in the reply structure.
use mastodon.Prelude.{Text, text_eq_refl, ◌≡◌, ◌≢◌, false, none, some, [], get, arith}
use mastodon.Actions.{timeline_delete}
use mastodon.Contexts.{Contexts, includes, contexts}
use mastodon.Contexts.Lookups.{
  replies_of, delete_context-in_reply_tos, delete_context-replies, option_eq_iff,
  includes-delete_context,
}
use mastodon.Contexts.Linked.{IsLinked}

-- Where the two maps were each other's inverse, a status that is deleted then replies to nothing,
-- nothing replies to it, and it is listed nowhere.
pub contexts-delete :
    (state : Contexts) (id c : Text)
    → IsLinked state
    → let after_it = contexts state (timeline_delete id none [] none) in
      (get id after_it.in_reply_tos ≡ none)
      × (get c after_it.in_reply_tos ≢ some id)
      × (replies_of after_it id ≡ [])
      × (includes (replies_of after_it c) id ≡ false)
unfolding contexts
contexts-delete state id c h = (
  ground (arith, delete_context-in_reply_tos state id id, text_eq_refl id),
  (λ e. ground (arith, delete_context-in_reply_tos state id c, h.listed c id)),
  ground (arith, delete_context-replies state id id, text_eq_refl id),
  ground (
    arith,
    includes-delete_context state id c id,
    text_eq_refl id,
    h.linked id c,
    option_eq_iff (get id state.in_reply_tos) c,
  ),
)
