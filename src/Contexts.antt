-- ===== src/Contexts.antt =====
-- app/javascript/mastodon/reducers/contexts.js: which status replies to which, as two maps: from a
-- status to the one it replies to, and from a status to its replies, oldest first.
pub mod Lookups
pub mod Linked
pub mod Deletion
mod Tests
use mastodon.Prelude.{
  ℕ, zero, suc, Text, text_eq, option_eq, truthy, Bool, true, false, ◌||◌, not, ◌&&◌, Option, none,
  some, List, [], ◌∷◌, ◌++◌, map, if◌then◌else◌, take, drop, last_or, filter_not, keep_if,
  find_last_index, after, any, Map, get, set, remove, update, get_or, has, values,
}
use mastodon.Entities.{Status, Relationship}
use mastodon.Actions.{
  Action, timeline_update, timeline_delete, account_block_success, account_mute_success,
  context_fetch_success,
}
use mastodon.CompareId.{compare_id, is_lt}

pub record Contexts : Type 0 where
  pub in_reply_tos : Map Text
  pub replies : Map (List Text)

abbrev pub initial_state : Contexts
initial_state = record { in_reply_tos = []; replies = [] }

-- `siblings.insert(index + 1, id)`, after the last sibling that is older.
unfoldable pub insert_reply : Text → List Text → List Text
insert_reply id siblings =
    let position = after (find_last_index (λ sibling. is_lt (compare_id sibling id)) siblings) in
    take position siblings ++ (id ∷ drop position siblings)

unfoldable pub add_link : Contexts → Text → Text → Contexts
unfolding insert_reply
add_link state id parent = if has id state.in_reply_tos then state else record {
  in_reply_tos = set id parent state.in_reply_tos;
  replies = update parent [] (insert_reply id) state.replies;
}

-- A null or empty `in_reply_to_id` is no reply.
unfoldable pub add_reply : Contexts → Text → Option Text → Contexts
unfolding add_link
add_reply state id none = state
add_reply state id (some []) = state
add_reply state id (some (c ∷ parent)) = add_link state id (c ∷ parent)

unfoldable pub add_replies : Contexts → List Status → Contexts
unfolding add_reply
add_replies state [] = state
add_replies state (s ∷ statuses) = add_replies (add_reply state s.id s.in_reply_to_id) statuses

-- The status itself is taken to reply to the last of its ancestors.
unfoldable pub add_self : Contexts → Text → List Status → Contexts
unfolding add_reply
add_self state id [] = state
add_self state id (s ∷ ancestors) = add_reply state id (some (last_or s ancestors).id)

unfoldable pub normalize_context : Contexts → Text → List Status → List Status → Contexts
unfolding add_self add_replies
normalize_context state id ancestors descendants =
    add_replies (add_self (add_replies state ancestors) id ancestors) descendants

-- `siblings && replies.set(parent, siblings without id)`.
unfoldable pub drop_sibling : Text → Option Text → Map (List Text) → Map (List Text)
drop_sibling id none replies = replies
drop_sibling id (some parent) replies = elim (get parent replies) [
  | none ↦ replies
  | some siblings ↦ set parent (filter_not (λ sibling. text_eq sibling id) siblings) replies
]

unfoldable pub remove_all : List Text → Map Text → Map Text
remove_all [] m = m
remove_all (id ∷ ids) m = remove_all ids (remove id m)

-- One round of `deleteFromContexts`. The replies of `id` are read before its siblings are changed.
unfoldable pub delete_context : Contexts → Text → Contexts
unfolding drop_sibling remove_all
delete_context state id =
    let parent = get id state.in_reply_tos in
    let replies_of_id = get_or [] id state.replies in
    record {
      in_reply_tos = remove id (remove_all replies_of_id state.in_reply_tos);
      replies = remove id (drop_sibling id parent state.replies);
    }

unfoldable pub delete_from_contexts : Contexts → List Text → Contexts
unfolding delete_context
delete_from_contexts state [] = state
delete_from_contexts state (id ∷ ids) = delete_from_contexts (delete_context state id) ids

unfoldable pub filter_contexts : Contexts → Relationship → Map Status → Contexts
unfolding delete_from_contexts
filter_contexts state relationship statuses = delete_from_contexts state (
    map (λ (s : Status). s.id)
      (keep_if (λ (s : Status). text_eq s.account relationship.id) (values statuses)))

-- `replies.includes(id)`.
unfoldable pub includes : List Text → Text → Bool
includes siblings id = any (λ sibling. text_eq sibling id) siblings

unfoldable pub link_update : Contexts → Text → Text → Contexts
unfolding includes
link_update state id parent =
    let siblings = get_or [] parent state.replies in
    record {
      in_reply_tos = set id parent state.in_reply_tos;
      replies =
          if includes siblings id
          then state.replies
          else set parent (siblings ++ id ∷ []) state.replies;
    }

unfoldable pub update_context : Contexts → Text → Option Text → Contexts
unfolding link_update
update_context state id none = state
update_context state id (some []) = state
update_context state id (some (c ∷ parent)) = link_update state id (c ∷ parent)

unfoldable pub contexts : Contexts → Action → Contexts
unfolding filter_contexts normalize_context delete_from_contexts update_context
contexts state (account_block_success relationship statuses) =
    filter_contexts state relationship statuses
contexts state (account_mute_success relationship statuses) =
    filter_contexts state relationship statuses
contexts state (context_fetch_success id ancestors descendants) =
    normalize_context state id ancestors descendants
contexts state (timeline_delete id account_id references reblog_of) =
    delete_from_contexts state (id ∷ [])
contexts state (timeline_update timeline status) =
    update_context state status.id status.in_reply_to_id
contexts state _ = state
