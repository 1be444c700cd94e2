-- ===== src/Contexts/Linked.antt =====
-- The two maps of the contexts reducer agree, and deleting a status takes it out of both.
use mastodon.Prelude.{
  Text, text_eq, text_eq_iff, ◌≡◌, inl, inr, true, Option, none, some, List, [], ◌∷◌, ◌++◌, map,
  Bool-cases, Map, get, has, get-set, values, last_or, keep_if, arith,
}
use mastodon.Entities.{Status, Relationship}
use mastodon.Actions.{
  Action, timeline_update, timeline_delete, account_block_success, account_mute_success,
  context_fetch_success,
}
use mastodon.Contexts.{
  Contexts, insert_reply, add_link, add_reply, add_replies, add_self, delete_context,
  delete_from_contexts, filter_contexts, includes, link_update, update_context, contexts,
}
use mastodon.Contexts.Lookups.{
  replies_of, kids-set, includes-append, includes-insert_reply, delete_context-in_reply_tos,
  option_eq_iff, includes-delete_context,
}

-- A status is listed under the one that it replies to, and under no other.
pub record IsLinked (state : Contexts) : Type 0 where
  pub listed :
      (c p : Text) → get c state.in_reply_tos ≡ some p → includes (replies_of state p) c ≡ true
  pub linked :
      (c p : Text) → includes (replies_of state p) c ≡ true → get c state.in_reply_tos ≡ some p

add_link-IsLinked :
    (state : Contexts) (id parent : Text) → IsLinked state → IsLinked (add_link state id parent)
unfolding add_link
add_link-IsLinked state id parent h = elim (Bool-cases (has id state.in_reply_tos)) [
  | inl old ↦ rw old h
  | inr new ↦ rw new (record {
    listed = λ c p e. ground (
      arith,
      get-set id c parent state.in_reply_tos,
      kids-set p parent (insert_reply id (replies_of state parent)) state.replies,
      includes-insert_reply id c (replies_of state parent),
      text_eq_iff id c,
      text_eq_iff parent p,
      h.listed c p,
    );
    linked = λ c p e. ground (
      arith,
      get-set id c parent state.in_reply_tos,
      kids-set p parent (insert_reply id (replies_of state parent)) state.replies,
      includes-insert_reply id c (replies_of state parent),
      text_eq_iff id c,
      text_eq_iff parent p,
      h.linked c p,
      h.linked c parent,
    );
  })
]

add_reply-IsLinked :
    (state : Contexts) (id : Text) (parent : Option Text)
    → IsLinked state
    → IsLinked (add_reply state id parent)
unfolding add_reply
add_reply-IsLinked state id none h = h
add_reply-IsLinked state id (some []) h = h
add_reply-IsLinked state id (some (c ∷ parent)) h = add_link-IsLinked state id (c ∷ parent) h

add_replies-IsLinked :
    (state : Contexts) (statuses : List Status)
    → IsLinked state
    → IsLinked (add_replies state statuses)
unfolding add_replies
add_replies-IsLinked state [] h = h
add_replies-IsLinked state (s ∷ statuses) h =
    add_replies-IsLinked (add_reply state s.id s.in_reply_to_id) statuses
      (add_reply-IsLinked state s.id s.in_reply_to_id h)

add_self-IsLinked :
    (state : Contexts) (id : Text) (ancestors : List Status)
    → IsLinked state
    → IsLinked (add_self state id ancestors)
unfolding add_self
add_self-IsLinked state id [] h = h
add_self-IsLinked state id (s ∷ ancestors) h =
    add_reply-IsLinked state id (some (last_or s ancestors).id) h

delete_context-IsLinked :
    (state : Contexts) (id : Text) → IsLinked state → IsLinked (delete_context state id)
delete_context-IsLinked state id h = record {
  listed = λ c p e. ground (
    arith,
    delete_context-in_reply_tos state id c,
    includes-delete_context state id p c,
    h.listed c p,
    text_eq_iff id p,
  );
  linked = λ c p e. ground (
    arith,
    delete_context-in_reply_tos state id c,
    includes-delete_context state id p c,
    h.linked c p,
    h.linked c id,
    text_eq_iff id p,
    text_eq_iff id c,
    option_eq_iff (get id state.in_reply_tos) p,
  );
}

delete_from_contexts-IsLinked :
    (state : Contexts) (ids : List Text)
    → IsLinked state
    → IsLinked (delete_from_contexts state ids)
unfolding delete_from_contexts
delete_from_contexts-IsLinked state [] h = h
delete_from_contexts-IsLinked state (id ∷ ids) h =
    delete_from_contexts-IsLinked (delete_context state id) ids (delete_context-IsLinked state id h)

filter_contexts-IsLinked :
    (state : Contexts) (relationship : Relationship) (statuses : Map Status)
    → IsLinked state
    → IsLinked (filter_contexts state relationship statuses)
unfolding filter_contexts
filter_contexts-IsLinked state relationship statuses h =
    delete_from_contexts-IsLinked state
      (map (λ (s : Status). s.id)
        (keep_if (λ (s : Status). text_eq s.account relationship.id) (values statuses)))
      h

link_update-IsLinked :
    (state : Contexts) (id parent : Text)
    → ((p : Text) → get id state.in_reply_tos ≡ some p → p ≡ parent)
    → IsLinked state
    → IsLinked (link_update state id parent)
unfolding link_update
link_update-IsLinked state id parent same h = record {
  listed = λ c p e. ground (
    arith,
    get-set id c parent state.in_reply_tos,
    kids-set p parent (replies_of state parent ++ id ∷ []) state.replies,
    includes-append (replies_of state parent) (id ∷ []) c,
    includes-one id c,
    text_eq_iff id c,
    text_eq_iff parent p,
    h.listed c p,
  );
  linked = λ c p e. ground (
    arith,
    get-set id c parent state.in_reply_tos,
    kids-set p parent (replies_of state parent ++ id ∷ []) state.replies,
    includes-append (replies_of state parent) (id ∷ []) c,
    includes-one id c,
    text_eq_iff id c,
    text_eq_iff parent p,
    h.linked c p,
    h.linked c parent,
    same p,
  );
}
  where
    includes-one : (x y : Text) → includes (x ∷ []) y ≡ text_eq x y
    includes-one x y = unfold includes in ground arith

-- A status that arrives names the status that it is already known to reply to, if any is known.
abbrev pub Agrees : Contexts → Action → Type 0
Agrees state (timeline_update timeline status) =
    (p : Text) → get status.id state.in_reply_tos ≡ some p → status.in_reply_to_id ≡ some p
Agrees state _ = Unit

update_context-IsLinked :
    (state : Contexts) (id : Text) (parent : Option Text)
    → ((p : Text) → get id state.in_reply_tos ≡ some p → parent ≡ some p)
    → IsLinked state
    → IsLinked (update_context state id parent)
unfolding update_context
update_context-IsLinked state id none same h = h
update_context-IsLinked state id (some []) same h = h
update_context-IsLinked state id (some (c ∷ parent)) same h =
    link_update-IsLinked state id (c ∷ parent) (λ p e. cc (same p e)) h

-- Every action keeps the two maps each other's inverse, where a status that arrives on a timeline
-- and is known to reply to another one still says that it replies to that one.
pub contexts-IsLinked :
    (state : Contexts) (action : Action)
    → Agrees state action
    → IsLinked state
    → IsLinked (contexts state action)
unfolding contexts
contexts-IsLinked state (timeline_update timeline status) a h =
    update_context-IsLinked state status.id status.in_reply_to_id a h
contexts-IsLinked state (timeline_delete id account_id references reblog_of) a h =
    delete_from_contexts-IsLinked state (id ∷ []) h
contexts-IsLinked state (account_block_success relationship statuses) a h =
    filter_contexts-IsLinked state relationship statuses h
contexts-IsLinked state (account_mute_success relationship statuses) a h =
    filter_contexts-IsLinked state relationship statuses h
contexts-IsLinked state (context_fetch_success id ancestors descendants) a h =
    add_replies-IsLinked (add_self (add_replies state ancestors) id ancestors) descendants (
      add_self-IsLinked (add_replies state ancestors) id ancestors
        (add_replies-IsLinked state ancestors h))
contexts-IsLinked state _ a h = h
