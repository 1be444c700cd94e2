-- ===== src/Contexts/Lookups.antt =====
-- What the operations of the contexts reducer leave to be looked up.
use mastodon.Prelude.{
  ℕ, Text, text_eq, text_eq_iff, option_eq, ◌↔◌, ◌≡◌, refl, ap, inl, inr, true, false, ◌||◌, ◌&&◌,
  Option, none, some, List, [], ◌∷◌, ◌++◌, if◌then◌else◌, take, drop, take-append-drop, filter_not,
  any-append, find_last_index, after, Option-cases, Map, get, set, remove, get_or, get-set,
  get-remove, arith,
}
use mastodon.CompareId.{compare_id, is_lt}
use mastodon.Contexts.{Contexts, insert_reply, drop_sibling, remove_all, delete_context, includes}

-- The replies of a status.
abbrev pub replies_of : Contexts → Text → List Text
replies_of state p = get_or [] p state.replies

pub kids-set :
    (p q : Text) (v : List Text) (r : Map (List Text))
    → get_or [] p (set q v r) ≡ (if text_eq q p then v else get_or [] p r)
kids-set p q v r = ground (arith, get-set q p v r)

pub kids-remove :
    (p q : Text) (r : Map (List Text))
    → get_or [] p (remove q r) ≡ (if text_eq q p then [] else get_or [] p r)
kids-remove p q r = ground (arith, get-remove q p r)

pub includes-append :
    (xs ys : List Text) (c : Text) → includes (xs ++ ys) c ≡ (includes xs c || includes ys c)
unfolding includes
includes-append xs ys c = any-append (λ sibling. text_eq sibling c) xs ys

pub includes-insert_reply :
    (id c : Text) (siblings : List Text)
    → includes (insert_reply id siblings) c ≡ (text_eq id c || includes siblings c)
unfolding insert_reply
includes-insert_reply id c siblings =
    let n : ℕ = after (find_last_index (λ sibling. is_lt (compare_id sibling id)) siblings) in
    let whole : includes (take n siblings ++ drop n siblings) c ≡ includes siblings c =
      ap (λ (l : List Text). includes l c) (take-append-drop n siblings) in
    ground (
      arith,
      whole,
      includes-append (take n siblings) (drop n siblings) c,
      includes-append (take n siblings) (id ∷ drop n siblings) c,
      includes-cons id (drop n siblings) c,
    )
  where
    includes-cons :
        (x : Text) (xs : List Text) (y : Text)
        → includes (x ∷ xs) y ≡ (text_eq x y || includes xs y)
    includes-cons x xs y = unfold includes in refl

pub includes-filter_not :
    (id c : Text) (siblings : List Text)
    → includes (filter_not (λ sibling. text_eq sibling id) siblings) c
      ≡ (if text_eq id c then false else includes siblings c)
unfolding includes
includes-filter_not id c [] = ground arith
includes-filter_not id c (x ∷ siblings) =
    ground (
      arith,
      text_eq_iff x id,
      text_eq_iff x c,
      text_eq_iff id c,
      includes-filter_not id c siblings,
    )

pub get-remove_all :
    (ids : List Text) (c : Text) (m : Map Text)
    → get c (remove_all ids m) ≡ (if includes ids c then none else get c m)
unfolding remove_all includes
get-remove_all [] c m = refl
get-remove_all (id ∷ ids) c m =
    ground (arith, get-remove_all ids c (remove id m), get-remove id c m, text_eq_iff id c)

-- What the deletion leaves of the replies, by the status that the deleted one replies to.
pub kids-drop_sibling :
    (id p : Text) (parent : Option Text) (replies : Map (List Text))
    → get_or [] p (drop_sibling id parent replies) ≡ (
        if option_eq parent (some p)
        then filter_not (λ sibling. text_eq sibling id) (get_or [] p replies)
        else get_or [] p replies)
unfolding drop_sibling
kids-drop_sibling id p none replies = refl
kids-drop_sibling id p (some q) replies = elim (Option-cases (get q replies)) [
  | inl e ↦ rw (e, drop_sibling) (ground (arith, text_eq_iff q p, e))
  | inr (siblings, e) ↦
      rw (e, drop_sibling)
        (ground (
          arith,
          text_eq_iff q p,
          e,
          kids-set p q (filter_not (λ sibling. text_eq sibling id) siblings) replies,
        ))
]

pub delete_context-in_reply_tos :
    (state : Contexts) (id c : Text)
    → get c (delete_context state id).in_reply_tos ≡ (
        if text_eq id c || includes (replies_of state id) c then none else get c state.in_reply_tos)
unfolding delete_context
delete_context-in_reply_tos state id c = ground (
  arith,
  get-remove id c (remove_all (replies_of state id) state.in_reply_tos),
  get-remove_all (replies_of state id) c state.in_reply_tos,
)

pub delete_context-replies :
    (state : Contexts) (id p : Text)
    → replies_of (delete_context state id) p ≡ (
        if text_eq id p
        then []
        else (if option_eq (get id state.in_reply_tos) (some p)
            then filter_not (λ sibling. text_eq sibling id) (replies_of state p)
            else replies_of state p))
unfolding delete_context
delete_context-replies state id p = ground (
  arith,
  kids-remove p id (drop_sibling id (get id state.in_reply_tos) state.replies),
  kids-drop_sibling id p (get id state.in_reply_tos) state.replies,
)

pub option_eq_iff : (o : Option Text) (p : Text) → (option_eq o (some p) ≡ true) ↔ (o ≡ some p)
option_eq_iff none p = ground arith
option_eq_iff (some q) p = ground (arith, text_eq_iff q p)

pub includes-delete_context :
    (state : Contexts) (id p c : Text)
    → includes (replies_of (delete_context state id) p) c ≡ (
        if text_eq id p || (option_eq (get id state.in_reply_tos) (some p) && text_eq id c)
        then false
        else includes (replies_of state p) c)
includes-delete_context state id p c =
    rw (delete_context-replies state id p)
      (ground (arith, includes-filter_not id c (replies_of state p), includes-nil c))
  where
    includes-nil : (x : Text) → includes [] x ≡ false
    includes-nil x = unfold includes in refl
