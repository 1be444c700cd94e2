-- ===== src/Timelines/Expand.antt =====
-- `expandNormalizedTimeline`: what a page does to a timeline, against a plain description.
use mastodon.Prelude.{
  ℕ, Text, ◌≡◌, refl, sym, ap, ◌∙◌, Bool, true, false, none, some, List, [], ◌∷◌, ◌++◌, map,
  append-nil, take, drop, take-append-drop, last_or, get_elem?, is_some, value_or, All,
  All-append_left, All-map, keep_if, keep_if-append, keep_if-All, keep_if_nothing, find_last_index,
  after, Option-cases, inl, inr, ◌⊎◌, if◌then◌else◌, ◌&&◌, arith,
}
use mastodon.CompareId.{compare_id, is_lt}
use mastodon.CompareId.Order.{Newer, Newer-trans, compare_id-eq_iff}
use mastodon.Timelines.{Ids, known_and, not_older, newer, merge_page}
use mastodon.Timelines.Sorted.{
  known, IsSorted, known-append, IsUpward, passes_before, fails_after, take-found,
}

-- `id` is older than the bound.
abbrev pub older : Text → Text → Bool
older bound id = is_lt (compare_id id bound)

not_older-IsUpward : (bound : Text) → IsUpward (not_older bound)
not_older-IsUpward bound a b h k = ground (arith, Newer-trans a b bound, compare_id-eq_iff b bound)

newer-IsUpward : (bound : Text) → IsUpward (newer bound)
newer-IsUpward bound a b h k = ground (arith, Newer-trans a b bound)

-- The last id of a sorted page is not newer than the first.
pub last_or-le :
    (new : Text) (rest : List Text)
    → IsSorted (new ∷ rest)
    → (new ≡ last_or new rest) ⊎ Newer new (last_or new rest)
last_or-le new [] h = inl refl
last_or-le new (x ∷ rest) h = inr (below x rest h.0.0 h.1)
  where
    below : (y : Text) (ys : List Text) → Newer new y → IsSorted (y ∷ ys) → Newer new (last_or y ys)
    below y [] n s = n
    below y (z ∷ ys) n s = below z ys (Newer-trans new y z n s.0.0) s.1

known-map : (new : Text) (rest : List Text) → known (some new ∷ map some rest) ≡ new ∷ rest
known-map new [] = refl
known-map new (x ∷ rest) = ap (new ∷◌) (known-map x rest)

IsSorted-left : (xs ys : List Text) → IsSorted (xs ++ ys) → IsSorted xs
IsSorted-left [] ys h = tt
IsSorted-left (x ∷ xs) ys h = (All-append_left (Newer x) xs ys h.0, IsSorted-left xs ys h.1)

module _ (old : Ids) (new : Text) (rest : List Text) where
  abbrev last : Text
  last = last_or new rest

  abbrev last_index : ℕ
  last_index = after (find_last_index (known_and (not_older last)) old)

  abbrev kept : Ids
  kept = take last_index old

  abbrev front_index : ℕ
  front_index = after (find_last_index (known_and (newer new)) kept)

  abbrev front : Ids
  front = take front_index kept

  abbrev replaced : Ids
  replaced = drop front_index kept

  abbrev back : Ids
  back = drop last_index old

  -- The page, with or without a gap in front.
  abbrev page : Bool → Ids
  page gap = if gap then none ∷ map some (new ∷ rest) else map some (new ∷ rest)

  merge_page-shape :
      (is_partial : Bool)
      → (gap : Bool) × (merge_page old new rest is_partial ≡ front ++ (page gap ++ back))
  unfolding merge_page
  merge_page-shape is_partial = elim (Option-cases (find_last_index (known_and (newer new)) kept)) [
    | inl e ↦ (is_partial, rw (e, merge_page) refl)
    | inr (i, e) ↦ (
      is_partial && is_some (value_or none (get_elem? old i)),
      rw (e, merge_page) (rw (take-found (known_and (newer new)) last_index old e) refl),
    )
  ]

  known-page : (gap : Bool) → known (page gap) ≡ new ∷ rest
  known-page true = known-map new rest
  known-page false = known-map new rest

  module _ (sorted : IsSorted (known old)) (sorted_page : IsSorted (new ∷ rest)) where
    kept-not_older : All (λ a. not_older last a ≡ true) (known kept)
    kept-not_older = passes_before (not_older last) (not_older-IsUpward last) old sorted

    back-older : All (λ a. not_older last a ≡ false) (known back)
    back-older = fails_after (not_older last) old

    known-old : known old ≡ known kept ++ known back
    known-old = ap known (sym (take-append-drop last_index old)) ∙ known-append kept back

    kept-IsSorted : IsSorted (known kept)
    kept-IsSorted = IsSorted-left (known kept) (known back) (rw known-old at sorted)

    front-newer : All (λ a. newer new a ≡ true) (known front)
    front-newer = passes_before (newer new) (newer-IsUpward new) kept kept-IsSorted

    replaced-not_newer : All (λ a. newer new a ≡ false) (known replaced)
    replaced-not_newer = fails_after (newer new) kept

    known-kept : known kept ≡ known front ++ known replaced
    known-kept = ap known (sym (take-append-drop front_index kept)) ∙ known-append front replaced

    back-not_newer : All (λ a. newer new a ≡ false) (known back)
    back-not_newer =
        All-map (λ a. not_older last a ≡ false) (known back)
          (λ a h. ground (
            arith,
            last_or-le new rest sorted_page,
            Newer-trans a new last,
            compare_id-eq_iff a last,
          ))
          back-older

    keep-newer : keep_if (newer new) (known old) ≡ known front
    keep-newer = rw known-old (
        rw (keep_if-append (newer new) (known kept) (known back), known-kept)
          (rw
            (
              keep_if-append (newer new) (known front) (known replaced),
              keep_if-All (newer new) (known front) front-newer,
              keep_if_nothing (newer new) (known replaced) replaced-not_newer,
              keep_if_nothing (newer new) (known back) back-not_newer,
            )
            (append-nil _ ∙ append-nil _)))

    keep-older : keep_if (older last) (known old) ≡ known back
    keep-older = rw known-old (
        rw
          (
            keep_if-append (older last) (known kept) (known back),
            keep_if_nothing (older last) (known kept) (
                All-map (λ a. not_older last a ≡ true) (known kept) (λ a h. ground arith)
                  kept-not_older),
            keep_if-All (older last) (known back) (
                All-map (λ a. not_older last a ≡ false) (known back) (λ a h. ground arith)
                  back-older),
          )
          refl)

    -- Where a timeline is sorted and the page that is merged into it is sorted and not empty, the ids
    -- of the result are those of the timeline that are newer than all of the page, then the page, then
    -- those of the timeline that are older than all of it, whether or not the page leaves a gap.
    pub merge_page-known :
        (is_partial : Bool)
        → known (merge_page old new rest is_partial)
          ≡ keep_if (newer new) (known old) ++ ((new ∷ rest) ++ keep_if (older last) (known old))
    merge_page-known is_partial =
        let (gap, e) = merge_page-shape is_partial in
        rw (e, keep-newer, keep-older)
          (rw (known-append front (page gap ++ back), known-append (page gap) back, known-page gap)
            refl)

-- The length of the part of a timeline that a page, given by its last id, leaves in reach.
abbrev pub reach : Ids → Text → ℕ
reach old bound = after (find_last_index (known_and (not_older bound)) old)

-- A page that is complete, in one expression.
pub merge_page-false :
    (old : Ids) (new : Text) (rest : List Text)
    → let n : ℕ = reach old (last_or new rest) in
      merge_page old new rest false
      ≡ take (after (find_last_index (known_and (newer new)) (take n old))) old
        ++ (map some (new ∷ rest) ++ drop n old)
unfolding merge_page
merge_page-false old new rest =
    elim (Option-cases
      (find_last_index (known_and (newer new)) (take (reach old (last_or new rest)) old))) [
        | inl e ↦ rw (e, merge_page) refl
        | inr (i, e) ↦ rw (e, merge_page) refl
      ]
