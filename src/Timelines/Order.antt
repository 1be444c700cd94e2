-- ===== src/Timelines/Order.antt =====
-- Timelines stay in order: what every action of the reducer does to a sorted timeline.
use mastodon.Prelude.{
  Text, ◌≡◌, refl, Bool, true, List, [], ◌∷◌, ◌++◌, map, last_or, All, All-append, All-map,
  All-kept, keep_if, ◌⊎◌, inl, inr, arith,
}
use mastodon.Entities.{Status}
use mastodon.CompareId.Order.{Newer, Newer-trans, compare_id-flip}
use mastodon.Timelines.{Ids, newer, merge_page}
use mastodon.Timelines.Sorted.{known, IsSorted, IsSorted-append, IsSorted-keep_if}
use mastodon.Timelines.Expand.{older, merge_page-known, last_or-le}

abbrev ids_of : List Status → List Text
ids_of = map (λ (s : Status). s.id)

page-Newer :
    (new a : Text) (rest : List Text)
    → IsSorted (new ∷ rest)
    → Newer a new
    → All (Newer a) (new ∷ rest)
page-Newer new a rest h n = (n, All-map (Newer new) rest (λ b k. Newer-trans a new b n k) h.0)

above-last :
    (new : Text) (rest : List Text)
    → IsSorted (new ∷ rest)
    → All (λ a. (a ≡ last_or new rest) ⊎ Newer a (last_or new rest)) (new ∷ rest)
above-last new [] h = (inl refl, tt)
above-last new (x ∷ rest) h = (last_or-le new (x ∷ rest) h, above-last x rest h.1)

Newer-extend : (a b c : Text) → (a ≡ b) ⊎ Newer a b → Newer b c → Newer a c
Newer-extend a b c (inl e) k = rw e k
Newer-extend a b c (inr h) k = Newer-trans a b c h k

older-Newer : (bound a : Text) → older bound a ≡ true → Newer bound a
older-Newer bound a h = ground (arith, compare_id-flip a bound)

newer-Newer : (bound a : Text) → newer bound a ≡ true → Newer a bound
newer-Newer bound a h = ground arith

-- A page keeps a sorted timeline sorted.
pub merge_page-IsSorted :
    (old : Ids) (new : Text) (rest : List Text) (is_partial : Bool)
    → IsSorted (known old)
    → IsSorted (new ∷ rest)
    → IsSorted (known (merge_page old new rest is_partial))
merge_page-IsSorted old new rest is_partial h page =
    let last : Text = last_or new rest in
    let front : List Text = keep_if (newer new) (known old) in
    let back : List Text = keep_if (older last) (known old) in
    let below : All (λ a. Newer last a) back =
      All-map (λ a. older last a ≡ true) back (older-Newer last)
        (All-kept (older last) (known old)) in
    let under : (a : Text) → (a ≡ last) ⊎ Newer a last → All (Newer a) back =
      λ a n. All-map (Newer last) back (λ b k. Newer-extend a last b n k) below in
    rw (merge_page-known old new rest h page is_partial) (
      IsSorted-append front ((new ∷ rest) ++ back) (IsSorted-keep_if (newer new) (known old) h)
        (IsSorted-append (new ∷ rest) back page (IsSorted-keep_if (older last) (known old) h)
          (All-map (λ a. (a ≡ last) ⊎ Newer a last) (new ∷ rest) under (above-last new rest page)))
        (All-map (λ a. newer new a ≡ true) front
          (λ a e.
            let n : Newer a new = newer-Newer new a e in
            All-append (Newer a) (new ∷ rest) back (page-Newer new a rest page n) (
              All-map (Newer new) back (λ b k. Newer-trans a new b n k)
                (under new (last_or-le new rest page))))
          (All-kept (newer new) (known old))))
