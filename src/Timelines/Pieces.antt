-- ===== src/Timelines/Pieces.antt =====
-- A sorted timeline stays sorted when items are dropped from it or its end is cut off.
use mastodon.Prelude.{
  ℕ, zero, suc, Text, ◌≡◌, refl, Bool, Option, none, some, List, [], ◌∷◌, take, filter_not, All,
  All-filter_not, arith,
}
use mastodon.CompareId.Order.{Newer}
use mastodon.Timelines.{Ids}
use mastodon.Timelines.Sorted.{known, IsSorted}

pub known-filter_not :
    (p : Option Text → Bool) (items : Ids)
    → known (filter_not p items) ≡ filter_not (λ id. p (some id)) (known items)
known-filter_not p [] = refl
known-filter_not p (none ∷ items) = ground (arith, known-filter_not p items)
known-filter_not p (some id ∷ items) = ground (arith, known-filter_not p items)

pub IsSorted-filter_not :
    (p : Text → Bool) (xs : List Text) → IsSorted xs → IsSorted (filter_not p xs)
IsSorted-filter_not p [] h = tt
IsSorted-filter_not p (x ∷ xs) h =
    ground (arith, IsSorted-filter_not p xs h.1, All-filter_not (Newer x) p xs h.0)

pub All-known-take {κ} :
    (P : Text → Type κ) (n : ℕ) (items : Ids) → All P (known items) → All P (known (take n items))
All-known-take P zero items h = tt
All-known-take P (suc n) [] h = tt
All-known-take P (suc n) (none ∷ items) h = All-known-take P n items h
All-known-take P (suc n) (some a ∷ items) h = (h.0, All-known-take P n items h.1)

pub IsSorted-take : (n : ℕ) (items : Ids) → IsSorted (known items) → IsSorted (known (take n items))
IsSorted-take zero items h = tt
IsSorted-take (suc n) [] h = tt
IsSorted-take (suc n) (none ∷ items) h = IsSorted-take n items h
IsSorted-take (suc n) (some a ∷ items) h =
    (All-known-take (Newer a) n items h.0, IsSorted-take n items h.1)
