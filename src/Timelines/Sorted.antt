-- ===== src/Timelines/Sorted.antt =====
-- Timelines in order: newest first, gaps aside. Lemmas on the searches of the timelines reducer.
use mastodon.Prelude.{
  ℕ, zero, suc, Text, ◌≡◌, refl, ap, Bool, true, false, none, some, List, [], ◌∷◌, ◌++◌, take, drop,
  All, All-append, All-keep_if, keep_if, find_last_index, after, Option-cases, inl, inr, Bool-cases,
  arith,
}
use mastodon.CompareId.Order.{Newer}
use mastodon.Timelines.{Ids, known_and}

-- The ids of a timeline, without its gaps.
abbrev pub known : Ids → List Text
known [] = []
known (none ∷ items) = known items
known (some id ∷ items) = id ∷ known items

-- Each id is newer than all that follow.
abbrev pub IsSorted : List Text → Type 0
IsSorted [] = Unit
IsSorted (a ∷ ids) = All (Newer a) ids × IsSorted ids

pub known-append : (xs ys : Ids) → known (xs ++ ys) ≡ known xs ++ known ys
known-append [] ys = refl
known-append (none ∷ xs) ys = known-append xs ys
known-append (some a ∷ xs) ys = ap (a ∷◌) (known-append xs ys)

pub IsSorted-append :
    (xs ys : List Text)
    → IsSorted xs
    → IsSorted ys
    → All (λ x. All (Newer x) ys) xs
    → IsSorted (xs ++ ys)
IsSorted-append [] ys hx hy h = hy
IsSorted-append (x ∷ xs) ys hx hy h =
    (All-append (Newer x) xs ys hx.0 h.0, IsSorted-append xs ys hx.1 hy h.1)

pub IsSorted-keep_if : (p : Text → Bool) (xs : List Text) → IsSorted xs → IsSorted (keep_if p xs)
IsSorted-keep_if p [] h = tt
IsSorted-keep_if p (x ∷ xs) h = elim (Bool-cases (p x)) [
  | inl e ↦ ground (arith, IsSorted-keep_if p xs h.1, All-keep_if (Newer x) p xs h.0)
  | inr e ↦ ground (arith, IsSorted-keep_if p xs h.1)
]

-- A test that holds of whatever is newer than an id of which it holds.
abbrev pub IsUpward : (Text → Bool) → Type 0
IsUpward q = (a b : Text) → Newer a b → q b ≡ true → q a ≡ true

module _ (q : Text → Bool) (up : IsUpward q) where
  found-above :
      (a : Text) (xs : Ids) (i : ℕ)
      → find_last_index (known_and q) xs ≡ some i
      → All (Newer a) (known xs)
      → q a ≡ true
  found-above a [] i e h = cc
  found-above a (none ∷ xs) i e h = elim (Option-cases (find_last_index (known_and q) xs)) [
    | inl n ↦ ground (arith, n)
    | inr (j, s) ↦ found-above a xs j s h
  ]
  found-above a (some b ∷ xs) i e h = elim (Option-cases (find_last_index (known_and q) xs)) [
    | inl n ↦ ground (arith, n, up a b h.0)
    | inr (j, s) ↦ found-above a xs j s h.1
  ]

  -- Up to the last entry that passes, all ids of a sorted timeline pass.
  pub passes_before :
      (xs : Ids)
      → IsSorted (known xs)
      → All (λ a. q a ≡ true) (known (take (after (find_last_index (known_and q) xs)) xs))
  passes_before [] h = tt
  passes_before (none ∷ xs) h = elim (Option-cases (find_last_index (known_and q) xs)) [
    | inl n ↦ rw n tt
    | inr (j, s) ↦ rw s (rw s at (passes_before xs h))
  ]
  passes_before (some a ∷ xs) h = elim (Option-cases (find_last_index (known_and q) xs)) [
    | inl n ↦ rw n (ground arith)
    | inr (j, s) ↦ rw s (found-above a xs j s h.0, rw s at (passes_before xs h.1))
  ]

-- After it, none passes.
pub fails_after :
    (q : Text → Bool) (xs : Ids)
    → All (λ a. q a ≡ false) (known (drop (after (find_last_index (known_and q) xs)) xs))
fails_after q [] = tt
fails_after q (none ∷ xs) = elim (Option-cases (find_last_index (known_and q) xs)) [
  | inl n ↦ rw n (rw n at (fails_after q xs))
  | inr (j, s) ↦ rw s (rw s at (fails_after q xs))
]
fails_after q (some a ∷ xs) = elim (Option-cases (find_last_index (known_and q) xs)) [
  | inl n ↦ elim (Bool-cases (q a)) [
    | inl t ↦ rw (n, t) (rw n at (fails_after q xs))
    | inr f ↦ rw (n, f) (f, rw n at (fails_after q xs))
  ]
  | inr (j, s) ↦ rw s (rw s at (fails_after q xs))
]

-- An index that is found in a prefix cuts off the same entries of the whole.
pub take-found {ℓ} :
    {A : Type ℓ} (p : A → Bool) (n : ℕ) (xs : List A) {i : ℕ}
    → find_last_index p (take n xs) ≡ some i
    → take (suc i) (take n xs) ≡ take (suc i) xs
take-found p zero xs e = cc
take-found p (suc n) [] e = refl
take-found p (suc n) (x ∷ xs) {i} e = elim (Option-cases (find_last_index p (take n xs))) [
  | inl m ↦ let z : i ≡ 0 = ground (arith, m) in rw z refl
  | inr (j, s) ↦ let z : i ≡ suc j = ground (arith, s) in rw z (ap (x ∷◌) (take-found p n xs s))
]
