-- ===== src/Reducers/ColumnMoves.antt =====
-- What moving a column does to the columns.
use mathlib.Core.List.{Perm, perm_middle}
use mathlib.Core.List.Perm
use mathlib.Core.Option.{some-injective, none-ne-some}
use mathlib.Core.Path.{subst}
use mastodon.Entities.{Column}
use mastodon.Prelude.{
  refl, Text, negsuc, pos, text_eq_refl, length-append, take-append-drop, ◌+ℤ◌, ltb, min, ◌-◌,
  Bool-cases, splice_list, find_index, ◌⊎◌, Bool, true, Option, none, inl, inr, ℕ, zero, suc, ◌+◌,
  ◌-◌, ◌<◌, ◌≡◌, sym, ap, some, List, [], ◌∷◌, ◌++◌, length, take, drop, ℤ, pos, negsuc, get_index,
  get_elem?, resolve_index, arith,
}
use mastodon.Reducers.Settings.{moved_from, has_uuid, searches, column_at, moved}

get_elem?-split {ℓ} :
    {A : Type ℓ} (xs : List A) (i : ℕ) (c : A)
    → get_elem? xs i ≡ some c
    → (take i xs ++ (c ∷ drop (suc i) xs) ≡ xs) × (i < length xs)
get_elem?-split [] i c e = cc
get_elem?-split (x ∷ xs) zero c e = (ap (◌∷ xs) (sym (some-injective x c e)), omega arith)
get_elem?-split (x ∷ xs) (suc i) c e =
    let rest = get_elem?-split xs i c e in (ap (x ∷◌) rest.0, omega (arith, rest.1))

get_index-split {ℓ} :
    {A : Type ℓ} (xs : List A) (i : ℤ) (c : A)
    → get_index i xs ≡ some c
    → let k = resolve_index i (length xs) in take k xs ++ (c ∷ drop (k + 1) xs) ≡ xs
get_index-split xs (pos i) c e =
    let (split, inside) = get_elem?-split xs i c e in
    let k : min (length xs) i ≡ i = omega (arith, inside) in
    let next : i + 1 ≡ suc i = omega arith in rw (k, next) split
get_index-split xs (negsuc i) c e = elim (Bool-cases (ltb i (length xs))) [
  | inl inside ↦
      let next : length xs - suc i + 1 ≡ suc (length xs - suc i) = omega arith in
      rw next ((get_elem?-split xs (length xs - suc i) c (rw inside at e)).0)
  | inr outside ↦ absurd (none-ne-some c (rw outside at e))
]

splice-Perm {ℓ} :
    {A : Type ℓ} (j : ℤ) (c : A) (rest : List A) → Perm (splice_list j 0 (c ∷ []) rest) (c ∷ rest)
splice-Perm j c rest =
    let i = resolve_index j (length rest) in
    let k : i + 0 ≡ i = omega arith in
    rw k (
      Perm.trans (perm_middle (take i rest) (drop i rest)) (
        subst (λ xs. Perm (c ∷ xs) (c ∷ rest)) (sym (take-append-drop i rest))
          (Perm.refl (c ∷ rest))))

moved_from-Perm :
    (columns : List (Option Column)) (index direction : ℤ) (c : Option Column)
    → get_index index columns ≡ some c
    → Perm (moved_from columns index direction) columns
unfolding moved_from
moved_from-Perm columns index direction c found =
    let k = resolve_index index (length columns) in
    let rest = take k columns ++ drop (k + 1) columns in
    let read : column_at index columns ≡ c = rw (found, column_at) refl in
    subst (λ d. Perm (splice_list (index +ℤ direction) 0 (d ∷ []) rest) columns) (sym read)
      (Perm.trans (splice-Perm (index +ℤ direction) c rest) (
        subst (λ xs. Perm (c ∷ rest) xs) (get_index-split columns index c found)
          (Perm.symm (perm_middle (take k columns) (drop (k + 1) columns)))))

find_index-cases {ℓ} :
    {A : Type ℓ} (p : A → Bool) (xs : List A)
    → (find_index p xs ≡ negsuc 0)
      ⊎ ((i : ℕ) × (find_index p xs ≡ pos i) × ((c : A) × (get_elem? xs i ≡ some c)))
find_index-cases p [] = inl refl
find_index-cases p (x ∷ xs) = elim (Bool-cases (p x)) [
  | inl e ↦ rw e (inr (0, refl, (x, refl)))
  | inr e ↦ rw e (elim (find_index-cases p xs) [
    | inl nowhere ↦ rw nowhere (inl refl)
    | inr (i, here, (c, found)) ↦ rw here (inr (suc i, refl, (c, found)))
  ])
]

get_elem?-last {ℓ} :
    {A : Type ℓ} (x : A) (xs : List A) → (c : A) × (get_elem? (x ∷ xs) (length xs) ≡ some c)
get_elem?-last x [] = (x, refl)
get_elem?-last x (y ∷ xs) = get_elem?-last y xs

-- Among one column or more, what `findIndex` gives is the index of one, the last one where it is -1.
get_index-find_index {ℓ} :
    {A : Type ℓ} (p : A → Bool) (x : A) (xs : List A)
    → (c : A) × (get_index (find_index p (x ∷ xs)) (x ∷ xs) ≡ some c)
get_index-find_index p x xs = elim (find_index-cases p (x ∷ xs)) [
  | inl nowhere ↦
      let inside : ltb 0 (suc (length xs)) ≡ true = ground arith in
      let end : suc (length xs) - 1 ≡ length xs = omega arith in
      rw nowhere (rw (inside, end) (get_elem?-last x xs))
  | inr (i, here, found) ↦ rw here found
]

-- Moving a column, by whatever distance, loses no column and adds none, where there is one.
moved-Perm :
    (first : Option Column) (columns result : List (Option Column)) (uuid : Text) (direction : ℤ)
    → moved (first ∷ columns) uuid direction ≡ some result
    → Perm result (first ∷ columns)
unfolding moved
moved-Perm first columns result uuid direction e =
    elim (Bool-cases (searches uuid (first ∷ columns))) [
      | inl ends ↦
          let (c, found) = get_index-find_index (has_uuid uuid) first columns in
          subst (λ xs. Perm xs (first ∷ columns)) (some-injective _ result (rw ends at e))
            (moved_from-Perm (first ∷ columns) (find_index (has_uuid uuid) (first ∷ columns))
              direction c found)
      | inr throws ↦ absurd (none-ne-some result (rw throws at e))
    ]

take-nil {ℓ} : {A : Type ℓ} (n : ℕ) → take {A = A} n [] ≡ []
take-nil zero = refl
take-nil (suc n) = refl

drop-nil {ℓ} : {A : Type ℓ} (n : ℕ) → drop {A = A} n [] ≡ []
drop-nil zero = refl
drop-nil (suc n) = refl

splice_nothing {ℓ} : {A : Type ℓ} (j : ℤ) (x : A) → splice_list j 0 (x ∷ []) [] ≡ x ∷ []
splice_nothing {A = A} j x =
    let i = resolve_index j 0 in rw (take-nil {A = A} i, drop-nil {A = A} (i + 0)) refl

-- Where there is no column, an undefined one is put there.
moved_empty : (uuid : Text) (direction : ℤ) → moved [] uuid direction ≡ some (none ∷ [])
unfolding moved moved_from
moved_empty uuid direction = ap some (splice_nothing (negsuc 0 +ℤ direction) none)

take-length {ℓ} : {A : Type ℓ} (xs ys : List A) → take (length xs) (xs ++ ys) ≡ xs
take-length [] ys = refl
take-length (x ∷ xs) ys = ap (x ∷◌) (take-length xs ys)

drop-length {ℓ} : {A : Type ℓ} (xs ys : List A) → drop (length xs) (xs ++ ys) ≡ ys
drop-length [] ys = refl
drop-length (x ∷ xs) ys = drop-length xs ys

find_index-first :
    (c : Column) (rest : List (Option Column))
    → find_index (has_uuid c.uuid) (some c ∷ rest) ≡ pos 0
find_index-first c rest = rw (text_eq_refl c.uuid) refl

splice_first {ℓ} : {A : Type ℓ} (x : A) (xs : List A) → splice_list (pos 0) 1 [] (x ∷ xs) ≡ xs
splice_first x xs = let k : min (suc (length xs)) 0 ≡ 0 = omega arith in rw k refl

splice_last {ℓ} :
    {A : Type ℓ} (c last : A) (xs : List A)
    → splice_list (negsuc 0) 0 (c ∷ []) (xs ++ (last ∷ [])) ≡ xs ++ (c ∷ last ∷ [])
splice_last c last xs =
    let size : length (xs ++ (last ∷ [])) - 1 ≡ length xs =
      omega (arith, length-append xs (last ∷ [])) in
    let more : length xs + 0 ≡ length xs = omega arith in
    rw (size, more, take-length xs (last ∷ []), drop-length xs (last ∷ [])) refl

moved_from_first :
    (first last : Option Column) (between : List (Option Column))
    → moved_from (first ∷ (between ++ (last ∷ []))) (pos 0) (negsuc 0)
      ≡ between ++ (first ∷ last ∷ [])
unfolding moved_from
moved_from_first first last between =
    rw (splice_first first (between ++ (last ∷ []))) (splice_last first last between)

-- Moving the first of two columns or more to the left puts it right in front of the last one.
moved_first :
    (first : Column) (last : Option Column) (between : List (Option Column))
    → moved (some first ∷ (between ++ (last ∷ []))) first.uuid (negsuc 0)
      ≡ some (between ++ (some first ∷ last ∷ []))
unfolding moved
moved_first first last between =
    rw (text_eq_refl first.uuid) (ap some (moved_from_first (some first) last between))
