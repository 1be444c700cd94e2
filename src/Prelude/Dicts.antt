-- ===== src/Prelude/Dicts.antt =====
-- Maps keyed by strings, as association lists: `get`, `set`, `remove` (`delete`), `has`, and
-- `update` with a value for a missing key.
use mathlib.Core.Path.{◌≡◌, refl}
use mathlib.Core.Bool.{Bool}
use mathlib.Core.Logic.{inl, inr}
use mathlib.Core.List.{List, [], ◌∷◌}
use mathlib.Core.Option
use mathlib.Core.Option.{Option, none, some}
use native.Mathlib.Omega.{arith}
use mastodon.Prelude.Tests.{Bool-cases, if◌then◌else◌, is_some}
use mastodon.Prelude.Strings.{Text, text_eq, text_eq_iff, text_eq_refl}

abbrev pub Map {ℓ} : Type ℓ → Type ℓ
Map V = List (Text × V)

module _ {ℓ} {V : Type ℓ} where
  unfoldable pub get : Text → Map V → Option V
  get k [] = none
  get k ((j, v) ∷ m) = if text_eq j k then some v else get k m

  unfoldable pub set : Text → V → Map V → Map V
  set k v [] = (k, v) ∷ []
  set k v ((j, w) ∷ m) = if text_eq j k then (k, v) ∷ m else (j, w) ∷ set k v m

  unfoldable pub remove : Text → Map V → Map V
  remove k [] = []
  remove k ((j, w) ∷ m) = if text_eq j k then remove k m else (j, w) ∷ remove k m

  -- A change of every value.
  unfoldable pub map_values : (V → V) → Map V → Map V
  map_values f [] = []
  map_values f ((j, w) ∷ m) = (j, f w) ∷ map_values f m

  unfoldable pub values : Map V → List V
  values [] = []
  values ((j, v) ∷ m) = v ∷ values m

  abbrev pub value_or : V → Option V → V
  value_or d none = d
  value_or d (some v) = v

  abbrev pub get_or : V → Text → Map V → V
  get_or d k m = value_or d (get k m)

  -- `update(key, notSetValue, updater)`.
  abbrev pub update : Text → V → (V → V) → Map V → Map V
  update k d f m = set k (f (get_or d k m)) m

  abbrev pub has : Text → Map V → Bool
  has k m = is_some (get k m)

  pub get-set :
      (k j : Text) (v : V) (m : Map V)
      → get j (set k v m) ≡ (if text_eq k j then some v else get j m)
  unfolding get set
  get-set k j v [] = refl
  get-set k j v ((i, w) ∷ m) =
      ground (arith, text_eq_iff k j, text_eq_iff i k, text_eq_iff i j, get-set k j v m)

  pub get-set_self : (k : Text) (v : V) (m : Map V) → get k (set k v m) ≡ some v
  get-set_self k v m = ground (arith, get-set k k v m, text_eq_refl k)

  -- The later of two writes to one key stays.
  pub set-set : (k : Text) (v w : V) (m : Map V) → set k v (set k w m) ≡ set k v m
  unfolding set
  set-set k v w [] = ground (arith, text_eq_refl k)
  set-set k v w ((i, u) ∷ m) = ground (arith, text_eq_refl k, set-set k v w m)

  pub get-remove :
      (k j : Text) (m : Map V) → get j (remove k m) ≡ (if text_eq k j then none else get j m)
  unfolding get remove
  get-remove k j [] = ground arith
  get-remove k j ((i, w) ∷ m) =
      ground (arith, text_eq_iff k j, text_eq_iff i k, text_eq_iff i j, get-remove k j m)

  pub get-map_values :
      (f : V → V) (j : Text) (m : Map V) → get j (map_values f m) ≡ Option.map f (get j m)
  unfolding get map_values
  get-map_values f j [] = refl
  get-map_values f j ((i, w) ∷ m) = ground (arith, get-map_values f j m)

-- A predicate of every value that is stored.
abbrev pub AllValues {ℓ κ} : {V : Type ℓ} → (V → Type κ) → Map V → Type κ
AllValues P [] = Unit
AllValues P ((j, v) ∷ m) = P v × AllValues P m

module _ {ℓ κ} {V : Type ℓ} (P : V → Type κ) where
  pub AllValues-set : (k : Text) (v : V) (m : Map V) → P v → AllValues P m → AllValues P (set k v m)
  unfolding set
  AllValues-set k v [] h hs = (h, tt)
  AllValues-set k v ((j, w) ∷ m) h hs = elim (Bool-cases (text_eq j k)) [
    | inl e ↦ rw e (h, hs.1)
    | inr e ↦ rw e (hs.0, AllValues-set k v m h hs.1)
  ]

  pub AllValues-remove : (k : Text) (m : Map V) → AllValues P m → AllValues P (remove k m)
  unfolding remove
  AllValues-remove k [] hs = tt
  AllValues-remove k ((j, w) ∷ m) hs = elim (Bool-cases (text_eq j k)) [
    | inl e ↦ rw e (AllValues-remove k m hs.1)
    | inr e ↦ rw e (hs.0, AllValues-remove k m hs.1)
  ]

  pub AllValues-map_values :
      (f : V → V) (m : Map V)
      → ((v : V) → P v → P (f v))
      → AllValues P m
      → AllValues P (map_values f m)
  unfolding map_values
  AllValues-map_values f [] keep hs = tt
  AllValues-map_values f ((j, w) ∷ m) keep hs = (keep w hs.0, AllValues-map_values f m keep hs.1)

  -- What is found, or the value for a missing key.
  pub AllValues-get_or : (d : V) (k : Text) (m : Map V) → P d → AllValues P m → P (get_or d k m)
  unfolding get
  AllValues-get_or d k [] h hs = h
  AllValues-get_or d k ((j, w) ∷ m) h hs = elim (Bool-cases (text_eq j k)) [
    | inl e ↦ rw e hs.0
    | inr e ↦ rw e (AllValues-get_or d k m h hs.1)
  ]

  pub AllValues-update :
      (k : Text) (d : V) (f : V → V) (m : Map V)
      → P d
      → ((v : V) → P v → P (f v))
      → AllValues P m
      → AllValues P (update k d f m)
  AllValues-update k d f m h keep hs =
      AllValues-set k (f (get_or d k m)) m (keep (get_or d k m) (AllValues-get_or d k m h hs)) hs
