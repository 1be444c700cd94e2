-- ===== src/Prelude/Find.antt =====
-- `findLastIndex` of arrays and lists.
use Prim.Native.Nat.{ℕ, suc}
use mathlib.Core.Bool.{Bool}
use mathlib.Core.List.{List, [], ◌∷◌, map}
use mathlib.Core.Option.{Option, none, some}
use mathlib.Core.Path.{◌≡◌, refl}
use native.Mathlib.Omega.{arith}
use mastodon.Prelude.Tests.{if◌then◌else◌}

-- `none` stands for -1.
abbrev pub find_last_index {ℓ} : {A : Type ℓ} → (A → Bool) → List A → Option ℕ
find_last_index p [] = none
find_last_index p (x ∷ xs) = elim (find_last_index p xs) [
  | none ↦ if p x then some 0 else none
  | some i ↦ some (suc i)
]

-- `index + 1`.
abbrev pub after : Option ℕ → ℕ
after none = 0
after (some i) = suc i

pub find_last_index-map {ℓ κ} :
    {A : Type ℓ} {B : Type κ} (f : A → B) (p : B → Bool) (q : A → Bool) (xs : List A)
    → ((x : A) → p (f x) ≡ q x)
    → find_last_index p (map f xs) ≡ find_last_index q xs
find_last_index-map f p q [] h = refl
find_last_index-map f p q (x ∷ xs) h = ground (arith, find_last_index-map f p q xs h, h x)
