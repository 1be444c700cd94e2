-- ===== src/Prelude/Integers.antt =====
-- Integers over the native numbers, and the list operations that take a signed index, as Immutable.js
-- documents them.
use Prim.Native.Nat.{ℕ, suc, ◌+◌, ◌-◌, min}
use mathlib.Core.List.{List, [], ◌∷◌, ◌++◌}
use mathlib.Core.Option.{Option, none}
use mathlib.Core.Bool.{Bool}
use mastodon.Prelude.Tests.{ltb, if◌then◌else◌}
use mastodon.Prelude.Lists.{take, drop, length, get_elem?}

pub data ℤ : Type 0 where
  pos : ℕ → ℤ
  negsuc : ℕ → ℤ

infixl 60 ◌+ℤ◌
abbrev pub ◌+ℤ◌ : ℤ → ℤ → ℤ
pos a +ℤ pos b = pos (a + b)
pos a +ℤ negsuc b = if ltb b a then pos (a - suc b) else negsuc (b - a)
negsuc a +ℤ pos b = if ltb a b then pos (b - suc a) else negsuc (a - b)
negsuc a +ℤ negsuc b = negsuc (suc (a + b))

-- A negative index counts from the end; an index outside the list is moved to its nearest end.
abbrev pub resolve_index : ℤ → ℕ → ℕ
resolve_index (pos i) size = min size i
resolve_index (negsuc i) size = size - suc i

module _ {ℓ} {A : Type ℓ} where
  -- `splice(index, remove, ...values)`.
  abbrev pub splice_list : ℤ → ℕ → List A → List A → List A
  splice_list index remove values xs =
      let i = resolve_index index (length xs) in take i xs ++ (values ++ drop (i + remove) xs)

  -- `get(index)`.
  abbrev pub get_index : ℤ → List A → Option A
  get_index (pos i) xs = get_elem? xs i
  get_index (negsuc i) xs = if ltb i (length xs) then get_elem? xs (length xs - suc i) else none

  -- `findIndex`: -1 where nothing passes the test.
  abbrev pub find_index : (A → Bool) → List A → ℤ
  find_index p [] = negsuc 0
  find_index p (x ∷ xs) =
      let rest = find_index p xs in
      if p x then pos 0 else elim rest [ pos i ↦ pos (suc i) | negsuc i ↦ negsuc i ]
