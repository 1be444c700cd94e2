-- ===== src/CompareId/Decimal.antt =====
-- compare_id.js against its purpose: on decimal ids it is the order of the numbers.
use native.Mathlib.Nat.{pow-suc, pow-le-pow_right}
use mastodon.Prelude.{
  Text, text_eq_iff, ℕ, suc, ◌+◌, ◌-◌, ◌*◌, ◌^◌, ◌≤◌, ◌<◌, length, ◌≡◌, refl, ◌⊎◌, inl, true, false,
  [], ◌∷◌, All, compare, arith,
}
use mastodon.CompareId.{text_gt, compare_id}

abbrev pub IsDigit : ℕ → Type 0
IsDigit c = (48 ≤ c) × (c ≤ 57)

-- The number that a string of digits stands for.
pub value : Text → ℕ
value [] = 0
value (c ∷ s) = (c - 48) * 10 ^ length s + value s

-- How a server prints a positive id: digits, the first of which is not 0.
abbrev pub IsDecimal : Text → Type 0
IsDecimal [] = ⊥
IsDecimal (c ∷ s) = (49 ≤ c) × All IsDigit (c ∷ s)

mul-le : (d e p : ℕ) → d ≤ e → d * p ≤ e * p
mul-le d e p h = grind arith

digit-block : (d v p : ℕ) → d ≤ 9 → v < p → d * p + v < p * 10
digit-block d v p h k = omega (arith, mul-le d 9 p h)

value-lt-pow : (s : Text) → All IsDigit s → value s < 10 ^ length s
unfolding value
value-lt-pow [] h = omega arith
value-lt-pow (c ∷ s) h =
    rw (pow-suc 10 (length s))
      (digit-block (c - 48) (value s) (10 ^ length s) (omega arith) (value-lt-pow s h.1))

pow-le-value : (c : ℕ) (s : Text) → 49 ≤ c → 10 ^ length s ≤ value (c ∷ s)
unfolding value
pow-le-value c s h = omega (arith, mul-le 1 (c - 48) (10 ^ length s) (omega arith))

-- With one length, the greater text is the greater number.
block-lt : (d e v w p : ℕ) → d < e → v < p → d * p + v < e * p + w
block-lt d e v w p h k = omega (arith, mul-le (suc d) e p h)

same-length :
    (a b : Text)
    → All IsDigit a
    → All IsDigit b
    → length a ≡ length b
    → ((a ≡ b) × (value a ≡ value b))
      ⊎ ((text_gt a b ≡ true) × (value b < value a))
      ⊎ ((text_gt a b ≡ false) × (value a < value b))
unfolding text_gt value
same-length [] [] h k e = inl (refl, refl)
same-length [] (y ∷ b) h k e = absurd (omega arith)
same-length (x ∷ a) [] h k e = absurd (omega arith)
same-length (x ∷ a) (y ∷ b) h k e =
    let n : length a ≡ length b = omega arith in
    ground (
      arith,
      n,
      same-length a b h.1 k.1 n,
      block-lt (x - 48) (y - 48) (value a) (value b) (10 ^ length b),
      block-lt (y - 48) (x - 48) (value b) (value a) (10 ^ length b),
      value-lt-pow a h.1,
      value-lt-pow b k.1,
    )

-- With two lengths, the longer text is the greater number.
shorter-lt : (a b : Text) → IsDecimal a → IsDecimal b → length a < length b → value a < value b
shorter-lt [] b h k lt = absurd h
shorter-lt (x ∷ a) [] h k lt = absurd k
shorter-lt (x ∷ a) (y ∷ b) (hx, dx) (hy, dy) h = omega (
  arith,
  value-lt-pow (x ∷ a) dx,
  pow-le-value y b hy,
  pow-le-pow_right {n = 10} (omega arith) {i = length (x ∷ a)} {j = length b} (omega arith),
)

IsDecimal-digits : (a : Text) → IsDecimal a → All IsDigit a
IsDecimal-digits [] h = absurd h
IsDecimal-digits (x ∷ a) (_, d) = d

-- On decimal ids, strings of digits without leading zeros, the comparison is that of the numbers.
pub compare_id-eq-compare :
    (a b : Text) → IsDecimal a → IsDecimal b → compare_id a b ≡ compare (value a) (value b)
unfolding compare_id
compare_id-eq-compare a b h k = ground (
  arith,
  text_eq_iff a b,
  same-length a b (IsDecimal-digits a h) (IsDecimal-digits b k),
  shorter-lt a b h k,
  shorter-lt b a k h,
)
