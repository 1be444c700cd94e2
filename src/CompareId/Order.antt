-- ===== src/CompareId/Order.antt =====
-- compare_id.js is a strict linear order on ids.
use mastodon.Prelude.{
  Text, text_eq_iff, length, ◌<◌, ◌≡◌, refl, ◌↔◌, ◌⊎◌, inl, true, false, [], ◌∷◌, Ordering, arith,
}
use mastodon.CompareId.{text_gt, compare_id}

-- One of two different texts is the greater one, and not both.
text_gt-total :
    (a b : Text)
    → (a ≡ b)
      ⊎ ((text_gt a b ≡ true) × (text_gt b a ≡ false))
      ⊎ ((text_gt a b ≡ false) × (text_gt b a ≡ true))
unfolding text_gt
text_gt-total [] [] = inl refl
text_gt-total [] (y ∷ b) = ground arith
text_gt-total (x ∷ a) [] = ground arith
text_gt-total (x ∷ a) (y ∷ b) = ground (arith, text_gt-total a b)

text_gt_trans : (a b c : Text) → text_gt a b ≡ true → text_gt b c ≡ true → text_gt a c ≡ true
unfolding text_gt
text_gt_trans [] b c h k = cc
text_gt_trans (x ∷ a) [] c h k = cc
text_gt_trans (x ∷ a) (y ∷ b) [] h k = refl
text_gt_trans (x ∷ a) (y ∷ b) (z ∷ c) h k = ground (arith, text_gt_trans a b c)

abbrev pub flip : Ordering → Ordering
flip Ordering.lt = Ordering.gt
flip Ordering.eq = Ordering.eq
flip Ordering.gt = Ordering.lt

pub compare_id-flip : (a b : Text) → compare_id b a ≡ flip (compare_id a b)
unfolding compare_id
compare_id-flip a b = ground (arith, text_eq_iff a b, text_eq_iff b a, text_gt-total a b)

pub compare_id-eq_iff : (a b : Text) → (compare_id a b ≡ Ordering.eq) ↔ (a ≡ b)
unfolding compare_id
compare_id-eq_iff a b = ground (arith, text_eq_iff a b)

text_gt_irrefl : (a : Text) → text_gt a a ≡ false
unfolding text_gt
text_gt_irrefl [] = refl
text_gt_irrefl (x ∷ a) = ground (arith, text_gt_irrefl a)

-- `a` is the newer id.
abbrev pub Newer : Text → Text → Type 0
Newer a b = compare_id a b ≡ Ordering.gt

Newer-iff :
    (a b : Text)
    → Newer a b ↔ ((length b < length a) ⊎ ((length a ≡ length b) × (text_gt a b ≡ true)))
unfolding compare_id
Newer-iff a b = (
  ground (arith, text_eq_iff a b),
  ground (arith, text_eq_iff a b, text_gt_irrefl a, text_gt_irrefl b),
)

pub Newer-trans : (a b c : Text) → Newer a b → Newer b c → Newer a c
Newer-trans a b c h k =
    (Newer-iff a c).1
      (ground (arith, (Newer-iff a b).0 h, (Newer-iff b c).0 k, text_gt_trans a b c))

pub Newer-irrefl : (a : Text) → ¬ Newer a a
Newer-irrefl a h = ground (arith, (compare_id-eq_iff a a).1 refl)
