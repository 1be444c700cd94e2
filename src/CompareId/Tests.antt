-- ===== src/CompareId/Tests.antt =====
-- compare_id.js at concrete ids.
use mastodon.Prelude.{codes, ◌≡◌, refl, Ordering, compare, text_eq, arith}
use mastodon.CompareId.{compare_id, text_gt}
use mastodon.CompareId.Decimal.{value, compare_id-eq-compare}
use mastodon.CompareId.Order.{Newer, Newer-trans}

longer_id : compare_id (codes "100") (codes "99") ≡ Ordering.gt
unfolding compare_id text_gt text_eq
longer_id = refl

compare_id-eq-compare_example :
    compare_id (codes "100") (codes "99") ≡ compare (value (codes "100")) (value (codes "99"))
compare_id-eq-compare_example =
    compare_id-eq-compare (codes "100") (codes "99") (omega arith) (omega arith)

Newer-trans_example : Newer (codes "100") (codes "98")
unfolding compare_id text_gt text_eq
Newer-trans_example = Newer-trans (codes "100") (codes "99") (codes "98") refl refl
