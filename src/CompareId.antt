-- ===== src/CompareId.antt =====
-- app/javascript/mastodon/compare_id.js: the order of status and notification ids, which are
-- strings. The result 0, 1 or -1 is `eq`, `gt` or `lt`.
pub mod Order
pub mod Decimal
mod Tests
use mastodon.Prelude.{
  Text, text_eq, length, Bool, true, false, ltb, ◌==◌, if◌then◌else◌, [], ◌∷◌, Ordering,
}

-- `a > b` on strings: by code units, and a proper extension of `b` is greater.
unfoldable pub text_gt : Text → Text → Bool
text_gt [] b = false
text_gt (x ∷ a) [] = true
text_gt (x ∷ a) (y ∷ b) = if x == y then text_gt a b else ltb y x

unfoldable pub compare_id : Text → Text → Ordering
compare_id id1 id2 =
    if text_eq id1 id2
    then Ordering.eq
    else (if length id1 == length id2
        then (if text_gt id1 id2 then Ordering.gt else Ordering.lt)
        else (if ltb (length id2) (length id1) then Ordering.gt else Ordering.lt))

-- The tests that the reducers make of the result: `>= 0`, `> 0` and `< 0`.
abbrev pub is_ge : Ordering → Bool
is_ge Ordering.lt = false
is_ge _ = true

abbrev pub is_gt : Ordering → Bool
is_gt Ordering.gt = true
is_gt _ = false

abbrev pub is_lt : Ordering → Bool
is_lt Ordering.lt = true
is_lt _ = false
