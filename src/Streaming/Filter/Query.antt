-- ===== src/Streaming/Filter/Query.antt =====
-- The queries of the filter, their numbered parameters included, against plain descriptions.
use mastodon.Prelude.{
  suc, ◌+◌, ◌-◌, Text, text_eq, ◌≡◌, refl, ap, Bool, ◌&&◌, ◌||◌, some, List, [], ◌∷◌, ◌++◌,
  append_assoc, length, any, any-cong, get_elem?, arith,
}
use mastodon.Streaming.Database.{Database, Row}
use mastodon.Streaming.Filter.{
  Update, placeholders, param, is_in, targets_one_of, targets_reader, blocks_query,
  target_account_ids,
}

get_elem?-append :
    (before : List Text) (x : Text) (rest : List Text)
    → get_elem? (before ++ x ∷ rest) (length before) ≡ some x
get_elem?-append [] x rest = refl
get_elem?-append (y ∷ before) x rest = get_elem?-append before x rest

param-append :
    (before : List Text) (x : Text) (rest : List Text)
    → param (before ++ x ∷ rest) (1 + length before) ≡ some x
unfolding param
param-append before x rest =
    let n : (1 + length before) - 1 ≡ length before = omega arith in
    rw n (get_elem?-append before x rest)

length-snoc : (before : List Text) (x : Text) → length (before ++ x ∷ []) ≡ suc (length before)
length-snoc [] x = refl
length-snoc (y ∷ before) x = ap suc (length-snoc before x)

-- The numbers that `placeholders` gives are those of the listed values, behind the first ones.
is_in-placeholders :
    (before arr : List Text) (target : Text)
    → is_in (before ++ arr) target (placeholders arr (length before))
      ≡ any (λ x. text_eq x target) arr
unfolding is_in placeholders
is_in-placeholders before [] target = refl
is_in-placeholders before (x ∷ arr) target = rw (param-append before x arr) (
    ap (text_eq x target ||◌) (
      rw (append_assoc, length-snoc before x) at
        (is_in-placeholders (before ++ x ∷ []) arr target)))

-- The reader and someone whom the update concerns, its author or an account that it mentions, are
-- apart: the reader blocks or mutes one of them, or the author blocks the reader.
abbrev pub concerns : Update → Text → Bool
concerns u account = text_eq u.author_id account || any (λ x. text_eq x account) u.mentions

abbrev pub avoids : List Row → Text → Update → Bool
avoids rows reader u = any (λ (r : Row). text_eq reader r.account_id && concerns u r.target) rows

abbrev pub is_apart : Database → Text → Update → Bool
is_apart db reader u =
    avoids db.blocks reader u
    || (any (λ (r : Row). text_eq u.author_id r.account_id && text_eq reader r.target) db.blocks
        || avoids db.mutes reader u)

targets_one_of-avoids :
    (rows : List Row) (reader : Text) (u : Update)
    → targets_one_of rows
        (reader ∷ u.author_id ∷ target_account_ids u)
        (placeholders (target_account_ids u) 2)
      ≡ avoids rows reader u
unfolding targets_one_of param target_account_ids
targets_one_of-avoids rows reader u = any-cong _ _ rows (λ r.
    ap (text_eq reader r.account_id &&◌)
      (is_in-placeholders (reader ∷ u.author_id ∷ []) (u.author_id ∷ u.mentions) r.target))

-- With the parameters that the listener passes, the query finds a row exactly if they are apart.
pub blocks_query-is_apart :
    (db : Database) (reader : Text) (u : Update)
    → blocks_query db
        (reader ∷ u.author_id ∷ target_account_ids u)
        (placeholders (target_account_ids u) 2)
      ≡ is_apart db reader u
unfolding blocks_query targets_reader param
blocks_query-is_apart db reader u =
    rw (targets_one_of-avoids db.blocks reader u, targets_one_of-avoids db.mutes reader u) refl
