-- ===== src/ComposeText.antt =====
-- The functions on strings of app/javascript/mastodon/reducers/compose.js: insertion at the caret,
-- mentions, and the order of the privacy levels.
use mastodon.Prelude.{
  ℕ, zero, suc, max, Text, codes, text_eq, option_eq, Bool, true, false, ◌&&◌, ◌||◌, not, leb, ◌==◌,
  Option, some, List, [], ◌∷◌, ◌++◌, map, if◌then◌else◌, take, drop, filter_not, is_empty, any,
}
use mastodon.Entities.{Mention, StatusView}

-- The code units that `trim` takes away.
abbrev pub is_space : ℕ → Bool
is_space c =
    leb 9 c && leb c 13
    || (c == 32
        || (c == 160
            || (c == 5760
                || (leb 8192 c && leb c 8202
                    || (c == 8232
                        || (c == 8233
                            || (c == 8239 || (c == 8287 || (c == 12288 || c == 65279)))))))))

unfoldable pub trim_start : Text → Text
trim_start [] = []
trim_start (c ∷ text) = if is_space c then trim_start text else c ∷ text

unfoldable pub trim_end : Text → Text
trim_end [] = []
trim_end (c ∷ text) =
    let rest = trim_end text in if is_space c && is_empty rest then [] else c ∷ rest

abbrev pub trim : Text → Text
trim text = trim_start (trim_end text)

abbrev pub starts_with : Text → Text → Bool
starts_with [] text = true
starts_with (c ∷ prefix) [] = false
starts_with (c ∷ prefix) (d ∷ text) = c == d && starts_with prefix text

abbrev pub space : Text
space = 32 ∷ []

-- `[a, b].filter(str => str.length !== 0).join(' ')`.
unfoldable pub join_words : Text → Text → Text
join_words [] [] = []
join_words [] (d ∷ b) = d ∷ b
join_words (c ∷ a) [] = c ∷ a
join_words (c ∷ a) (d ∷ b) = (c ∷ a) ++ (space ++ (d ∷ b))

-- `@acct `.
abbrev pub at : Text → Text
at acct = 64 ∷ (acct ++ space)

unfoldable pub add_mention : Text → Text → Text
unfolding join_words
add_mention text acct = join_words (trim text) (at acct)

-- The ordered set keeps the first of equal entries.
unfoldable pub add_to_set : List Text → Text → List Text
add_to_set set word = if any (λ w. text_eq w word) set then set else set ++ (word ∷ [])

unfoldable pub union : List Text → List Text → List Text
unfolding add_to_set
union set [] = set
union set (word ∷ words) = union (add_to_set set word) words

abbrev pub concat : List Text → Text
concat [] = []
concat (w ∷ ws) = w ++ concat ws

unfoldable pub mention_set : Option Text → StatusView → List Text
unfolding union
mention_set me status =
    union (if not (option_eq (some status.account.id) me) then at status.account.acct ∷ [] else [])
      (map (λ (m : Mention). at m.acct)
        (filter_not (λ (m : Mention). option_eq (some m.id) me) status.mentions))

unfoldable pub status_to_text_mentions : Option Text → StatusView → Text
unfolding mention_set
status_to_text_mentions me status = concat (mention_set me status)

-- `${text.slice(0, position)}${word} ${text.slice(end)}`.
abbrev pub splice : Text → ℕ → Text → ℕ → Text
splice text position word end = take position text ++ (word ++ (space ++ drop end text))

-- `max(order.indexOf(a), 0)` for the order of the privacy levels.
unfoldable pub privacy_index : Text → ℕ
privacy_index a =
    if text_eq a (codes "unlisted")
    then 1
    else if text_eq a (codes "private")
    then 2
    else if text_eq a (codes "direct")
    then 3
    else 0

abbrev pub order : ℕ → Text
order zero = codes "public"
order (suc zero) = codes "unlisted"
order (suc (suc zero)) = codes "private"
order (suc (suc (suc i))) = codes "direct"

unfoldable pub privacy_preference : Text → Text → Text
unfolding privacy_index
privacy_preference a b = order (max (privacy_index a) (privacy_index b))
