-- ===== src/Compose/Caret.antt =====
-- Where an inserted suggestion or emoji puts the caret.
use mastodon.Prelude.{
  ℕ, zero, suc, ◌+◌, ◌≤◌, Text, ◌≡◌, refl, ap, Option, some, List, [], ◌∷◌, ◌++◌, append_assoc,
  length, length-append, take, drop, Bool, if◌then◌else◌, arith,
}
use mastodon.Entities.{Emoji}
use mastodon.Actions.{compose_suggestion_select, compose_emoji_insert}
use mastodon.ComposeText.{space, splice}
use mastodon.Compose.State.{Compose, Env}
use mastodon.Compose.Edits.{insert_suggestion, insert_emoji}
use mastodon.Compose.{compose}

length-take {ℓ} : {A : Type ℓ} (n : ℕ) (xs : List A) → n ≤ length xs → length (take n xs) ≡ n
length-take zero xs h = refl
length-take (suc n) [] h = omega arith
length-take (suc n) (x ∷ xs) h = ap suc (length-take n xs (omega arith))

take-append {ℓ} : {A : Type ℓ} (xs ys : List A) → take (length xs) (xs ++ ys) ≡ xs
take-append [] ys = refl
take-append (x ∷ xs) ys = ap (x ∷◌) (take-append xs ys)

drop-append {ℓ} : {A : Type ℓ} (xs ys : List A) → drop (length xs) (xs ++ ys) ≡ ys
drop-append [] ys = refl
drop-append (x ∷ xs) ys = drop-append xs ys

-- A text is split at the caret in what was typed, the word and a space, and the rest.
abbrev pub IsSplit : Text → Text → Text → Text → Option ℕ → Type 0
IsSplit text before word rest caret =
    (text ≡ (before ++ (word ++ space)) ++ rest)
    × (caret ≡ some (length (before ++ (word ++ space))))

splice-IsSplit :
    (text word : Text) (position end : ℕ)
    → position ≤ length text
    → IsSplit
        (splice text position word end)
        (take position text)
        word
        (drop end text)
        (some (position + length word + 1))
splice-IsSplit text word position end h = (
  rw (append_assoc (take position text) (word ++ space) (drop end text))
      (rw (append_assoc word space (drop end text)) refl),
  ap some (
      rw (length-append (take position text) (word ++ space), length-take position text h)
        (rw (length-append word space) (omega arith))),
)

-- Where the position lies in the text, a suggestion takes the place of the token, and an emoji is
-- put at the position after the space that it needs; either is followed by a space, the caret is
-- right behind that space, and the rest of the text stays.
pub inserted-IsSplit :
    (env : Env) (state : Compose) (position : ℕ) (token completion : Text) (emoji : Emoji)
    (needs_space : Bool)
    → position ≤ length state.text
    → let selected = insert_suggestion env state position token completion in
      let inserted = insert_emoji env state position emoji needs_space in
      (compose env state (compose_suggestion_select position token completion) ≡ some selected)
      × (compose env state (compose_emoji_insert position emoji needs_space) ≡ some inserted)
      × IsSplit selected.text
          (take position state.text)
          completion
          (drop (position + length token) state.text)
          selected.caret_position
      × IsSplit inserted.text
          (take position state.text)
          (if needs_space then 32 ∷ emoji.native else emoji.native)
          (drop position state.text)
          inserted.caret_position
unfolding compose insert_suggestion insert_emoji
inserted-IsSplit env state position token completion emoji needs_space h = (
  refl,
  refl,
  splice-IsSplit state.text completion position (position + length token) h,
  splice-IsSplit state.text _ position position h,
)
