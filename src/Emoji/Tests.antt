-- ===== src/Emoji/Tests.antt =====
-- Emojis in short texts.
use mastodon.Prelude.{
  Text, codes, ◌≡◌, refl, ◌+◌, true, false, ◌==◌, Option, none, some, List, [], ◌∷◌, ◌++◌, length,
  Bool-cases, inl, inr, if◌then◌else◌, arith, Map,
}
use mastodon.Emoji.{Emojis, Piece, verbatim, unicode, custom_image, pieces_of}
use mastodon.Emoji.Lossless.{IsSearch, source, pieces_of-IsWhole}

-- The only emoji of the table is a smile.
abbrev find : Text → Option Text
find [] = none
find (c ∷ s) = if c == 9786 then some (9786 ∷ []) else none

abbrev emojis : Emojis
emojis = record {
  search = find;
  mapping = λ match. record { filename = codes "263a"; short_code = some (codes "relaxed") };
  custom = (codes ":cat:", record { url = codes "/cat.gif"; static_url = codes "/cat.png" }) ∷ [];
  auto_play_gif = false;
  asset_host = [];
}

find-IsSearch : IsSearch find
find-IsSearch [] = tt
find-IsSearch (c ∷ s) = elim (Bool-cases (c == 9786)) [
  | inl e ↦ rw e (ground (arith, e), refl)
  | inr e ↦ rw e tt
]

-- An emoji, a custom one, one that is unknown, and a tag.
abbrev line : Text
line = 9786 ∷ codes " :cat::dog:<a href=\":cat:\">"

pieces_of-IsWhole_example :
    (pieces : List Piece) × (pieces_of emojis (length line + 1) line ≡ some pieces)
    × (source pieces [] ≡ line)
pieces_of-IsWhole_example = pieces_of-IsWhole emojis line find-IsSearch

-- Nothing inside the tag is replaced.
pieces_of-line :
    pieces_of emojis 9 line
    ≡ some (
        verbatim []
        ∷ unicode (9786 ∷ [])
        ∷ verbatim (codes " ")
        ∷ custom_image (codes ":cat:")
        ∷ verbatim (codes ":")
        ∷ verbatim (codes "dog:")
        ∷ verbatim (codes "<a href=\":cat:\">")
        ∷ verbatim []
        ∷ [])
unfolding pieces_of mastodon.Prelude.get mastodon.Prelude.text_eq
pieces_of-line = refl
