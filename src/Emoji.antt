-- ===== src/Emoji.antt =====
-- app/javascript/mastodon/features/emoji/emoji.js: a text with its emojis replaced by images. The
-- tables of emojis and the trie over them are outside: a search for the emoji that a text begins with,
-- and the image of each.
pub mod Lossless
mod Tests
use mastodon.Prelude.{
  ℕ, zero, suc, ◌+◌, ◌-◌, Text, codes, text_eq, Bool, true, false, ◌&&◌, ◌||◌, not, ltb, leb, ◌==◌,
  Option, none, some, List, [], ◌∷◌, ◌++◌, any, is_some, is_empty, Map, get, if◌then◌else◌, after,
}
use mastodon.ComposeText.{starts_with}

-- The entry of `unicodeMapping`.
pub record Image : Type 0 where
  pub filename : Text
  pub short_code : Option Text

pub record CustomEmoji : Type 0 where
  pub url : Text
  pub static_url : Text

pub record Emojis : Type 0 where
  pub search : Text → Option Text
  pub mapping : Text → Image
  pub custom : Map CustomEmoji
  pub auto_play_gif : Bool
  pub asset_host : Text

-- What the output is made of: text that is kept, and images with the text that each stands for.
pub data Piece : Type 0 where
  verbatim unicode custom_image : Text → Piece

-- How deep the text is in invisible elements, and whether colons are looked at.
pub record Scanner : Type 0 where
  pub invisible : ℕ
  pub colons : Bool

abbrev pub tag_chars_with_emojis : Emojis → Bool
tag_chars_with_emojis emojis = not (is_empty emojis.custom)

abbrev pub is_tag_char : Scanner → ℕ → Bool
is_tag_char st c = c == 60 || c == 38 || st.colons && c == 58

-- The condition of the inner loop fails.
unfoldable pub is_stop : Emojis → Scanner → Text → Bool
is_stop emojis st [] = true
is_stop emojis st (c ∷ s) =
    is_tag_char st c || (st.invisible == 0) && is_some (emojis.search (c ∷ s))

-- The first half of a code point beyond 65535.
abbrev pub is_pair : ℕ → Text → Bool
is_pair c [] = false
is_pair c (d ∷ s) = leb 55296 c && leb c 56319 && leb 56320 d && leb d 57343

abbrev pub push : ℕ → Text × Text → Text × Text
push c (before, rest) = (c ∷ before, rest)

-- The text before `i` and the text from there; `inside` is true in the middle of a code point.
unfoldable pub scan : Emojis → Scanner → Bool → Text → Text × Text
unfolding is_stop
scan emojis st inside [] = ([], [])
scan emojis st inside (c ∷ s) =
    let further = scan emojis st (is_pair c s && not inside) s in
    if not inside && is_stop emojis st (c ∷ s) then ([], c ∷ s) else push c further

-- The text up to and with the first such character, and what follows it.
unfoldable pub split_after : ℕ → Text → Option (Text × Text)
split_after d [] = none
split_after d (c ∷ s) =
    let later = split_after d s in
    if c == d
    then some (c ∷ [], s)
    else elim later [ none ↦ none | some (upto, rest) ↦ some (c ∷ upto, rest) ]

-- One turn of the outer loop: the text ends, or some of it is done with.
pub data Turn : Type 0 where
  break : Turn
  go : Scanner → List Piece → Text → Turn

-- `before` and the rest `58 ∷ s` of the text from the colon on.
abbrev pub no_emoji : Scanner → Text → Text → Turn
no_emoji st before s = go st (verbatim (before ++ (58 ∷ [])) ∷ []) s

unfoldable pub colon_turn : Emojis → Scanner → Text → Text → Option (Text × Text) → Turn
colon_turn emojis st before s none = no_emoji st before s
colon_turn emojis st before s (some (upto, rest)) =
    if any (λ c. c == 60) upto
    then no_emoji st before s
    else if is_some (get (58 ∷ upto) emojis.custom)
    then go st (verbatim before ∷ custom_image (58 ∷ upto) ∷ []) rest
    else no_emoji st before s

-- `str[rend - 2]`.
abbrev pub last_but_one : ℕ → Text → ℕ
last_but_one c [] = c
last_but_one c (d ∷ []) = c
last_but_one c (d ∷ e ∷ s) = last_but_one d (e ∷ s)

abbrev pub opens : Scanner → Scanner
opens st = record st { invisible = st.invisible + 1 }

abbrev pub closes : Emojis → Scanner → Scanner
closes emojis st = record {
  invisible = st.invisible - 1;
  colons = if st.invisible - 1 == 0 then tag_chars_with_emojis emojis else st.colons;
}

-- What a tag, with `upto` after its `<`, does to the scanner.
unfoldable pub after_tag : Emojis → Scanner → Text → Scanner
after_tag emojis st upto =
    if not (st.invisible == 0)
    then if starts_with (codes "/") upto
      then closes emojis st
      else if last_but_one 60 upto == 47
      then st
      else opens st
    else if starts_with (codes "span class=\"invisible\">") upto
    then record { invisible = 1; colons = false }
    else st

unfoldable pub tag_turn : Emojis → Scanner → Text → ℕ → Option (Text × Text) → Turn
unfolding after_tag
tag_turn emojis st before c none = break
tag_turn emojis st before c (some (upto, rest)) =
    go (if c == 60 then after_tag emojis st upto else st) (verbatim (before ++ (c ∷ upto)) ∷ [])
      rest

abbrev pub drop_text : Text → Text → Text
drop_text [] s = s
drop_text (c ∷ m) [] = []
drop_text (c ∷ m) (d ∷ s) = drop_text m s

abbrev pub emoji_turn : Scanner → Text → Text → Option Text → Turn
emoji_turn st before rest none = break
emoji_turn st before rest (some match) =
    go st (verbatim before ∷ unicode match ∷ []) (drop_text match rest)

unfoldable pub turn_at : Emojis → Scanner → Text × Text → Turn
unfolding colon_turn tag_turn split_after
turn_at emojis st (before, []) = break
turn_at emojis st (before, c ∷ s) =
    if c == 58
    then colon_turn emojis st before s (split_after 58 s)
    else if is_tag_char st c
    then tag_turn emojis st before c (split_after (if c == 60 then 62 else 59) s)
    else emoji_turn st before (c ∷ s) (emojis.search (c ∷ s))

unfoldable pub turn : Emojis → Scanner → Text → Turn
unfolding scan turn_at
turn emojis st s = turn_at emojis st (scan emojis st false s)

abbrev pub prepend : List Piece → Option (List Piece) → Option (List Piece)
prepend pieces none = none
prepend pieces (some rest) = some (pieces ++ rest)

-- The outer loop, on fuel; `none` if the fuel runs out.
unfoldable pub loop : Emojis → ℕ → Scanner → Text → Option (List Piece)
unfolding turn
loop emojis zero st s = none
loop emojis (suc fuel) st s = elim (turn emojis st s) [
  | break ↦ some (verbatim s ∷ [])
  | go after_it pieces rest ↦ prepend pieces (loop emojis fuel after_it rest)
]

unfoldable pub pieces_of : Emojis → ℕ → Text → Option (List Piece)
unfolding loop
pieces_of emojis fuel s =
    loop emojis fuel (record { invisible = 0; colons = tag_chars_with_emojis emojis }) s

abbrev pub img : Text → Text → Text → Text
img alt title src =
    codes "<img draggable=\"false\" class=\"emojione\" alt=\""
    ++ (alt ++ (codes "\" title=\"" ++ (title ++ (codes "\" src=\"" ++ (src ++ codes "\" />")))))

abbrev pub title_of : Option Text → Text
title_of none = []
title_of (some code) = if is_empty code then [] else 58 ∷ code ++ (58 ∷ [])

abbrev pub source_of : Emojis → Option CustomEmoji → Text
source_of emojis none = []
source_of emojis (some e) = if emojis.auto_play_gif then e.url else e.static_url

unfoldable pub render_piece : Emojis → Piece → Text
render_piece emojis (verbatim s) = s
render_piece emojis (custom_image name) = img name name (source_of emojis (get name emojis.custom))
render_piece emojis (unicode match) =
    img match (title_of (emojis.mapping match).short_code)
      (emojis.asset_host ++ (codes "/emoji/" ++ ((emojis.mapping match).filename ++ codes ".svg")))

unfoldable pub render : Emojis → List Piece → Text
unfolding render_piece
render emojis [] = []
render emojis (p ∷ pieces) = render_piece emojis p ++ render emojis pieces
