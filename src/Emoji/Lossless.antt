-- ===== src/Emoji/Lossless.antt =====
-- The end of the scanner, and the text of its pieces.
use mathlib.Core.List.{append_assoc}
use mathlib.Core.Path.{subst}
use mastodon.Prelude.{
  ℕ, zero, suc, ◌+◌, ◌<◌, Text, ◌≡◌, ◌∙◌, ap, sym, refl, Bool, true, false, ◌==◌, ◌&&◌, Option,
  none, some, List, [], ◌∷◌, ◌++◌, any, length, length-append, is_some, is_empty, get, IfSome,
  Bool-cases, inl, inr, arith, not, if◌then◌else◌,
}
use mastodon.ComposeText.{starts_with}
use mastodon.Emoji.{
  Emojis, Piece, verbatim, unicode, custom_image, Scanner, Turn, break, go, is_stop, is_pair, scan,
  split_after, no_emoji, colon_turn, tag_turn, drop_text, emoji_turn, turn_at, turn, loop, prepend,
  pieces_of, tag_chars_with_emojis,
}

-- What the search is relied on for: the emoji that it finds stands at the beginning and is not empty.
abbrev pub IsSearch : (Text → Option Text) → Type 0
IsSearch search =
    (s : Text)
    → IfSome (λ match. (starts_with match s ≡ true) × (is_empty match ≡ false)) (search s)

abbrev pub text_of : Piece → Text
text_of (verbatim s) = s
text_of (unicode match) = match
text_of (custom_image name) = name

-- The text that pieces stand for, before a rest.
abbrev pub source : List Piece → Text → Text
source [] rest = rest
source (p ∷ pieces) rest = text_of p ++ source pieces rest

-- A turn puts the text away into pieces, and some of it.
abbrev IsLossless : Text → Turn → Type 0
IsLossless s break = Unit
IsLossless s (go st pieces rest) = (source pieces rest ≡ s) × (length rest < length s)

scan-append :
    (emojis : Emojis) (st : Scanner) (inside : Bool) (s : Text)
    → (scan emojis st inside s).0 ++ (scan emojis st inside s).1 ≡ s
unfolding scan
scan-append emojis st inside [] = refl
scan-append emojis st inside (c ∷ s) = elim (Bool-cases (not inside && is_stop emojis st (c ∷ s))) [
  | inl e ↦ rw e refl
  | inr e ↦ rw e (ap (c ∷◌) (scan-append emojis st (is_pair c s && not inside) s))
]

split_after-append :
    (d : ℕ) (s : Text) → IfSome (λ (p : Text × Text). p.0 ++ p.1 ≡ s) (split_after d s)
unfolding split_after
split_after-append d [] = tt
split_after-append d (c ∷ s) = elim (Bool-cases (c == d)) [
  | inl e ↦ rw e refl
  | inr e ↦ rw e (longer c s (split_after d s) (split_after-append d s))
]
  where
    longer :
        (c : ℕ) (s : Text) (o : Option (Text × Text))
        → IfSome (λ (p : Text × Text). p.0 ++ p.1 ≡ s) o
        → IfSome
            (λ (p : Text × Text). p.0 ++ p.1 ≡ c ∷ s)
            (elim o [ none ↦ none | some (upto, rest) ↦ some (c ∷ upto, rest) ])
    longer c s none h = tt
    longer c s (some (upto, rest)) h = ap (c ∷◌) h

-- The rest of a text is shorter where something before it is not empty.
shorter :
    (before s rest upto : Text) (c : ℕ)
    → upto ++ rest ≡ s
    → length rest < length (before ++ (c ∷ s))
shorter before s rest upto c e =
    ground (arith, length-append before (c ∷ s), length-append upto rest, ap length e)

no_emoji-IsLossless :
    (st : Scanner) (before s : Text) → IsLossless (before ++ (58 ∷ s)) (no_emoji st before s)
no_emoji-IsLossless st before s = (append_assoc before (58 ∷ []) s, shorter before s s [] 58 refl)

colon_turn-IsLossless :
    (emojis : Emojis) (st : Scanner) (before s : Text) (o : Option (Text × Text))
    → IfSome (λ (p : Text × Text). p.0 ++ p.1 ≡ s) o
    → IsLossless (before ++ (58 ∷ s)) (colon_turn emojis st before s o)
unfolding colon_turn
colon_turn-IsLossless emojis st before s none h = no_emoji-IsLossless st before s
colon_turn-IsLossless emojis st before s (some (upto, rest)) h =
    elim (Bool-cases (any (λ c. c == 60) upto)) [
      | inl e ↦ rw e (no_emoji-IsLossless st before s)
      | inr e ↦ rw e (elim (Bool-cases (is_some (get (58 ∷ upto) emojis.custom))) [
        | inl f ↦ rw f (ap (λ t. before ++ (58 ∷ t)) h, shorter before s rest upto 58 h)
        | inr f ↦ rw f (no_emoji-IsLossless st before s)
      ])
    ]

tag_turn-IsLossless :
    (emojis : Emojis) (st : Scanner) (before s : Text) (c : ℕ) (o : Option (Text × Text))
    → IfSome (λ (p : Text × Text). p.0 ++ p.1 ≡ s) o
    → IsLossless (before ++ (c ∷ s)) (tag_turn emojis st before c o)
unfolding tag_turn
tag_turn-IsLossless emojis st before s c none h = tt
tag_turn-IsLossless emojis st before s c (some (upto, rest)) h = (
  append_assoc before (c ∷ upto) rest ∙ ap (λ t. before ++ (c ∷ t)) h,
  shorter before s rest upto c h,
)

append-drop_text : (m s : Text) → starts_with m s ≡ true → m ++ drop_text m s ≡ s
append-drop_text [] s h = refl
append-drop_text (c ∷ m) [] h = ground (arith, h)
append-drop_text (c ∷ m) (d ∷ s) h = ground (arith, h, append-drop_text m s)

emoji_turn-IsLossless :
    (st : Scanner) (before s : Text) (c : ℕ) (o : Option Text)
    → IfSome (λ match. (starts_with match (c ∷ s) ≡ true) × (is_empty match ≡ false)) o
    → IsLossless (before ++ (c ∷ s)) (emoji_turn st before (c ∷ s) o)
emoji_turn-IsLossless st before s c none h = tt
emoji_turn-IsLossless st before s c (some []) h = ground (arith, h)
emoji_turn-IsLossless st before s c (some (d ∷ m)) h =
    let whole = append-drop_text (d ∷ m) (c ∷ s) h.0 in
    (
      ap (before ++◌) whole,
      ground
          (arith, length-append before (c ∷ s), length-append m (drop_text m s), ap length whole),
    )

other_turn-IsLossless :
    (emojis : Emojis) (st : Scanner) (before s : Text) (c : ℕ) (is_tag : Bool)
    → IsSearch emojis.search
    → IsLossless (before ++ (c ∷ s)) (
        if is_tag
        then tag_turn emojis st before c (split_after (if c == 60 then 62 else 59) s)
        else emoji_turn st before (c ∷ s) (emojis.search (c ∷ s)))
other_turn-IsLossless emojis st before s c true h =
    tag_turn-IsLossless emojis st before s c _ (split_after-append (if c == 60 then 62 else 59) s)
other_turn-IsLossless emojis st before s c false h =
    emoji_turn-IsLossless st before s c (emojis.search (c ∷ s)) (h (c ∷ s))

turn_at-IsLossless :
    (emojis : Emojis) (st : Scanner) (p : Text × Text)
    → IsSearch emojis.search
    → IsLossless (p.0 ++ p.1) (turn_at emojis st p)
unfolding turn_at
turn_at-IsLossless emojis st (before, []) h = tt
turn_at-IsLossless emojis st (before, c ∷ s) h = elim (Bool-cases (c == 58)) [
  | inl e ↦
      let colon : c ≡ 58 = ground (arith, e) in
      rw e (
        subst
          (λ d. IsLossless (before ++ (d ∷ s)) (colon_turn emojis st before s (split_after 58 s)))
          (sym colon)
          (colon_turn-IsLossless emojis st before s (split_after 58 s) (split_after-append 58 s)))
  | inr e ↦ rw e (other_turn-IsLossless emojis st before s c _ h)
]

turn-IsLossless :
    (emojis : Emojis) (st : Scanner) (s : Text)
    → IsSearch emojis.search
    → IsLossless s (turn emojis st s)
unfolding turn
turn-IsLossless emojis st s h =
    subst (λ t. IsLossless t (turn_at emojis st (scan emojis st false s)))
      (scan-append emojis st false s) (turn_at-IsLossless emojis st (scan emojis st false s) h)

source-append :
    (pieces others : List Piece) (rest : Text)
    → source (pieces ++ others) rest ≡ source pieces (source others rest)
source-append [] others rest = refl
source-append (p ∷ pieces) others rest = ap (text_of p ++◌) (source-append pieces others rest)

-- The loop comes to its end with pieces that stand for the text.
abbrev IsWhole : Text → Option (List Piece) → Type 0
IsWhole s result = (pieces : List Piece) × (result ≡ some pieces) × (source pieces [] ≡ s)

append_nil : (s : Text) → s ++ [] ≡ s
append_nil [] = refl
append_nil (c ∷ s) = ap (c ∷◌) (append_nil s)

prepend-IsWhole :
    (pieces : List Piece) (rest s : Text) (result : Option (List Piece))
    → source pieces rest ≡ s
    → IsWhole rest result
    → IsWhole s (prepend pieces result)
prepend-IsWhole pieces rest s result e (others, f, whole) = (
  pieces ++ others,
  ap (prepend pieces) f,
  source-append pieces others [] ∙ (ap (source pieces) whole ∙ e),
)

-- One turn, where the rest of the loop is as it should be.
loop-turn-IsWhole :
    (emojis : Emojis) (fuel : ℕ) (st : Scanner) (s : Text) (t : Turn)
    → ((after_it : Scanner) (rest : Text)
        → length rest < fuel
        → IsWhole rest (loop emojis fuel after_it rest))
    → length s < suc fuel
    → turn emojis st s ≡ t
    → IsLossless s t
    → IsWhole s (loop emojis (suc fuel) st s)
unfolding loop
loop-turn-IsWhole emojis fuel st s break later enough e lossless =
    rw (e, loop) (verbatim s ∷ [], refl, append_nil s)
loop-turn-IsWhole emojis fuel st s (go after_it pieces rest) later enough e (same, less) =
    rw (e, loop)
      (prepend-IsWhole pieces rest s (loop emojis fuel after_it rest) same
        (later after_it rest (ground (arith, less, enough))))

loop-IsWhole :
    (emojis : Emojis) (fuel : ℕ) (st : Scanner) (s : Text)
    → IsSearch emojis.search
    → length s < fuel
    → IsWhole s (loop emojis fuel st s)
loop-IsWhole emojis zero st s h enough = ground (arith, enough)
loop-IsWhole emojis (suc fuel) st s h enough =
    loop-turn-IsWhole emojis fuel st s (turn emojis st s)
      (λ after_it rest less. loop-IsWhole emojis fuel after_it rest h less) enough refl
      (turn-IsLossless emojis st s h)

-- Where the search finds an emoji only at the beginning of a text, and never an empty one, the loop
-- of emojify ends within one turn more than the text has code units; no text is lost: the pieces of
-- text that are kept and the texts that the images stand for make up the text, in order.
pub pieces_of-IsWhole :
    (emojis : Emojis) (s : Text)
    → IsSearch emojis.search
    → (pieces : List Piece) × (pieces_of emojis (length s + 1) s ≡ some pieces)
      × (source pieces [] ≡ s)
unfolding pieces_of
pieces_of-IsWhole emojis s h =
    loop-IsWhole emojis (length s + 1)
      (record { invisible = 0; colons = tag_chars_with_emojis emojis }) s h (ground arith)
