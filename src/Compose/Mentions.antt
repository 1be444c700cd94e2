-- ===== src/Compose/Mentions.antt =====
-- The mentions that a reply begins with.
use mastodon.Prelude.{
  any-append, ◌∙◌, Text, text_eq, text_eq_iff, option_eq, ◌≡◌, refl, ap, inl, inr, Bool, false,
  ◌&&◌, ◌||◌, not, Option, some, List, [], ◌∷◌, ◌++◌, map, filter_not, any, set, Bool-cases, arith,
}
use mastodon.Entities.{Mention, StatusView}
use mastodon.ComposeText.{at, add_to_set, union, mention_set}

abbrev includes : List Text → Text → Bool
includes set w = any (λ v. text_eq v w) set

-- No word stands twice.
abbrev pub IsDistinct : List Text → Type 0
IsDistinct [] = Unit
IsDistinct (w ∷ ws) = (any (λ v. text_eq v w) ws ≡ false) × IsDistinct ws

IsDistinct-snoc :
    (set : List Text) (w : Text)
    → includes set w ≡ false
    → IsDistinct set
    → IsDistinct (set ++ (w ∷ []))
IsDistinct-snoc [] w new h = (refl, tt)
IsDistinct-snoc (v ∷ set) w new h = (
  ground (
    arith,
    new,
    h.0,
    any-append (λ u. text_eq u v) set (w ∷ []),
    text_eq_iff v w,
    text_eq_iff w v,
  ),
  IsDistinct-snoc set w (ground (arith, new)) h.1,
)

add_to_set-IsDistinct :
    (set : List Text) (w : Text) → IsDistinct set → IsDistinct (add_to_set set w)
unfolding add_to_set
add_to_set-IsDistinct set w h = elim (Bool-cases (includes set w)) [
  | inl old ↦ rw (old, add_to_set) h
  | inr new ↦ rw (new, add_to_set) (IsDistinct-snoc set w new h)
]

includes-add_to_set :
    (set : List Text) (w x : Text) → includes (add_to_set set w) x ≡ (includes set x || text_eq w x)
unfolding add_to_set
includes-add_to_set set w x = elim (Bool-cases (includes set w)) [
  | inl old ↦ rw (old, add_to_set) (ground (arith, text_eq_iff w x, old))
  | inr new ↦ rw (new, add_to_set) (ground (arith, any-append (λ u. text_eq u x) set (w ∷ [])))
]

union-IsDistinct : (set words : List Text) → IsDistinct set → IsDistinct (union set words)
unfolding union
union-IsDistinct set [] h = h
union-IsDistinct set (w ∷ words) h =
    union-IsDistinct (add_to_set set w) words (add_to_set-IsDistinct set w h)

includes-union :
    (set words : List Text) (x : Text)
    → includes (union set words) x ≡ (includes set x || includes words x)
unfolding union
includes-union set [] x = ground arith
includes-union set (w ∷ words) x =
    ground (arith, includes-union (add_to_set set w) words x, includes-add_to_set set w x)

-- The mentions that are not of the user.
abbrev others : Option Text → List Mention → List Text
others me mentions =
    map (λ (m : Mention). at m.acct)
      (filter_not (λ (m : Mention). option_eq (some m.id) me) mentions)

includes-mentions :
    (me : Option Text) (mentions : List Mention) (x : Text)
    → includes (others me mentions) x
      ≡ any (λ (m : Mention). not (option_eq (some m.id) me) && text_eq (at m.acct) x) mentions
includes-mentions me [] x = refl
includes-mentions me (m ∷ mentions) x = elim (Bool-cases (option_eq (some m.id) me)) [
  | inl own ↦ rw own (includes-mentions me mentions x)
  | inr other ↦ rw other (ap (text_eq (at m.acct) x ||◌) (includes-mentions me mentions x))
]

-- The words that a reply begins with are the mentions of the author and of those that the status
-- mentions, but for the user, each of them once.
pub mention_set-IsDistinct :
    (me : Option Text) (status : StatusView)
    → IsDistinct (mention_set me status)
      × ((x : Text)
          → any (λ w. text_eq w x) (mention_set me status) ≡ (
              not (option_eq (some status.account.id) me) && text_eq (at status.account.acct) x
              || any
                  (λ (m : Mention). not (option_eq (some m.id) me) && text_eq (at m.acct) x)
                  status.mentions))
unfolding mention_set
mention_set-IsDistinct me status = elim (Bool-cases (option_eq (some status.account.id) me)) [
  | inl own ↦
      rw (own, mention_set)
        (
          union-IsDistinct [] (others me status.mentions) tt,
          λ x.
              includes-union [] (others me status.mentions) x
              ∙ includes-mentions me status.mentions x,
        )
  | inr other ↦
      rw (other, mention_set)
        (
          union-IsDistinct (at status.account.acct ∷ []) (others me status.mentions) (refl, tt),
          λ x. ground (
            arith,
            includes-union (at status.account.acct ∷ []) (others me status.mentions) x,
            includes-mentions me status.mentions x,
          ),
        )
]
