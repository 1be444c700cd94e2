-- ===== src/Thunks/TagHistory.antt =====
-- The tags that the compose form remembers (insertIntoTagHistory of
-- app/javascript/mastodon/actions/compose.js).
use mastodon.Prelude.{
  ℕ, zero, suc, ◌≤◌, Text, text_eq, text_eq_iff, ◌≡◌, Bool, true, false, ◌||◌, List, [], ◌∷◌, ◌++◌,
  any, take, filter_not, length, length-take-le, refl, Bool-cases, inl, inr, arith, if◌then◌else◌,
}
use mastodon.Compose.Mentions.{IsDistinct}
use mastodon.Thunks.Submit.{new_history}

abbrev among : Text → List Text → Bool
among w = any (λ v. text_eq v w)

among-filter_not :
    (p : Text → Bool) (w : Text) (ws : List Text)
    → among w ws ≡ false
    → among w (filter_not p ws) ≡ false
among-filter_not p w [] h = h
among-filter_not p w (v ∷ ws) h = ground (arith, h, among-filter_not p w ws)

IsDistinct-filter_not :
    (p : Text → Bool) (ws : List Text) → IsDistinct ws → IsDistinct (filter_not p ws)
IsDistinct-filter_not p [] h = tt
IsDistinct-filter_not p (w ∷ ws) h = elim (Bool-cases (p w)) [
  | inl e ↦ rw e (IsDistinct-filter_not p ws h.1)
  | inr e ↦ rw e (among-filter_not p w ws h.0, IsDistinct-filter_not p ws h.1)
]

among-take : (n : ℕ) (w : Text) (ws : List Text) → among w ws ≡ false → among w (take n ws) ≡ false
among-take zero w ws h = refl
among-take (suc n) w [] h = refl
among-take (suc n) w (v ∷ ws) h = ground (arith, h, among-take n w ws)

IsDistinct-take : (n : ℕ) (ws : List Text) → IsDistinct ws → IsDistinct (take n ws)
IsDistinct-take zero ws h = tt
IsDistinct-take (suc n) [] h = tt
IsDistinct-take (suc n) (w ∷ ws) h = (among-take n w ws h.0, IsDistinct-take n ws h.1)

-- What is left of the old names when those that are posted again are taken out.
abbrev others : List Text → List Text → List Text
others names = filter_not (λ name. any (λ n. text_eq n name) names)

among-others :
    (names old : List Text) (w : Text)
    → among w (others names old) ≡ (if among w names then false else among w old)
among-others names [] w = ground arith
among-others names (v ∷ old) w = ground (arith, among-others names old w, text_eq_iff v w)

among-append : (w : Text) (vs ws : List Text) → among w (vs ++ ws) ≡ (among w vs || among w ws)
among-append w [] ws = refl
among-append w (v ∷ vs) ws = ground (arith, among-append w vs ws)

-- The names that are put in front do not stand among those that follow.
IsDistinct-append :
    (front names old : List Text)
    → ((w : Text) → among w front ≡ true → among w names ≡ true)
    → IsDistinct front
    → IsDistinct old
    → IsDistinct (front ++ others names old)
IsDistinct-append [] names old posted f h = IsDistinct-filter_not _ old h
IsDistinct-append (w ∷ front) names old posted f h = (
  ground (
    arith,
    among-append w front (others names old),
    among-others names old w,
    posted w (ground (arith, text_eq_iff w w)),
    f.0,
  ),
  IsDistinct-append front names old (λ v e. posted v (ground (arith, e))) f.1 h,
)

-- The history has 1000 names at most, and if no name stood twice in it or among the tags of the new
-- status, none does afterwards.
pub new_history-IsDistinct :
    (names old_history : List Text)
    → IsDistinct names
    → IsDistinct old_history
    → (length (new_history names old_history) ≤ 1000) × IsDistinct (new_history names old_history)
unfolding new_history
new_history-IsDistinct names old_history n h = (
  length-take-le 1000 (names ++ others names old_history),
  IsDistinct-take 1000 (names ++ others names old_history)
      (IsDistinct-append names names old_history (λ w e. e) n h),
)
