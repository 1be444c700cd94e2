-- ===== src/Compose/Privacy.antt =====
-- Who can see a reply, by the privacy level that it is given.
use mastodon.Prelude.{
  ℕ, zero, suc, ◌≤◌, leb, max, Text, codes, text_eq, text_eq_iff, ◌≡◌, ◌∙◌, refl, ap, Bool, true,
  not, ◌||◌, ◌&&◌, some, arith,
}
use mastodon.Entities.{StatusView}
use mastodon.Actions.{compose_reply}
use mastodon.ComposeText.{privacy_index, privacy_preference, order}
use mastodon.Compose.State.{Compose, Env}
use mastodon.Compose.Edits.{reply}
use mastodon.Compose.{compose}

-- Those who read the public timelines, those who have the link, the followers, and the accounts that
-- are mentioned.
pub data Audience : Type 0 where
  public_timelines link followers mentioned : Audience

-- Whether a status with this visibility reaches them: an unlisted one stays off the public
-- timelines, a private one is for followers, a direct one for those who are mentioned.
abbrev pub reaches : Audience → Text → Bool
reaches public_timelines v =
    not (text_eq v (codes "unlisted") || text_eq v (codes "private") || text_eq v (codes "direct"))
reaches link v = not (text_eq v (codes "private") || text_eq v (codes "direct"))
reaches followers v = not (text_eq v (codes "direct"))
reaches mentioned v = true

-- The last level that reaches them.
abbrev bound : Audience → ℕ
bound public_timelines = 0
bound link = 1
bound followers = 2
bound mentioned = 3

reaches-leb : (a : Audience) (v : Text) → reaches a v ≡ leb (privacy_index v) (bound a)
unfolding privacy_index
reaches-leb public_timelines v = ground arith
reaches-leb link v = ground (
  arith,
  text_eq_iff v (codes "unlisted"),
  text_eq_iff v (codes "private"),
  text_eq_iff v (codes "direct"),
)
reaches-leb followers v = ground (
  arith,
  text_eq_iff v (codes "unlisted"),
  text_eq_iff v (codes "private"),
  text_eq_iff v (codes "direct"),
)
reaches-leb mentioned v = ground arith

privacy_index-order : (i : ℕ) → i ≤ 3 → privacy_index (order i) ≡ i
unfolding privacy_index text_eq
privacy_index-order zero h = refl
privacy_index-order (suc zero) h = refl
privacy_index-order (suc (suc zero)) h = refl
privacy_index-order (suc (suc (suc zero))) h = refl
privacy_index-order (suc (suc (suc (suc i)))) h = omega arith

privacy_index-le : (a : Text) → privacy_index a ≤ 3
unfolding privacy_index
privacy_index-le a = ground arith

leb-max : (i j b : ℕ) → leb (max i j) b ≡ (leb i b && leb j b)
leb-max i j b = ground arith

privacy_preference-reaches :
    (a : Audience) (v w : Text) → reaches a (privacy_preference v w) ≡ (reaches a v && reaches a w)
unfolding privacy_preference
privacy_preference-reaches a v w =
    let strictest =
      privacy_index-order (max (privacy_index v) (privacy_index w))
        (omega (arith, privacy_index-le v, privacy_index-le w)) in
    rw (reaches-leb a v, reaches-leb a w)
      (reaches-leb a (order (max (privacy_index v) (privacy_index w)))
        ∙ ap (λ i. leb i (bound a)) strictest
        ∙ leb-max (privacy_index v) (privacy_index w) (bound a))

-- A reply is given a level with which it reaches those, and only those, whom both the status that it
-- answers and a status with the user's default level reach; a level that is not known reaches all.
pub reply-reaches :
    (env : Env) (state : Compose) (status : StatusView)
    → (p : Text) × (compose env state (compose_reply status) ≡ some (reply env state status))
      × ((reply env state status).privacy ≡ some p)
      × ((a : Audience)
          → reaches a p ≡ (reaches a status.visibility && reaches a state.default_privacy))
unfolding compose reply
reply-reaches env state status = (
  privacy_preference status.visibility state.default_privacy,
  refl,
  refl,
  λ a. privacy_preference-reaches a status.visibility state.default_privacy,
)
