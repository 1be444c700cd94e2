-- ===== src/Streaming/Config/Credentials.antt =====
-- The user and the password of the database.
use mathlib.Core.Option.{none-ne-some, some-injective}
use mastodon.Prelude.{
  ℕ, Text, ◌≡◌, refl, ap, false, some, List, [], ◌∷◌, ◌++◌, any, ◌==◌, is_empty, if◌then◌else◌,
  Bool-cases, inl, inr, arith,
}
use mastodon.Streaming.Config.{ParsedUrl, split_on, first_part, db_url_to_config}

-- A text up to the first such character.
abbrev pub until : ℕ → Text → Text
until c [] = []
until c (d ∷ s) = let rest = until c s in if d == c then [] else d ∷ rest

first_part-split_on : (c : ℕ) (s : Text) → first_part (split_on c s) ≡ some (until c s)
unfolding split_on
first_part-split_on c [] = refl
first_part-split_on c (d ∷ s) = elim (Bool-cases (d == c)) [
  | inl e ↦ rw e refl
  | inr e ↦ rw e (grown d (until c s) (split_on c s) (first_part-split_on c s))
]
  where
    grown :
        (d : ℕ) (part : Text) (parts : List Text)
        → first_part parts ≡ some part
        → first_part (elim parts [ [] ↦ (d ∷ []) ∷ [] | p ∷ rest ↦ (d ∷ p) ∷ rest ])
          ≡ some (d ∷ part)
    grown d part [] e = absurd (none-ne-some part e)
    grown d part (p ∷ rest) e = ap (λ q. some (d ∷ q)) (some-injective p part e)

-- What stands before the character is the first part, and the others are those of what follows.
split_on-append :
    (c : ℕ) (before s : Text)
    → any (λ d. d == c) before ≡ false
    → split_on c (before ++ (c ∷ s)) ≡ before ∷ split_on c s
unfolding split_on
split_on-append c [] s h = ground arith
split_on-append c (d ∷ before) s h =
    rw (split_on-append c before s (ground (arith, h))) (ground (arith, h))

until_self : (c : ℕ) (s : Text) → any (λ d. d == c) s ≡ false → until c s ≡ s
until_self c [] h = refl
until_self c (d ∷ s) h = ground (arith, h, until_self c s (ground (arith, h)))

not_empty : (user password : Text) → is_empty (user ++ (58 ∷ password)) ≡ false
not_empty [] password = refl
not_empty (c ∷ user) password = refl

-- A user without a colon and a password are read from `user:password` as the user, and as the
-- password up to its first colon: the whole password if it has none, and a part if it has one.
pub db_url_to_config-credentials :
    (params : ParsedUrl) (user password : Text)
    → params.auth ≡ some (user ++ (58 ∷ password))
    → any (λ d. d == 58) user ≡ false
    → ((db_url_to_config (some params)).user ≡ some user)
      × ((db_url_to_config (some params)).password ≡ some (until 58 password))
      × (any (λ d. d == 58) password ≡ false → until 58 password ≡ password)
unfolding db_url_to_config
db_url_to_config-credentials params user password e h = (
  rw (e, not_empty user password, split_on-append 58 user password h) refl,
  rw (e, not_empty user password, split_on-append 58 user password h)
      (first_part-split_on 58 password),
  until_self 58 password,
)
