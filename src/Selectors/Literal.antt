-- ===== src/Selectors/Literal.antt =====
-- What the regular expression of a filter is.
use mastodon.Prelude.{
  ℕ, Text, ◌≡◌, refl, ap, Bool, false, codes, any, ◌==◌, Option, none, some, [], ◌∷◌, if◌then◌else◌,
  Bool-cases, inl, inr, arith,
}
use mastodon.Selectors.{is_special, escape_reg_exp}

-- The characters `^ $ \ . * + ? ( ) [ ] { } |`, which ECMAScript's grammar of regular expressions
-- calls SyntaxCharacter. A backslash before one of them makes it stand for itself; before another
-- character it may begin a class, an assertion or a reference.
abbrev pub is_syntax : ℕ → Bool
is_syntax c = any (λ d. d == c) (codes "^$\\.*+?()[]{}|")

abbrev consed : ℕ → Option Text → Option Text
consed c none = none
consed c (some s) = some (c ∷ s)

-- The text that the source of a regular expression stands for, if it is made only of characters that
-- stand for themselves and of escaped syntax characters.
abbrev pub literal : Text → Option Text
literal [] = some []
literal (c ∷ []) = if is_syntax c then none else some (c ∷ [])
literal (c ∷ d ∷ s) =
    let escaped = literal s in
    let plain = literal (d ∷ s) in
    if c == 92
    then if is_syntax d then consed d escaped else none
    else if is_syntax c
    then none
    else consed c plain

is_special-is_syntax : (c : ℕ) → is_special c ≡ is_syntax c
is_special-is_syntax c = ground arith

-- An escaped phrase, read as the source of a regular expression, is the phrase and nothing else.
pub literal-escape_reg_exp : (s : Text) → literal (escape_reg_exp s) ≡ some s
unfolding escape_reg_exp
literal-escape_reg_exp [] = refl
literal-escape_reg_exp (c ∷ s) = elim (Bool-cases (is_special c)) [
  | inl e ↦ rw (e, ← is_special-is_syntax c, e) (ap (consed c) (literal-escape_reg_exp s))
  | inr e ↦ rw e (plain c (escape_reg_exp s) s e (literal-escape_reg_exp s))
]
  where
    plain :
        (c : ℕ) (t s : Text)
        → is_special c ≡ false
        → literal t ≡ some s
        → literal (c ∷ t) ≡ some (c ∷ s)
    plain c [] s e h = ground (arith, e, h, is_special-is_syntax c)
    plain c (d ∷ t) s e h = ground (arith, e, h, is_special-is_syntax c)
