-- ===== src/Plot/Escape/Attributes.antt =====
-- runner/plot.py: a name that `esc` puts between the quotes of an attribute, as in `data-server`.
use game_bench.Common.{
  ℕ, ◌≡◌, refl, ap, ◌∙◌, false, Bool-cases, inl, inr, [], ◌∷◌, ◌++◌, ◌==◌, ==_iff, append_assoc,
  if◌then◌else◌,
}
use game_bench.Py.Text.{Text}
use game_bench.Plot.Escape.{esc, replace}
use game_bench.Plot.Escape.Entities.{entity, unescape, unescape-entity, esc_cons}

-- A text up to its first double quote.
abbrev pub before_quote : Text → Text
before_quote [] = []
before_quote (c ∷ s) = let rest = before_quote s in if c == b'"' then [] else c ∷ rest

before_quote-entity :
    (c : ℕ) (s : Text)
    → (c == b'"') ≡ false
    → before_quote (entity c ++ s) ≡ entity c ++ before_quote s
before_quote-entity c s h = elim (Bool-cases (c == b'&')) [
  | inl amp ↦ rw amp
  | inr plain ↦ elim (Bool-cases (c == b'<')) [
    | inl less ↦ rw (plain, less)
    | inr upto ↦ elim (Bool-cases (c == b'>')) [
      | inl more ↦ rw (plain, upto, more)
      | inr other ↦ rw (plain, upto, other) (rw h)
    ]
  ]
]

-- From the attribute that an escaped name stands in, a reader of HTML gets the name up to its first
-- double quote: the whole name only where it has none.
pub esc-before_quote :
    (s after : Text) → unescape (before_quote (esc s ++ b'"' ∷ after)) ≡ before_quote s
unfolding esc replace
esc-before_quote [] after = refl
esc-before_quote (c ∷ s) after =
    ap (λ (t : Text). unescape (before_quote (t ++ b'"' ∷ after))) (esc_cons c s)
    ∙ ap (λ (t : Text). unescape (before_quote t)) (append_assoc (entity c) (esc s) (b'"' ∷ after))
    ∙ elim (Bool-cases (c == b'"')) [
      | inl quote ↦ rw ((==_iff c b'"').0 quote)
      | inr other ↦ rw other (
          ap unescape (before_quote-entity c (esc s ++ b'"' ∷ after) other)
          ∙ unescape-entity c (before_quote (esc s ++ b'"' ∷ after))
          ∙ ap (λ (t : Text). c ∷ t) (esc-before_quote s after))
    ]
