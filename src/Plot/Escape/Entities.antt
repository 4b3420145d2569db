-- ===== src/Plot/Escape/Entities.antt =====
-- runner/plot.py: `esc` against the entities of HTML.
use game_bench.Common.{
  ℕ, ◌≡◌, refl, sym, ap, subst, ◌∙◌, false, inl, inr, Option, none, some, [], ◌∷◌, ◌++◌,
  append_assoc, ◌==◌, ==_iff, if◌then◌else◌, Bool-cases, arith, Lacks,
}
use game_bench.Py.Text.{Text, codes, text_eq}
use game_bench.Plot.Escape.{replace, esc}

-- What a character of the text stands as in the page.
abbrev pub entity : ℕ → Text
entity c =
    if c == b'&'
    then codes "&amp;"
    else if c == b'<'
    then codes "&lt;"
    else if c == b'>'
    then codes "&gt;"
    else c ∷ []

replace-append : (c : ℕ) (by s t : Text) → replace c by (s ++ t) ≡ replace c by s ++ replace c by t
unfolding replace
replace-append c by [] t = refl
replace-append c by (d ∷ s) t = elim (Bool-cases (d == c)) [
  | inl same ↦ rw same (
      ap (λ u. by ++ u) (replace-append c by s t)
      ∙ sym (append_assoc by (replace c by s) (replace c by t)))
  | inr differ ↦ rw differ (ap (λ u. d ∷ u) (replace-append c by s t))
]

-- Escaping works piece by piece.
pub esc-append : (s t : Text) → esc (s ++ t) ≡ esc s ++ esc t
unfolding esc
esc-append s t =
    ap (λ u. replace b'>' (codes "&gt;") (replace b'<' (codes "&lt;") u))
      (replace-append b'&' (codes "&amp;") s t)
    ∙ ap (replace b'>' (codes "&gt;")) (replace-append b'<' (codes "&lt;") _ _)
    ∙ replace-append b'>' (codes "&gt;") _ _

esc_one : (c : ℕ) → esc (c ∷ []) ≡ entity c
unfolding esc replace
esc_one c = elim (Bool-cases (c == b'&')) [
  | inl amp ↦ rw amp
  | inr plain ↦ elim (Bool-cases (c == b'<')) [
    | inl less ↦ rw (plain, less)
    | inr upto ↦ rw (plain, upto)
  ]
]

pub esc_cons : (c : ℕ) (s : Text) → esc (c ∷ s) ≡ entity c ++ esc s
esc_cons c s = esc-append (c ∷ []) s ∙ ap (λ u. u ++ esc s) (esc_one c)

-- What a browser reads: the name of an entity, from & to ;, stands for its character.
abbrev pub named : Text → Text
named name =
    if text_eq name (codes "amp")
    then b'&' ∷ []
    else if text_eq name (codes "lt")
    then b'<' ∷ []
    else if text_eq name (codes "gt")
    then b'>' ∷ []
    else b'&' ∷ name ++ b';' ∷ []

abbrev pub read_name : Option Text → Text → Text
read_name none [] = []
read_name (some name) [] = b'&' ∷ name
read_name none (c ∷ s) =
    let inside = read_name (some []) s in
    let plain = read_name none s in if c == b'&' then inside else c ∷ plain
read_name (some name) (c ∷ s) =
    let done = read_name none s in
    let more = read_name (some (name ++ c ∷ [])) s in if c == b';' then named name ++ done else more

abbrev pub unescape : Text → Text
unescape = read_name none

read_plain : (c : ℕ) (s : Text) → (c == b'&') ≡ false → unescape (c ∷ s) ≡ c ∷ unescape s
read_plain c s h = rw h

pub unescape-entity : (c : ℕ) (s : Text) → unescape (entity c ++ s) ≡ c ∷ unescape s
unfolding text_eq
unescape-entity c s = elim (Bool-cases (c == b'&')) [
  | inl amp ↦ rw amp (ap (λ d. d ∷ unescape s) (sym ((==_iff c b'&').0 amp)))
  | inr plain ↦ elim (Bool-cases (c == b'<')) [
    | inl less ↦ rw (plain, less) (ap (λ d. d ∷ unescape s) (sym ((==_iff c b'<').0 less)))
    | inr upto ↦ elim (Bool-cases (c == b'>')) [
      | inl more ↦ rw (plain, upto, more) (ap (λ d. d ∷ unescape s) (sym ((==_iff c b'>').0 more)))
      | inr other ↦ rw (plain, upto, other) (read_plain c s plain)
    ]
  ]
]

-- No character of an escaped text opens or closes a tag.
abbrev pub IsSafe : Text → Type 0
IsSafe s = Lacks b'<' s × Lacks b'>' s

pub IsSafe-append : (s t : Text) → IsSafe s → IsSafe t → IsSafe (s ++ t)
IsSafe-append [] t h k = k
IsSafe-append (c ∷ s) t h k =
    let rest = IsSafe-append s t (h.0.1, h.1.1) k in ((h.0.0, rest.0), (h.1.0, rest.1))

entity-IsSafe : (c : ℕ) → IsSafe (entity c)
entity-IsSafe c = elim (Bool-cases (c == b'&')) [
  | inl amp ↦ rw amp (ground arith)
  | inr plain ↦ elim (Bool-cases (c == b'<')) [
    | inl less ↦ rw (plain, less) (ground arith)
    | inr upto ↦ elim (Bool-cases (c == b'>')) [
      | inl more ↦ rw (plain, upto, more) (ground arith)
      | inr other ↦ rw (plain, upto, other) (ground arith)
    ]
  ]
]

-- Any text that is escaped has no < and no > left, and a reader of HTML gets the text back from it.
pub esc-unescape : (s : Text) → IsSafe (esc s) × (unescape (esc s) ≡ s)
unfolding esc replace
esc-unescape [] = ((tt, tt), refl)
esc-unescape (c ∷ s) =
    let rest = esc-unescape s in
    (
      subst IsSafe (sym (esc_cons c s)) (IsSafe-append (entity c) (esc s) (entity-IsSafe c) rest.0),
      ap unescape (esc_cons c s) ∙ unescape-entity c (esc s) ∙ ap (λ t. c ∷ t) rest.1,
    )
