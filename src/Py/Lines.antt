-- ===== src/Py/Lines.antt =====
-- str.splitlines over ASCII, and what `strip` and it make of a text whose last line is known.
use game_bench.Common.{
  ℕ, ◌≡◌, ◌⊎◌, inl, inr, refl, ap, ◌∙◌, Bool, true, false, ◌&&◌, ◌||◌, List, [], ◌∷◌, ◌++◌,
  append_assoc, ◌==◌, leb, if◌then◌else◌, All, Bool-cases, sym, append-nil,
}
use game_bench.Py.Text.{Text, is_space, lstrip, rstrip, strip, rstrip_cons}

abbrev pub is_break : ℕ → Bool
is_break c = (leb 10 c && leb c 13) || (leb 28 c && leb c 30)

-- The line that is left at the end of the text, which is not empty.
last_piece : Text → List Text
last_piece [] = []
last_piece (c ∷ s) = (c ∷ s) ∷ []

-- `cur` is the line so far; `cr` tells that a carriage return was just read.
unfoldable pub lines_from : Bool → Text → Text → List Text
unfolding last_piece
lines_from cr cur [] = last_piece cur
lines_from cr cur (c ∷ s) =
    let joined = lines_from false [] s in
    let next = lines_from (c == 13) [] s in
    let more = lines_from false (cur ++ c ∷ []) s in
    if cr && (c == 10) then joined else if is_break c then cur ∷ next else more

unfoldable pub splitlines : Text → List Text
unfolding lines_from
splitlines s = lines_from false [] s

-- xs[-1], or `d` where there is none
abbrev pub last_or {ℓ} : {A : Type ℓ} → A → List A → A
last_or d [] = d
last_or d (x ∷ xs) = last_or x xs

abbrev pub NoBreak : Text → Type 0
NoBreak = All (λ c. is_break c ≡ false)

lines_from_line :
    (b : ℕ) (cur s : Text) → NoBreak s → lines_from false (b ∷ cur) s ≡ (b ∷ cur ++ s) ∷ []
unfolding lines_from last_piece
lines_from_line b cur [] h = ap (λ (t : Text). (b ∷ t) ∷ []) (sym (append-nil cur))
lines_from_line b cur (c ∷ s) h = rw h.0 (
    lines_from_line b (cur ++ c ∷ []) s h.1
    ∙ ap (λ (t : Text). (b ∷ t) ∷ []) (append_assoc cur (c ∷ []) s))

lines_from_one : (c : ℕ) (s : Text) → NoBreak (c ∷ s) → lines_from false [] (c ∷ s) ≡ (c ∷ s) ∷ []
unfolding lines_from
lines_from_one c s h = rw h.0 (lines_from_line c [] s h.1)

last-lines_from :
    (cr : Bool) (cur q : Text) (c : ℕ) (s d : Text)
    → NoBreak (c ∷ s)
    → last_or d (lines_from cr cur (q ++ 10 ∷ c ∷ s)) ≡ c ∷ s
unfolding lines_from
last-lines_from true cur [] c s d h = ap (last_or d) (lines_from_one c s h)
last-lines_from false cur [] c s d h = ap (last_or cur) (lines_from_one c s h)
last-lines_from cr cur (b ∷ q) c s d h = elim (Bool-cases (cr && (b == 10))) [
  | inl joined ↦ rw joined (last-lines_from false [] q c s d h)
  | inr apart ↦ elim (Bool-cases (is_break b)) [
    | inl ends ↦ rw (apart, ends) (last-lines_from (b == 13) [] q c s cur h)
    | inr more ↦ rw (apart, more) (last-lines_from false (cur ++ b ∷ []) q c s d h)
  ]
]

abbrev pub Blank : Text → Type 0
Blank = All (λ c. is_space c ≡ true)

rstrip_cons_some :
    (c : ℕ) (q : Text) (b : ℕ) (u : Text) → rstrip_cons c (q ++ b ∷ u) ≡ c ∷ q ++ b ∷ u
unfolding rstrip_cons
rstrip_cons_some c [] b u = refl
rstrip_cons_some c (d ∷ q) b u = refl

rstrip-append : (q t : Text) (b : ℕ) (u : Text) → rstrip t ≡ b ∷ u → rstrip (q ++ t) ≡ q ++ b ∷ u
unfolding rstrip
rstrip-append [] t b u h = h
rstrip-append (c ∷ q) t b u h =
    ap (rstrip_cons c) (rstrip-append q t b u h) ∙ rstrip_cons_some c q b u

rstrip-Blank : (gap : Text) → Blank gap → rstrip gap ≡ []
unfolding rstrip rstrip_cons
rstrip-Blank [] h = refl
rstrip-Blank (c ∷ gap) h = ap (rstrip_cons c) (rstrip-Blank gap h.1) ∙ rw h.0

rstrip-append-Blank : (s gap : Text) → Blank gap → rstrip (s ++ gap) ≡ rstrip s
unfolding rstrip
rstrip-append-Blank [] gap h = rstrip-Blank gap h
rstrip-append-Blank (c ∷ s) gap h = ap (rstrip_cons c) (rstrip-append-Blank s gap h)

lstrip_line :
    (before : Text) (c : ℕ) (u : Text)
    → is_space c ≡ false
    → ((q : Text) × (lstrip (before ++ 10 ∷ c ∷ u) ≡ q ++ 10 ∷ c ∷ u))
      ⊎ (lstrip (before ++ 10 ∷ c ∷ u) ≡ c ∷ u)
unfolding lstrip
lstrip_line [] c u h = inr (rw h)
lstrip_line (b ∷ before) c u h = elim (Bool-cases (is_space b)) [
  | inl space ↦ rw space (lstrip_line before c u h)
  | inr other ↦ inl (b ∷ before, rw other)
]

-- The last line of a text, with white space behind it.
pub last_strip :
    (before : Text) (c : ℕ) (s gap : Text)
    → is_space c ≡ false
    → rstrip (c ∷ s) ≡ c ∷ s
    → NoBreak (c ∷ s)
    → Blank gap
    → last_or [] (splitlines (strip (before ++ 10 ∷ c ∷ (s ++ gap)))) ≡ c ∷ s
unfolding splitlines strip
last_strip before c s gap h trim line blank =
    let tail = rstrip-append-Blank (c ∷ s) gap blank ∙ trim in
    elim (lstrip_line before c (s ++ gap) h) [
      | inl (q, e) ↦
          ap (λ (t : Text). last_or [] (lines_from false [] (rstrip t))) e
          ∙ ap (λ (t : Text). last_or [] (lines_from false [] t))
              (rstrip-append q (10 ∷ c ∷ (s ++ gap)) 10 (c ∷ s)
                (rstrip-append (10 ∷ []) (c ∷ (s ++ gap)) c s tail))
          ∙ last-lines_from false [] q c s [] line
      | inr e ↦
          ap (λ (t : Text). last_or [] (lines_from false [] (rstrip t))) e
          ∙ ap (λ (t : Text). last_or [] (lines_from false [] t)) tail
          ∙ ap (last_or []) (lines_from_one c s line)
    ]
