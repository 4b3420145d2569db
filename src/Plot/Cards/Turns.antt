-- ===== src/Plot/Cards/Turns.antt =====
-- runner/plot.py: the order of the servers of the cards: those of ORDER in its order, then the others by
-- name, against the list that `timeline_body` looks a server up in.
use game_bench.Common.{
  ℕ, suc, ◌≡◌, refl, sym, ap, ◌∙◌, Bool, true, false, ◌&&◌, ◌||◌, List, [], ◌∷◌, ◌==◌, ltb, leb,
  if◌then◌else◌, All, All-mono, Bool-cases, inl, inr, arith,
}
use game_bench.Py.Text.{Text, text_eq, text_eq_refl}
use game_bench.Plot.Load.{order, member, before, insert, sorted}
use game_bench.Plot.Load.Present.{Unique, member-sorted}

-- By code points, where a text is less than a longer one that begins with it.
abbrev pub less : Text → Text → Bool
less s [] = false
less [] (d ∷ t) = true
less (c ∷ s) (d ∷ t) = ltb c d || ((c == d) && less s t)

-- How many servers of a list stand before the first that is `s`.
abbrev pub standing : Text → List Text → ℕ
standing s [] = 0
standing s (t ∷ ts) = if text_eq t s then 0 else suc (standing s ts)

-- In the order of ORDER, and behind it by name.
abbrev pub earlier : Text → Text → Bool
earlier s t =
    ltb (standing s order) (standing t order)
    || ((standing s order == standing t order) && less s t)

-- The card of the first key may stand before that of the second.
abbrev pub in_turn : Text × ℕ → Text × ℕ → Bool
in_turn (s, c) (t, d) = earlier s t || (text_eq s t && leb c d)

-- Every key may stand before every later one.
abbrev pub IsInTurn : List (Text × ℕ) → Type 0
IsInTurn [] = Unit
IsInTurn (k ∷ ks) = All (λ j. in_turn k j ≡ true) ks × IsInTurn ks

before_less : (s t : Text) → before s t ≡ less s t
unfolding before
before_less [] [] = refl
before_less (c ∷ s) [] = refl
before_less [] (d ∷ t) = refl
before_less (c ∷ s) (d ∷ t) = ground (arith, before_less s t)

less_total : (s t : Text) → less t s ≡ false → text_eq t s ≡ false → less s t ≡ true
unfolding text_eq
less_total [] [] h k = cc
less_total (c ∷ s) [] h k = cc
less_total [] (d ∷ t) h k = refl
less_total (c ∷ s) (d ∷ t) h k = ground (arith, less_total s t)

less_trans : (s t u : Text) → less s t ≡ true → less t u ≡ true → less s u ≡ true
less_trans s t [] h k = ground arith
less_trans s [] (e ∷ u) h k = ground arith
less_trans [] (d ∷ t) (e ∷ u) h k = refl
less_trans (c ∷ s) (d ∷ t) (e ∷ u) h k = ground (arith, less_trans s t u)

-- Each is less than every later one, and so for `earlier`.
abbrev pub Ascends : (Text → Text → Bool) → List Text → Type 0
Ascends first [] = Unit
Ascends first (s ∷ ts) = All (λ t. first s t ≡ true) ts × Ascends first ts

module _ {ℓ} (P : Text → Type ℓ) where
  All-insert : (s : Text) (ts : List Text) → P s → All P ts → All P (insert s ts)
  unfolding insert
  All-insert s [] p h = (p, tt)
  All-insert s (t ∷ ts) p h = elim (Bool-cases (before t s)) [
    | inl first ↦ rw first (h.0, All-insert s ts p h.1)
    | inr last ↦ rw last (p, h)
  ]

  pub All-member : (ts : List Text) → ((t : Text) → member t ts ≡ true → P t) → All P ts
  unfolding member
  All-member [] h = tt
  All-member (t ∷ ts) h = (
    h t (ap (λ b. b || member t ts) (text_eq_refl t)),
    All-member ts (λ u m. h u (ground (arith, ap (λ b. text_eq t u || b) m))),
  )

insert-Ascends :
    (s : Text) (ts : List Text) → member s ts ≡ false → Ascends less ts → Ascends less (insert s ts)
unfolding insert member
insert-Ascends s [] new h = (tt, tt)
insert-Ascends s (t ∷ ts) new h = elim (Bool-cases (before t s)) [
  | inl first ↦ rw first (
    All-insert (λ u. less t u ≡ true) s ts (sym (before_less t s) ∙ first) h.0,
    insert-Ascends s ts (ground arith) h.1,
  )
  | inr last ↦
      let down = less_total s t (sym (before_less t s) ∙ last) (ground arith) in
      rw last ((down, All-mono (λ u up. less_trans s t u down up) ts h.0), h)
]

pub sorted-Ascends : (ts : List Text) → Unique ts → Ascends less (sorted ts)
unfolding sorted
sorted-Ascends [] h = tt
sorted-Ascends (t ∷ ts) h =
    insert-Ascends t (sorted ts) (member-sorted t ts ∙ h.0) (sorted-Ascends ts h.1)
