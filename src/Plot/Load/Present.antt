-- ===== src/Plot/Load/Present.antt =====
-- runner/plot.py: the servers that the report shows.
use game_bench.Common.{
  ◌≡◌, refl, sym, ap, ◌∙◌, Bool, true, false, ◌&&◌, ◌||◌, not, List, [], ◌∷◌, ◌++◌, Bool-cases, inl,
  inr, arith,
}
use game_bench.Py.Text.{Text, text_eq, text_eq_sound}
use game_bench.Plot.Load.{order, member, add, server_set, before, insert, sorted, keep, present_of}

pub or_swap : (a b c : Bool) → (a || (b || c)) ≡ (b || (a || c))
or_swap true true c = refl
or_swap true false c = refl
or_swap false true c = refl
or_swap false false c = refl

member_same : (s t : Text) (ts : List Text) → text_eq t s ≡ true → member s ts ≡ member t ts
member_same s t ts h = ap (λ u. member u ts) (sym (text_eq_sound t s h))

pub member-append :
    (s : Text) (ts us : List Text) → member s (ts ++ us) ≡ (member s ts || member s us)
unfolding member
member-append s [] us = refl
member-append s (t ∷ ts) us = grind (arith, member-append s ts us)

-- A test that the text before it already meets adds nothing.
absorbed :
    (s t : Text) (ts : List Text) → member t ts ≡ true → member s ts ≡ (text_eq t s || member s ts)
absorbed s t ts h = elim (Bool-cases (text_eq t s)) [
  | inl same ↦ rw same (member_same s t ts same ∙ h)
  | inr differ ↦ rw differ
]

member-add : (s t : Text) (ts : List Text) → member s (add t ts) ≡ (text_eq t s || member s ts)
unfolding member add
member-add s t ts = elim (Bool-cases (member t ts)) [
  | inl there ↦ rw there (absorbed s t ts there)
  | inr new ↦ rw new
]

pub member-server_set : (s : Text) (rows : List Text) → member s (server_set rows) ≡ member s rows
unfolding member server_set
member-server_set s [] = refl
member-server_set s (t ∷ rows) =
    member-add s t (server_set rows) ∙ ap (λ b. text_eq t s || b) (member-server_set s rows)

pub member-insert :
    (s t : Text) (ts : List Text) → member s (insert t ts) ≡ (text_eq t s || member s ts)
unfolding member insert
member-insert s t [] = refl
member-insert s t (u ∷ ts) = elim (Bool-cases (before u t)) [
  | inl first ↦ rw first (
      ap (λ b. text_eq u s || b) (member-insert s t ts)
      ∙ or_swap (text_eq u s) (text_eq t s) (member s ts))
  | inr last ↦ rw last
]

pub member-sorted : (s : Text) (ts : List Text) → member s (sorted ts) ≡ member s ts
unfolding member sorted
member-sorted s [] = refl
member-sorted s (t ∷ ts) =
    member-insert s t (sorted ts) ∙ ap (λ b. text_eq t s || b) (member-sorted s ts)

-- What `keep` leaves of a head that the test takes, and of one that it does not.
kept_head :
    (p : Text → Bool) (s t : Text) (b : Bool)
    → p t ≡ true
    → (text_eq t s || (b && p s)) ≡ ((text_eq t s || b) && p s)
kept_head p s t b h = elim (Bool-cases (text_eq t s)) [
  | inl same ↦ rw same (sym h ∙ ap p (text_eq_sound t s same))
  | inr differ ↦ rw differ
]

dropped_head :
    (p : Text → Bool) (s t : Text) (b : Bool)
    → p t ≡ false
    → (b && p s) ≡ ((text_eq t s || b) && p s)
dropped_head p s t b h = elim (Bool-cases (text_eq t s)) [
  | inl same ↦
      let no : p s ≡ false = ap p (sym (text_eq_sound t s same)) ∙ h in rw (same, no) (ground arith)
  | inr differ ↦ rw differ
]

pub member-keep :
    (p : Text → Bool) (s : Text) (ts : List Text) → member s (keep p ts) ≡ (member s ts && p s)
unfolding member keep
member-keep p s [] = refl
member-keep p s (t ∷ ts) = elim (Bool-cases (p t)) [
  | inl taken ↦
      rw taken
        (ap (λ b. text_eq t s || b) (member-keep p s ts) ∙ kept_head p s t (member s ts) taken)
  | inr left ↦ rw left (member-keep p s ts ∙ dropped_head p s t (member s ts) left)
]

either : (a b : Bool) → ((a && b) || (b && not a)) ≡ b
either true true = refl
either true false = refl
either false true = refl
either false false = refl

pub member-present_of : (s : Text) (ts : List Text) → member s (present_of ts) ≡ member s ts
unfolding present_of
member-present_of s ts =
    member-append s (keep (λ t. member t ts) order) _
    ∙ ap (λ b. b || member s (sorted (keep (λ t. not (member t order)) ts)))
        (member-keep (λ t. member t ts) s order)
    ∙ ap (λ b. (member s order && member s ts) || b)
        (member-sorted s _ ∙ member-keep (λ t. not (member t order)) s ts)
    ∙ either (member s order) (member s ts)

-- A list of texts with no double.
abbrev pub Unique : List Text → Type 0
Unique [] = Unit
Unique (s ∷ ts) = (member s ts ≡ false) × Unique ts

add-Unique : (s : Text) (ts : List Text) → Unique ts → Unique (add s ts)
unfolding add
add-Unique s ts h = elim (Bool-cases (member s ts)) [
  | inl there ↦ rw there h
  | inr new ↦ rw new (new, h)
]

pub server_set-Unique : (rows : List Text) → Unique (server_set rows)
unfolding server_set
server_set-Unique [] = tt
server_set-Unique (s ∷ rows) = add-Unique s (server_set rows) (server_set-Unique rows)

pub keep-Unique : (p : Text → Bool) (ts : List Text) → Unique ts → Unique (keep p ts)
unfolding keep
keep-Unique p [] h = tt
keep-Unique p (t ∷ ts) h = elim (Bool-cases (p t)) [
  | inl taken ↦ rw taken (member-keep p t ts ∙ ap (λ b. b && p t) h.0, keep-Unique p ts h.1)
  | inr left ↦ rw left (keep-Unique p ts h.1)
]
