-- ===== src/Plot/Load/Distinct.antt =====
-- runner/plot.py: the servers of the report against those of the rows, counted.
use game_bench.Common.{
  ◌≡◌, refl, sym, ap, ◌∙◌, Bool, true, false, ◌&&◌, ◌||◌, not, List, [], ◌∷◌, ◌++◌, Bool-cases, inl,
  inr, arith,
}
use game_bench.Py.Text.{Text, text_eq, text_eq_refl, text_eq_sound}
use game_bench.Plot.Load.{
  order, member, server_set, before, insert, sorted, keep, present_of, present,
}
use game_bench.Plot.Load.Present.{
  Unique, member-append, member-insert, member-sorted, member-keep, keep-Unique, server_set-Unique,
  member-present_of, member-server_set,
}

text_eq_flip : (s t : Text) → text_eq t s ≡ false → text_eq s t ≡ false
text_eq_flip s t h = elim (Bool-cases (text_eq s t)) [
  | inl same ↦
      let e : s ≡ t = text_eq_sound s t same in ap (text_eq s) (sym e) ∙ ap (λ u. text_eq u s) e ∙ h
  | inr differ ↦ differ
]

or_left : (a b : Bool) → (a || b) ≡ false → a ≡ false
or_left true b h = cc
or_left false b h = refl

or_right : (a b : Bool) → (a || b) ≡ false → b ≡ false
or_right true b h = cc
or_right false b h = h

insert-Unique : (s : Text) (ts : List Text) → member s ts ≡ false → Unique ts → Unique (insert s ts)
unfolding insert member
insert-Unique s [] new h = (refl, tt)
insert-Unique s (t ∷ ts) new h = elim (Bool-cases (before t s)) [
  | inl first ↦
      let apart : text_eq s t ≡ false =
        text_eq_flip s t (or_left (text_eq t s) (member s ts) new) in
      let out : member t (insert s ts) ≡ false =
        member-insert t s ts ∙ ap (λ b. b || member t ts) apart ∙ h.0 in
      rw first (out, insert-Unique s ts (or_right (text_eq t s) (member s ts) new) h.1)
  | inr last ↦ rw last (new, h)
]

sorted-Unique : (ts : List Text) → Unique ts → Unique (sorted ts)
unfolding sorted
sorted-Unique [] h = tt
sorted-Unique (t ∷ ts) h =
    insert-Unique t (sorted ts) (member-sorted t ts ∙ h.0) (sorted-Unique ts h.1)

append-Unique :
    (ts us : List Text)
    → Unique ts
    → Unique us
    → (disjoint : (s : Text) → member s ts ≡ true → member s us ≡ false) → Unique (ts ++ us)
unfolding member
append-Unique [] us h k disjoint = k
append-Unique (t ∷ ts) us h k disjoint =
    let there : member t (t ∷ ts) ≡ true = ap (λ b. b || member t ts) (text_eq_refl t) in
    (
      member-append t ts us ∙ ap (λ b. b || member t us) h.0 ∙ disjoint t there,
      append-Unique ts us h.1 k (λ s e. disjoint s (ground (arith, ap (λ b. text_eq t s || b) e))),
    )

order-Unique : Unique order
unfolding member text_eq
order-Unique = (refl, (refl, (refl, (refl, (refl, (refl, (refl, tt)))))))

exclude : (a b : Bool) → (a && b) ≡ true → (b && not a) ≡ false
exclude true true h = refl
exclude true false h = refl
exclude false b h = cc

apart :
    (s : Text) (ts : List Text)
    → (member s order && member s ts) ≡ true
    → member s (sorted (keep (λ t. not (member t order)) ts)) ≡ false
apart s ts h =
    member-sorted s (keep (λ t. not (member t order)) ts)
    ∙ member-keep (λ t. not (member t order)) s ts
    ∙ exclude (member s order) (member s ts) h

present_of-Unique : (ts : List Text) → Unique ts → Unique (present_of ts)
unfolding present_of
present_of-Unique ts h =
    append-Unique (keep (λ t. member t ts) order) (sorted (keep (λ t. not (member t order)) ts))
      (keep-Unique (λ t. member t ts) order order-Unique)
      (sorted-Unique _ (keep-Unique (λ t. not (member t order)) ts h))
      (λ s there. apart s ts (sym (member-keep (λ t. member t ts) s order) ∙ there))

-- The report shows every server that a row names, no other, and each once.
pub present-Unique :
    (rows : List Text)
    → ((s : Text) → member s (present rows) ≡ member s rows) × Unique (present rows)
unfolding present
present-Unique rows = (
  λ s. member-present_of s (server_set rows) ∙ member-server_set s rows,
  present_of-Unique (server_set rows) (server_set-Unique rows),
)
