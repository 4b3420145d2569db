-- ===== src/Plot/Cards/InTurn.antt =====
-- runner/plot.py: `timeline_body` sorts by the place of a server in that list, which is its place in turn.
use game_bench.Common.{
  ℕ, suc, ◌<◌, ◌≡◌, sym, ap, ◌∙◌, ◌⊎◌, Bool, true, false, ◌&&◌, ◌||◌, List, [], ◌∷◌, map, ◌==◌, ltb,
  leb, All, Bool-cases, inl, inr, arith,
}
use game_bench.Py.Text.{Text, text_eq, text_eq_refl, text_eq_sound}
use game_bench.Plot.Load.{member}
use game_bench.Plot.Cards.{order_of, rank, key_before, insert_key, sort_keys}
use game_bench.Plot.Cards.Sorted.{in_place, IsOrdered, sort_keys-IsOrdered}
use game_bench.Plot.Cards.Turns.{earlier, in_turn, IsInTurn, Ascends}
use game_bench.Plot.Cards.Ranks.{order_of-Ascends, member-order_of, member-All}

rank_here : (t : Text) (ts : List Text) (u : Text) → text_eq u t ≡ true → rank t (u ∷ ts) ≡ 0
unfolding rank
rank_here t ts u h = rw h

rank_later :
    (t : Text) (ts : List Text) (u : Text)
    → text_eq u t ≡ false
    → member t (u ∷ ts) ≡ true
    → (member t ts ≡ true) × (rank t (u ∷ ts) ≡ suc (rank t ts))
unfolding rank member
rank_later t ts u h m = let there : member t ts ≡ true = ground arith in (there, rw (h, there))

earlier_of :
    (ts : List Text) (s t : Text)
    → Ascends earlier ts
    → member s ts ≡ true
    → member t ts ≡ true
    → rank s ts < rank t ts
    → earlier s t ≡ true
unfolding member
earlier_of [] s t up m n h = cc
earlier_of (u ∷ ts) s t up m n h = elim (Bool-cases (text_eq u t)) [
  | inl last ↦ absurd (omega (arith, rank_here t ts u last))
  | inr behind ↦
      let (n', at_t) = rank_later t ts u behind n in
      elim (Bool-cases (text_eq u s)) [
        | inl first ↦
            ap (λ (v : Text). earlier v t) (sym (text_eq_sound u s first))
            ∙ member-All (λ v. earlier u v ≡ true) ts t n' up.0
        | inr later ↦
            let (m', at_s) = rank_later s ts u later m in
            earlier_of ts s t up.1 m' n' (omega (arith, at_s, at_t))
      ]
]

same_of :
    (ts : List Text) (s t : Text)
    → member s ts ≡ true
    → member t ts ≡ true
    → rank s ts ≡ rank t ts
    → s ≡ t
unfolding member
same_of [] s t m n h = cc
same_of (u ∷ ts) s t m n h = elim (Bool-cases (text_eq u s)) [
  | inl here ↦ elim (Bool-cases (text_eq u t)) [
    | inl there ↦ sym (text_eq_sound u s here) ∙ text_eq_sound u t there
    | inr behind ↦ absurd (omega (arith, rank_here s ts u here, (rank_later t ts u behind n).1))
  ]
  | inr later ↦ elim (Bool-cases (text_eq u t)) [
    | inl there ↦ absurd (omega (arith, rank_here t ts u there, (rank_later s ts u later m).1))
    | inr behind ↦
        let (m', at_s) = rank_later s ts u later m in
        let (n', at_t) = rank_later t ts u behind n in
        same_of ts s t m' n' (omega (arith, at_s, at_t))
  ]
]

first_or_same :
    (a b : ℕ) (l : Bool) → (ltb a b || ((a == b) && l)) ≡ true → (a < b) ⊎ ((a ≡ b) × (l ≡ true))
first_or_same a b true h = ground arith
first_or_same a b false h = ground arith

or_right : (b c : Bool) → c ≡ true → (b || c) ≡ true
or_right b c h = ground arith

in_turn_of :
    (ord : List Text) (k j : Text × ℕ)
    → Ascends earlier ord
    → member k.0 ord ≡ true
    → member j.0 ord ≡ true
    → in_place ord k j ≡ true
    → in_turn k j ≡ true
in_turn_of ord (s, c) (t, d) up m n h = elim (first_or_same (rank s ord) (rank t ord) (leb c d) h) [
  | inl first ↦ ap (λ b. b || (text_eq s t && leb c d)) (earlier_of ord s t up m n first)
  | inr (same, low) ↦
      let e : text_eq s t ≡ true =
        ap (text_eq s) (sym (same_of ord s t m n same)) ∙ text_eq_refl s in
      or_right (earlier s t) (text_eq s t && leb c d) (rw (e, low))
]

-- Keys in place whose servers the list holds are in turn.
IsInTurn-of :
    (ord : List Text) (ks : List (Text × ℕ))
    → Ascends earlier ord
    → All (λ k. member k.0 ord ≡ true) ks
    → IsOrdered ord ks
    → IsInTurn ks
IsInTurn-of ord [] up m h = tt
IsInTurn-of ord (k ∷ ks) up m h = (go ks m.1 h.0, IsInTurn-of ord ks up m.1 h.1)
  where
    go :
        (js : List (Text × ℕ))
        → All (λ j. member j.0 ord ≡ true) js
        → All (λ j. in_place ord k j ≡ true) js
        → All (λ j. in_turn k j ≡ true) js
    go [] n l = tt
    go (j ∷ js) n l = (in_turn_of ord k j up m.0 n.0 l.0, go js n.1 l.1)

module _ (P : Text × ℕ → Type 0) (ord : List Text) where
  All-insert_key :
      (k : Text × ℕ) (ks : List (Text × ℕ)) → P k → All P ks → All P (insert_key ord k ks)
  unfolding insert_key
  All-insert_key k [] p h = (p, tt)
  All-insert_key k (j ∷ ks) p h = elim (Bool-cases (key_before ord j k)) [
    | inl first ↦ rw first (h.0, All-insert_key k ks p h.1)
    | inr last ↦ rw last (p, h)
  ]

  All-sort_keys : (ks : List (Text × ℕ)) → All P ks → All P (sort_keys ord ks)
  unfolding sort_keys
  All-sort_keys [] h = tt
  All-sort_keys (k ∷ ks) h = All-insert_key k (sort_keys ord ks) h.0 (All-sort_keys ks h.1)

-- Whatever holds for every server of a list of keys holds for each key's.
All-servers :
    (Q : Text → Type 0) (ks : List (Text × ℕ))
    → ((s : Text) → member s (map (λ k. k.0) ks) ≡ true → Q s)
    → All (λ k. Q k.0) ks
unfolding member
All-servers Q [] h = tt
All-servers Q (k ∷ ks) h = (
  h k.0 (ap (λ b. b || member k.0 (map (λ (j : Text × ℕ). j.0) ks)) (text_eq_refl k.0)),
  All-servers Q ks (λ s m. h s (ground (arith, ap (λ b. text_eq k.0 s || b) m))),
)

pub sort_keys-IsInTurn : (ks : List (Text × ℕ)) → IsInTurn (sort_keys (order_of ks) ks)
sort_keys-IsInTurn ks =
    IsInTurn-of (order_of ks) (sort_keys (order_of ks) ks) (order_of-Ascends ks)
      (All-sort_keys (λ k. member k.0 (order_of ks) ≡ true) (order_of ks) ks
        (All-servers (λ s. member s (order_of ks) ≡ true) ks (λ s m. member-order_of s ks m)))
      (sort_keys-IsOrdered (order_of ks) ks)
