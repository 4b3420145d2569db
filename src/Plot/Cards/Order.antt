-- ===== src/Plot/Cards/Order.antt =====
-- runner/plot.py: which cards `timeline_body` has, and in which order.
use game_bench.Common.{
  ℕ, ◌+◌, ◌≡◌, refl, sym, ap, ◌∙◌, Bool, true, false, ◌||◌, List, [], ◌∷◌, max, if◌then◌else◌,
  Bool-cases, inl, inr, arith,
}
use game_bench.Py.Text.{Text}
use game_bench.Py.Assoc.{modify, map_values, same_other}
use game_bench.Plot.Timeline.{TlRow, Trials, Runs, same_run, append_row, load_rows, load_timeline}
use game_bench.Plot.Timeline.Ordered.{same_run_sound}
use game_bench.Plot.Cards.{key_before, insert_key, sort_keys, keys_of, card_keys}
use game_bench.Plot.Cards.Turns.{IsInTurn}
use game_bench.Plot.Cards.InTurn.{sort_keys-IsInTurn}

-- How often a key stands in a list.
abbrev pub how_many : Text × ℕ → List (Text × ℕ) → ℕ
how_many k [] = 0
how_many k (j ∷ js) = (if same_run j k then 1 else 0) + how_many k js

how_many-insert_key :
    (ord : List Text) (i k : Text × ℕ) (ks : List (Text × ℕ))
    → how_many i (insert_key ord k ks) ≡ how_many i (k ∷ ks)
unfolding insert_key
how_many-insert_key ord i k [] = refl
how_many-insert_key ord i k (j ∷ ks) = elim (Bool-cases (key_before ord j k)) [
  | inl first ↦ rw first (omega (arith, how_many-insert_key ord i k ks))
  | inr last ↦ rw last
]

how_many-sort_keys :
    (ord : List Text) (i : Text × ℕ) (ks : List (Text × ℕ))
    → how_many i (sort_keys ord ks) ≡ how_many i ks
unfolding sort_keys
how_many-sort_keys ord i [] = refl
how_many-sort_keys ord i (k ∷ ks) =
    how_many-insert_key ord i k (sort_keys ord ks)
    ∙ ap (λ (n : ℕ). (if same_run k i then 1 else 0) + n) (how_many-sort_keys ord i ks)

keys_of-map_values :
    (f : Trials → Trials) (g : Runs) → keys_of (map_values same_run [] f g) ≡ keys_of g
unfolding keys_of map_values
keys_of-map_values f [] = refl
keys_of-map_values f ((k, v) ∷ g) = ap (λ (ks : List (Text × ℕ)). k ∷ ks) (keys_of-map_values f g)

zero_plus : (n : ℕ) → 0 + n ≡ n
zero_plus n = omega arith

-- A change of one key's trials makes sure that the key is there.
how_many-modify :
    (k j : Text × ℕ) (f : Trials → Trials) (g : Runs)
    → how_many k (keys_of (modify same_run [] j f g))
      ≡ (if same_run j k then max 1 (how_many k (keys_of g)) else how_many k (keys_of g))
unfolding keys_of modify
how_many-modify k j f [] = elim (Bool-cases (same_run j k)) [
  | inl same ↦ rw same
  | inr other ↦ rw other
]
how_many-modify k j f ((i, v) ∷ g) = elim (Bool-cases (same_run i j)) [
  | inl same ↦
      let e : same_run j k ≡ same_run i k =
        ap (λ l. same_run l k) (sym (same_run_sound i j same)) in
      elim (Bool-cases (same_run i k)) [
        | inl here ↦ rw (same, e, here) (omega arith)
        | inr off ↦ rw (same, e, off)
      ]
  | inr differ ↦ elim (Bool-cases (same_run i k)) [
    | inl here ↦
        let other : same_run j k ≡ false =
          same_other {V = Trials} same_run [] same_run_sound i j k here differ in
        rw (differ, other, here)
          (ap (λ (n : ℕ). 1 + n)
            (how_many-modify k j f g
              ∙ ap
                  (λ (b : Bool).
                    if b then max 1 (how_many k (keys_of g)) else how_many k (keys_of g))
                  other))
    | inr off ↦
        rw (differ, off)
          (zero_plus _
            ∙ how_many-modify k j f g
            ∙ ap (λ (n : ℕ). if same_run j k then max 1 n else n)
                (sym (zero_plus (how_many k (keys_of g)))))
  ]
]

-- Is there a row of the run?
abbrev pub any_of : Text × ℕ → List TlRow → Bool
any_of k [] = false
any_of k (r ∷ rs) = same_run (r.server, r.conns) k || any_of k rs

both_max :
    (a b : Bool) (n : ℕ)
    → (if b then max 1 (if a then max 1 n else n) else (if a then max 1 n else n))
      ≡ (if a || b then max 1 n else n)
both_max true true n = omega arith
both_max true false n = refl
both_max false true n = refl
both_max false false n = refl

how_many-load_rows :
    (k : Text × ℕ) (rs : List TlRow) (g : Runs)
    → how_many k (keys_of (load_rows rs g))
      ≡ (if any_of k rs then max 1 (how_many k (keys_of g)) else how_many k (keys_of g))
unfolding load_rows append_row
how_many-load_rows k [] g = refl
how_many-load_rows k (r ∷ rs) g =
    how_many-load_rows k rs (append_row r g)
    ∙ ap (λ (n : ℕ). if any_of k rs then max 1 n else n) (how_many-modify k (r.server, r.conns) _ g)
    ∙ both_max (same_run (r.server, r.conns) k) (any_of k rs) (how_many k (keys_of g))

-- The cards stand in the order of their servers (those of ORDER in its order, then the others by name)
-- and then of their loads, and every run that the file has a row of stands there exactly once, and no
-- other.
pub card_keys-IsInTurn :
    (rs : List TlRow)
    → IsInTurn (card_keys (load_timeline rs))
      × ((k : Text × ℕ)
          → how_many k (card_keys (load_timeline rs)) ≡ (if any_of k rs then 1 else 0))
unfolding card_keys load_timeline keys_of
card_keys-IsInTurn rs = (
  sort_keys-IsInTurn _,
  λ k.
      how_many-sort_keys _ k _
      ∙ ap (how_many k) (keys_of-map_values _ (load_rows rs []))
      ∙ how_many-load_rows k rs [],
)
