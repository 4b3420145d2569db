-- ===== src/Plot/Cards/Sorted.antt =====
-- runner/plot.py: the sort of the keys of the cards, by the place of the server and then by the load.
use game_bench.Common.{
  leb, All-mono, ℕ, ◌≡◌, Bool, true, false, ◌&&◌, ◌||◌, List, [], ◌∷◌, ◌==◌, ltb, All, Bool-cases,
  inl, inr, arith,
}
use game_bench.Py.Text.{Text}
use game_bench.Plot.Cards.{rank, key_before, insert_key, sort_keys}

-- No later key is to stand before an earlier one.
abbrev IsSortedBy : List Text → List (Text × ℕ) → Type 0
IsSortedBy ord [] = Unit
IsSortedBy ord (k ∷ ks) = All (λ j. key_before ord j k ≡ false) ks × IsSortedBy ord ks

-- The server of the first key comes earlier in the order, or is of the same place with no higher load.
abbrev pub in_place : List Text → Text × ℕ → Text × ℕ → Bool
in_place ord (s, c) (t, d) =
    ltb (rank s ord) (rank t ord) || ((rank s ord == rank t ord) && leb c d)

-- Every key is in place before every later one.
abbrev pub IsOrdered : List Text → List (Text × ℕ) → Type 0
IsOrdered ord [] = Unit
IsOrdered ord (k ∷ ks) = All (λ j. in_place ord k j ≡ true) ks × IsOrdered ord ks

in_place_of :
    (ord : List Text) (k j : Text × ℕ) → key_before ord j k ≡ false → in_place ord k j ≡ true
unfolding key_before
in_place_of ord (s, c) (t, d) h = ground arith

IsOrdered-of : (ord : List Text) (ks : List (Text × ℕ)) → IsSortedBy ord ks → IsOrdered ord ks
IsOrdered-of ord [] h = tt
IsOrdered-of ord (k ∷ ks) h = (All-mono (in_place_of ord k) ks h.0, IsOrdered-of ord ks h.1)

pair_before : ℕ → ℕ → ℕ → ℕ → Bool
pair_before a b c d = ltb a c || ((a == c) && ltb b d)

pair_flip : (a b c d : ℕ) → pair_before a b c d ≡ true → pair_before c d a b ≡ false
unfolding pair_before
pair_flip a b c d h = ground arith

pair_trans :
    (a b c d e f : ℕ)
    → pair_before a b c d ≡ false
    → pair_before c d e f ≡ false
    → pair_before a b e f ≡ false
unfolding pair_before
pair_trans a b c d e f h k = ground arith

before_flip :
    (ord : List Text) (j k : Text × ℕ) → key_before ord j k ≡ true → key_before ord k j ≡ false
unfolding key_before pair_before
before_flip ord (s, c) (t, d) h = pair_flip (rank s ord) c (rank t ord) d h

before_trans :
    (ord : List Text) (i j k : Text × ℕ)
    → key_before ord i j ≡ false
    → key_before ord j k ≡ false
    → key_before ord i k ≡ false
unfolding key_before pair_before
before_trans ord (r, b) (s, c) (t, d) h k =
    pair_trans (rank r ord) b (rank s ord) c (rank t ord) d h k

not_before-insert_key :
    (ord : List Text) (i k : Text × ℕ) (ks : List (Text × ℕ))
    → key_before ord k i ≡ false
    → All (λ j. key_before ord j i ≡ false) ks
    → All (λ j. key_before ord j i ≡ false) (insert_key ord k ks)
unfolding insert_key
not_before-insert_key ord i k [] h all = (h, tt)
not_before-insert_key ord i k (j ∷ ks) h all = elim (Bool-cases (key_before ord j k)) [
  | inl first ↦ rw first (all.0, not_before-insert_key ord i k ks h all.1)
  | inr last ↦ rw last (h, all)
]

not_before_all :
    (ord : List Text) (j k : Text × ℕ) (ks : List (Text × ℕ))
    → key_before ord j k ≡ false
    → All (λ i. key_before ord i j ≡ false) ks
    → All (λ i. key_before ord i k ≡ false) ks
not_before_all ord j k [] h all = tt
not_before_all ord j k (i ∷ ks) h all =
    (before_trans ord i j k all.0 h, not_before_all ord j k ks h all.1)

insert_key-IsSortedBy :
    (ord : List Text) (k : Text × ℕ) (ks : List (Text × ℕ))
    → IsSortedBy ord ks
    → IsSortedBy ord (insert_key ord k ks)
unfolding insert_key
insert_key-IsSortedBy ord k [] h = (tt, tt)
insert_key-IsSortedBy ord k (j ∷ ks) h = elim (Bool-cases (key_before ord j k)) [
  | inl first ↦ rw first (
    not_before-insert_key ord j k ks (before_flip ord j k first) h.0,
    insert_key-IsSortedBy ord k ks h.1,
  )
  | inr last ↦ rw last ((last, not_before_all ord j k ks last h.0), h)
]

sort_keys-IsSortedBy : (ord : List Text) (ks : List (Text × ℕ)) → IsSortedBy ord (sort_keys ord ks)
unfolding sort_keys
sort_keys-IsSortedBy ord [] = tt
sort_keys-IsSortedBy ord (k ∷ ks) =
    insert_key-IsSortedBy ord k (sort_keys ord ks) (sort_keys-IsSortedBy ord ks)

pub sort_keys-IsOrdered :
    (ord : List Text) (ks : List (Text × ℕ)) → IsOrdered ord (sort_keys ord ks)
sort_keys-IsOrdered ord ks = IsOrdered-of ord (sort_keys ord ks) (sort_keys-IsSortedBy ord ks)
