-- ===== src/Plot/Series/Trials.antt =====
-- runner/plot.py: the points of a series against the order of the rows.
use mathlib.Core.List.{Permᴰ}
use game_bench.Common.{
  ==_iff, Bool, Bool-cases, List, Option, [], ap, append-nil, append_assoc, arith, false,
  if◌then◌else◌, inl, inr, ltb, none, refl, some, sym, true, ℕ, ◌&&◌, ◌++◌, ◌==◌, ◌∙◌, ◌∷◌, ◌≡◌,
}
use game_bench.Py.Text.{Text, text_eq, text_eq_sound}
use game_bench.Py.Assoc.{find, find-modify}
use game_bench.Plot.Series.{
  Row, Groups, same_key, append_to, load_value, load_field, values_of, insert_number, sort_numbers,
  middle, median, point_of, points,
}

insert_swap :
    (a b : ℕ) (ns : List ℕ)
    → insert_number a (insert_number b ns) ≡ insert_number b (insert_number a ns)
unfolding insert_number
insert_swap a b [] = ground arith
insert_swap a b (m ∷ ns) = ground (arith, insert_swap a b ns)

-- The value of a row, if the row is of the server and the load of the key.
unfoldable pub value_at : Text × ℕ → Row → Option ℕ
value_at k r = if same_key (r.server, r.conns) k then r.value else none

unfoldable pub append_value : Option ℕ → List ℕ → List ℕ
append_value none vs = vs
append_value (some v) vs = v ∷ vs

-- The values of a key, in the order of the rows.
unfoldable pub in_order : Text × ℕ → List Row → List ℕ
unfolding append_value value_at
in_order k [] = []
in_order k (r ∷ rs) = append_value (value_at k r) (in_order k rs)

and_left : (a b : Bool) → (a && b) ≡ true → a ≡ true
and_left true b h = refl
and_left false b h = h

and_right : (a b : Bool) → (a && b) ≡ true → b ≡ true
and_right true b h = h
and_right false b h = cc

same_key_sound : (j k : Text × ℕ) → same_key j k ≡ true → j ≡ k
unfolding same_key
same_key_sound (s, c) (t, d) h =
    ap (λ (u : Text). (u, c)) (text_eq_sound s t (and_left (text_eq s t) (c == d) h))
    ∙ ap (λ (e : ℕ). (t, e)) ((==_iff c d).0 (and_right (text_eq s t) (c == d) h))

values_of-append_to :
    (k j : Text × ℕ) (v : ℕ) (g : Groups)
    → values_of k (append_to j v g)
      ≡ (if same_key j k then values_of k g ++ v ∷ [] else values_of k g)
unfolding values_of append_to
values_of-append_to k j v g =
    find-modify same_key [] same_key_sound k j (λ (vs : List ℕ). vs ++ v ∷ []) g

load_step :
    (k j : Text × ℕ) (o : Option ℕ) (g : Groups) (vs : List ℕ)
    → values_of k (load_value j o g) ++ vs
      ≡ values_of k g ++ append_value (if same_key j k then o else none) vs
unfolding load_value append_value
load_step k j none g vs = elim (Bool-cases (same_key j k)) [
  | inl same ↦ rw same
  | inr differ ↦ rw differ
]
load_step k j (some v) g vs =
    ap (λ (t : List ℕ). t ++ vs) (values_of-append_to k j v g) ∙ elim (Bool-cases (same_key j k)) [
      | inl same ↦ rw same (append_assoc (values_of k g) (v ∷ []) vs)
      | inr differ ↦ rw differ
    ]

-- The values that are found under a key are those of its rows, in their order.
pub values_of-load_field :
    (k : Text × ℕ) (rs : List Row) (g : Groups)
    → values_of k (load_field rs g) ≡ values_of k g ++ in_order k rs
unfolding load_field in_order value_at
values_of-load_field k [] g = sym (append-nil (values_of k g))
values_of-load_field k (r ∷ rs) g =
    values_of-load_field k rs (load_value (r.server, r.conns) r.value g)
    ∙ load_step k (r.server, r.conns) r.value g (in_order k rs)

-- A row with no value puts nothing into the sorted values.
put : Option ℕ → List ℕ → List ℕ
put none ns = ns
put (some v) ns = insert_number v ns

put_swap : (x y : Option ℕ) (ns : List ℕ) → put x (put y ns) ≡ put y (put x ns)
unfolding put
put_swap none y ns = refl
put_swap (some v) none ns = refl
put_swap (some v) (some u) ns = insert_swap v u ns

sort-append_value :
    (x : Option ℕ) (vs : List ℕ) → sort_numbers (append_value x vs) ≡ put x (sort_numbers vs)
unfolding sort_numbers append_value put
sort-append_value none vs = refl
sort-append_value (some v) vs = refl

sorted_values : Text × ℕ → List Row → List ℕ
sorted_values k rs = sort_numbers (in_order k rs)

sorted_values_cons :
    (k : Text × ℕ) (r : Row) (rs : List Row)
    → sorted_values k (r ∷ rs) ≡ put (value_at k r) (sorted_values k rs)
unfolding sorted_values in_order
sorted_values_cons k r rs = sort-append_value (value_at k r) (in_order k rs)

sorted_values_permuted :
    (k : Text × ℕ) {rs us : List Row} (d : Permᴰ rs us) → sorted_values k rs ≡ sorted_values k us
sorted_values_permuted k Permᴰ.nil = refl
sorted_values_permuted k (Permᴰ.cons {a} {b} {l₁} {l₂} e d) =
    sorted_values_cons k a l₁
    ∙ ap (λ r. put (value_at k r) (sorted_values k l₁)) e
    ∙ ap (put (value_at k b)) (sorted_values_permuted k d)
    ∙ sym (sorted_values_cons k b l₂)
sorted_values_permuted k (Permᴰ.swap {a} {b} {a'} {b'} {l} e e') =
    sorted_values_cons k a (b ∷ l)
    ∙ ap (put (value_at k a)) (sorted_values_cons k b l)
    ∙ put_swap (value_at k a) (value_at k b) (sorted_values k l)
    ∙ ap (λ r. put (value_at k b) (put (value_at k r) (sorted_values k l))) e
    ∙ ap (λ r. put (value_at k r) (put (value_at k b') (sorted_values k l))) e'
    ∙ ap (put (value_at k a')) (sym (sorted_values_cons k b' l))
    ∙ sym (sorted_values_cons k a' (b' ∷ l))
sorted_values_permuted k (Permᴰ.trans d d') =
    sorted_values_permuted k d ∙ sorted_values_permuted k d'

-- The point of a load, of the sorted values: none where there is no value.
sorted_point : ℕ → List ℕ → List (ℕ × ℕ)
sorted_point c [] = []
sorted_point c (v ∷ vs) = (c, middle (v ∷ vs)) ∷ []

insert_not_nil :
    (c v : ℕ) (ns : List ℕ)
    → sorted_point c (insert_number v ns) ≡ (c, middle (insert_number v ns)) ∷ []
unfolding insert_number sorted_point
insert_not_nil c v [] = refl
insert_not_nil c v (m ∷ ns) = elim (Bool-cases (ltb m v)) [
  | inl lower ↦ rw lower
  | inr upper ↦ rw upper
]

point_of-sort : (c : ℕ) (vs : List ℕ) → point_of c vs ≡ sorted_point c (sort_numbers vs)
unfolding point_of median sort_numbers sorted_point
point_of-sort c [] = refl
point_of-sort c (v ∷ vs) = sym (insert_not_nil c v (sort_numbers vs))

-- The points of a series, one for each load that has a value, do not depend on the order of the rows.
pub points_permuted :
    (s : Text) (cs : List ℕ) {rs us : List Row} (d : Permᴰ rs us)
    → points s cs (load_field rs []) ≡ points s cs (load_field us [])
unfolding points sorted_values values_of find
points_permuted s [] d = refl
points_permuted s (c ∷ cs) {rs} {us} d =
    ap (λ (ps : List (ℕ × ℕ)). ps ++ points s cs (load_field rs []))
      (ap (point_of c) (values_of-load_field (s, c) rs [])
        ∙ point_of-sort c (in_order (s, c) rs)
        ∙ ap (sorted_point c) (sorted_values_permuted (s, c) d)
        ∙ sym (point_of-sort c (in_order (s, c) us))
        ∙ sym (ap (point_of c) (values_of-load_field (s, c) us [])))
    ∙ ap (λ (ps : List (ℕ × ℕ)). point_of c (values_of (s, c) (load_field us [])) ++ ps)
        (points_permuted s cs d)
