-- ===== src/Plot/Series.antt =====
-- runner/plot.py: the values that `load` gathers, `statistics.median` and `series_json`. A value of a
-- field is a number of units of its last decimal; a median is twice as many half units.
pub mod Trials
use game_bench.Common.{
  ℕ, zero, suc, ◌+◌, ◌-◌, ◌*◌, ◌/◌, ◌%◌, ◌==◌, ◌≡◌, ◌≤◌, refl, ap, ◌∙◌, Bool, true, false, ◌&&◌,
  ◌||◌, Option, none, some, List, [], ◌∷◌, ◌++◌, leb, ltb, if◌then◌else◌, map, length, get_elem?,
  arith,
}
use game_bench.Py.Text.{Text, text_eq}
use game_bench.Py.Assoc.{find, modify}

-- One row of the CSV: `value` is none where float raises or the column is missing.
pub record Row : Type 0 where
  pub server : Text
  pub conns : ℕ
  pub value : Option ℕ

-- data[field]: the values across trials by server and load, the inner dict's key beside the outer's.
abbrev pub Groups : Type 0
Groups = List ((Text × ℕ) × List ℕ)

unfoldable pub same_key : Text × ℕ → Text × ℕ → Bool
same_key (s, c) (t, d) = text_eq s t && (c == d)

-- data[field][s][c].append(v)
unfoldable pub append_to : Text × ℕ → ℕ → Groups → Groups
append_to k v = modify same_key [] k (λ vs. vs ++ v ∷ [])

unfoldable pub load_value : Text × ℕ → Option ℕ → Groups → Groups
load_value k none g = g
load_value k (some v) g = append_to k v g

-- The loop over the rows, for one field.
unfoldable pub load_field : List Row → Groups → Groups
unfolding load_value
load_field [] g = g
load_field (r ∷ rs) g = load_field rs (load_value (r.server, r.conns) r.value g)

-- data[field].get(s, {}).get(c), where a missing key is the empty list
unfoldable pub values_of : Text × ℕ → Groups → List ℕ
values_of k g = find same_key [] k g

unfoldable pub insert_number : ℕ → List ℕ → List ℕ
insert_number n [] = n ∷ []
insert_number n (m ∷ ms) = let rest = insert_number n ms in if ltb m n then m ∷ rest else n ∷ m ∷ ms

unfoldable pub sort_numbers : List ℕ → List ℕ
sort_numbers [] = []
sort_numbers (n ∷ ns) = insert_number n (sort_numbers ns)

or_zero : Option ℕ → ℕ
or_zero none = 0
or_zero (some n) = n

-- The middle value, or the mean of the two in the middle, in half units.
unfoldable pub middle : List ℕ → ℕ
unfolding or_zero
middle ns =
    let n = length ns in
    if n % 2 == 1
    then 2 * or_zero (get_elem? ns (n / 2))
    else or_zero (get_elem? ns (n / 2 - 1)) + or_zero (get_elem? ns (n / 2))

-- statistics.median of a list that is not empty
unfoldable pub median : List ℕ → ℕ
median ns = middle (sort_numbers ns)

-- `if vals: pts.append([c, statistics.median(vals)])`
unfoldable pub point_of : ℕ → List ℕ → List (ℕ × ℕ)
unfolding median
point_of c [] = []
point_of c (v ∷ vs) = (c, median (v ∷ vs)) ∷ []

-- The points of one field and one server.
unfoldable pub points : Text → List ℕ → Groups → List (ℕ × ℕ)
unfolding point_of values_of
points s [] g = []
points s (c ∷ cs) g = point_of c (values_of (s, c) g) ++ points s cs g
