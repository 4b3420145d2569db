-- ===== src/Plot/Page/Complete.antt =====
-- runner/plot.py: the table of the page against the rows of the CSV.
use game_bench.Common.{
  ℕ, ◌≡◌, refl, sym, ap, ◌∙◌, Bool, true, false, not, ◌&&◌, ◌||◌, Option, none, some, List, [], ◌∷◌,
  map, ◌==◌, if◌then◌else◌, arith, ==_iff, Bool-cases, inl, inr, ltb,
}
use game_bench.Py.Text.{Text}
use game_bench.Py.Assoc.{find}
use game_bench.Plot.Load.{member, present}
use game_bench.Plot.Load.Present.{or_swap}
use game_bench.Plot.Load.Distinct.{present-Unique}
use game_bench.Plot.Series.{same_key, values_of, insert_number, sort_numbers}
use game_bench.Plot.Series.Trials.{value_at, append_value, in_order, values_of-load_field}
use game_bench.Plot.Charts.{Chart, charts, Format}
use game_bench.Plot.Table.{is_there, cells, row_text, row_html}
use game_bench.Plot.Page.{
  CsvRow, column, row_for, contains, conns_set, is_empty, load_data, load_servers, load_conns,
}

abbrev pub is_some : Option ℕ → Bool
is_some none = false
is_some (some v) = true

-- Is there a chart with a value in the row?
abbrev pub has_value : List Chart → CsvRow → Bool
has_value [] r = false
has_value (ch ∷ chs) r = is_some (column ch.field r) || has_value chs r

abbrev pub is_of : Text → ℕ → CsvRow → Bool
is_of s c r = same_key (r.server, r.conns) (s, c)

-- Is there a row of the server and the load with a value?
abbrev pub any_row : Text → ℕ → List Chart → List CsvRow → Bool
any_row s c chs [] = false
any_row s c chs (r ∷ rs) = (is_of s c r && has_value chs r) || any_row s c chs rs

-- Is there such a row with a value in one column?
any_in : Text → ℕ → Text → List CsvRow → Bool
any_in s c f [] = false
any_in s c f (r ∷ rs) = (is_of s c r && is_some (column f r)) || any_in s c f rs

there_one :
    (b : Bool) (o : Option ℕ) (vs : List ℕ)
    → is_there (append_value (if b then o else none) vs) ≡ ((b && is_some o) || is_there vs)
unfolding is_there append_value
there_one true none vs = refl
there_one true (some v) vs = refl
there_one false o vs = refl

there-in_order :
    (s : Text) (c : ℕ) (f : Text) (rs : List CsvRow)
    → is_there (in_order (s, c) (map (row_for f) rs)) ≡ any_in s c f rs
unfolding in_order any_in value_at row_for is_there
there-in_order s c f [] = refl
there-in_order s c f (r ∷ rs) =
    there_one (is_of s c r) (column f r) (in_order (s, c) (map (row_for f) rs))
    ∙ ap (λ b. (is_of s c r && is_some (column f r)) || b) (there-in_order s c f rs)

there-values_of :
    (s : Text) (c : ℕ) (f : Text) (rs : List CsvRow)
    → is_there (values_of (s, c) (load_data rs f)) ≡ any_in s c f rs
unfolding load_data values_of find
there-values_of s c f rs =
    ap is_there (values_of-load_field (s, c) (map (row_for f) rs) []) ∙ there-in_order s c f rs

mix : (a x y p q : Bool) → (((a && x) || p) || ((a && y) || q)) ≡ ((a && (x || y)) || (p || q))
mix true true y p q = refl
mix true false true true q = refl
mix true false true false q = refl
mix true false false p q = refl
mix false x y p q = refl

any_row_none : (s : Text) (c : ℕ) (rs : List CsvRow) → any_row s c [] rs ≡ false
any_row_none s c [] = refl
any_row_none s c (r ∷ rs) = elim (Bool-cases (is_of s c r)) [
  | inl same ↦ rw same (any_row_none s c rs)
  | inr other ↦ rw other (any_row_none s c rs)
]

any_row_cons :
    (s : Text) (c : ℕ) (ch : Chart) (chs : List Chart) (rs : List CsvRow)
    → (any_in s c ch.field rs || any_row s c chs rs) ≡ any_row s c (ch ∷ chs) rs
unfolding any_in
any_row_cons s c ch chs [] = refl
any_row_cons s c ch chs (r ∷ rs) =
    mix (is_of s c r) (is_some (column ch.field r)) (has_value chs r) (any_in s c ch.field rs)
      (any_row s c chs rs)
    ∙ ap (λ b. (is_of s c r && (is_some (column ch.field r) || has_value chs r)) || b)
        (any_row_cons s c ch chs rs)

contains-insert_number :
    (c d : ℕ) (ns : List ℕ) → contains c (insert_number d ns) ≡ ((d == c) || contains c ns)
unfolding contains insert_number
contains-insert_number c d [] = refl
contains-insert_number c d (n ∷ ns) = elim (Bool-cases (ltb n d)) [
  | inl less ↦ rw less (
      ap (λ b. (n == c) || b) (contains-insert_number c d ns)
      ∙ or_swap (n == c) (d == c) (contains c ns))
  | inr more ↦ rw more
]

contains-sort_numbers : (c : ℕ) (ns : List ℕ) → contains c (sort_numbers ns) ≡ contains c ns
unfolding contains sort_numbers
contains-sort_numbers c [] = refl
contains-sort_numbers c (n ∷ ns) =
    contains-insert_number c n (sort_numbers ns)
    ∙ ap (λ b. (n == c) || b) (contains-sort_numbers c ns)

-- A number that is there already adds nothing.
kept_one :
    (c d : ℕ) (ns : List ℕ) → contains d ns ≡ true → contains c ns ≡ ((d == c) || contains c ns)
kept_one c d ns h = elim (Bool-cases (d == c)) [
  | inl same ↦ rw same (ap (λ e. contains e ns) (sym ((==_iff d c).0 same)) ∙ h)
  | inr differ ↦ rw differ
]

contains-conns_set :
    (c : ℕ) (rs : List CsvRow) → contains c (conns_set rs) ≡ contains c (map (λ r. r.conns) rs)
unfolding contains conns_set
contains-conns_set c [] = refl
contains-conns_set c (r ∷ rs) = elim (Bool-cases (contains r.conns (conns_set rs))) [
  | inl there ↦ rw there (
      kept_one c r.conns (conns_set rs) there
      ∙ ap (λ b. (r.conns == c) || b) (contains-conns_set c rs))
  | inr new ↦ rw new (ap (λ b. (r.conns == c) || b) (contains-conns_set c rs))
]

any_row-listed :
    (s : Text) (c : ℕ) (chs : List Chart) (rs : List CsvRow)
    → any_row s c chs rs ≡ true
    → (member s (map (λ r. r.server) rs) ≡ true) × (contains c (map (λ r. r.conns) rs) ≡ true)
unfolding member contains same_key
any_row-listed s c chs [] h = cc
any_row-listed s c chs (r ∷ rs) h = ground (arith, any_row-listed s c chs rs)

module _ (fmt : Format) where
  cells-any_row :
      (s : Text) (c : ℕ) (chs : List Chart) (rs : List CsvRow)
      → (cells fmt (load_data rs) s c chs).0 ≡ any_row s c chs rs
  unfolding cells
  cells-any_row s c [] rs = sym (any_row_none s c rs)
  cells-any_row s c (ch ∷ chs) rs =
      ap (λ b. b || (cells fmt (load_data rs) s c chs).0) (there-values_of s c ch.field rs)
      ∙ ap (λ b. any_in s c ch.field rs || b) (cells-any_row s c chs rs)
      ∙ any_row_cons s c ch chs rs

  row_text-is_empty :
      (s : Text) (c : ℕ) (b : Bool) (tds : Text) → is_empty (row_text s c (b, tds)) ≡ not b
  unfolding is_empty row_text
  row_text-is_empty s c true tds = refl
  row_text-is_empty s c false tds = refl

  row_html-any_row :
      (s : Text) (c : ℕ) (rs : List CsvRow)
      → is_empty (row_html fmt (load_data rs) s c) ≡ not (any_row s c charts rs)
  unfolding row_html
  row_html-any_row s c rs =
      row_text-is_empty s c (cells fmt (load_data rs) s c charts).0
        (cells fmt (load_data rs) s c charts).1
      ∙ ap not (cells-any_row s c charts rs)

  -- The table of the page has a row for a server and a load exactly where some row of the CSV has both
  -- and a value of some chart; and then the server and the load are among those of the page.
  pub table_complete :
      (s : Text) (c : ℕ) (rs : List CsvRow)
      → (is_empty (row_html fmt (load_data rs) s c) ≡ not (any_row s c charts rs))
        × ((any_row s c charts rs && (member s (load_servers rs) && contains c (load_conns rs)))
            ≡ any_row s c charts rs)
  unfolding load_servers load_conns
  table_complete s c rs = (row_html-any_row s c rs, listed (any_row s c charts rs) refl)
    where
      listed :
          (b : Bool)
          → any_row s c charts rs ≡ b
          → (b
              && (member s (present (map (λ (r : CsvRow). r.server) rs))
                  && contains c (sort_numbers (conns_set rs))))
            ≡ b
      listed false e = refl
      listed true e =
          let both = any_row-listed s c charts rs e in
          let there : member s (present (map (λ (r : CsvRow). r.server) rs)) ≡ true =
            (present-Unique (map (λ (r : CsvRow). r.server) rs)).0 s ∙ both.0 in
          rw there (contains-sort_numbers c (conns_set rs) ∙ contains-conns_set c rs ∙ both.1)
