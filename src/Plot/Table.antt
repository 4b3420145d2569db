-- ===== src/Plot/Table.antt =====
-- runner/plot.py: `table_html` and `legend_html`. Values are counted in thousandths, so that a median
-- is a number of half thousandths.
pub mod Balanced
use game_bench.Common.{
  ℕ, Bool, true, false, ◌||◌, Option, none, some, List, [], ◌∷◌, ◌++◌, if◌then◌else◌,
}
use game_bench.Py.Text.{Text, codes}
use game_bench.Py.Decimal.{str}
use game_bench.Plot.Escape.{esc}
use game_bench.Plot.Series.{Groups, values_of, median}
use game_bench.Plot.Charts.{Chart, charts, slot, Format, commas}

-- data[field], for every field of CHARTS
abbrev pub Loaded : Type 0
Loaded = Text → Groups

-- `"".join(f(x) for x in xs)`
unfoldable pub join_all {ℓ} : {A : Type ℓ} → (A → Text) → List A → Text
join_all f [] = []
join_all f (x ∷ xs) = f x ++ join_all f xs

unfoldable pub swatch : Text → Text
swatch s =
    codes "<span class=\"sw\" style=\"background:var(--series-"
    ++ (str (slot s) ++ codes ")\"></span>")

unfoldable pub head_cell : Chart → Text
head_cell c = codes "<th>" ++ (esc c.title ++ codes "</th>")

-- `if vals`
unfoldable pub is_there : List ℕ → Bool
is_there [] = false
is_there (v ∷ vs) = true

-- The row of a server and a load, or nothing.
unfoldable pub row_text : Text → ℕ → Bool × Text → Text
row_text s c (false, tds) = []
row_text s c (true, tds) =
    codes "<tr data-server=\""
    ++ (esc s
        ++ (codes "\"><td>"
            ++ (swatch s
                ++ (esc s
                    ++ (codes "</td><td>"
                        ++ (commas c ++ (codes "</td>" ++ (tds ++ codes "</tr>"))))))))

module _ (fmt : Format) where
  unfoldable pub shown_value : Chart → ℕ → Text
  shown_value c m = if c.comma then fmt.grouped c.digits m 2000 else fmt.fixed c.digits m 2000

  -- One `cells.append`, from the values of the field.
  unfoldable pub cell_of : Chart → List ℕ → Text
  unfolding shown_value
  cell_of c [] = codes "<td>–</td>"
  cell_of c (v ∷ vs) = codes "<td>" ++ (shown_value c (median (v ∷ vs)) ++ codes "</td>")

  -- The loop over the fields: `any_val` and the cells, joined.
  unfoldable pub cells : Loaded → Text → ℕ → List Chart → Bool × Text
  unfolding cell_of is_there
  cells g s c [] = (false, [])
  cells g s c (ch ∷ chs) =
      let vals = values_of (s, c) (g ch.field) in
      let (any_val, rest) = cells g s c chs in (is_there vals || any_val, cell_of ch vals ++ rest)

  unfoldable pub row_html : Loaded → Text → ℕ → Text
  unfolding row_text cells
  row_html g s c = row_text s c (cells g s c charts)

  unfoldable pub table_html : Loaded → List Text → List ℕ → Text
  unfolding row_html join_all head_cell
  table_html g servers conns =
      codes "<table><thead><tr><th>server</th><th>conns</th>"
      ++ (join_all head_cell charts
          ++ (codes "</tr></thead><tbody>"
              ++ (join_all (λ s. join_all (row_html g s) conns) servers
                  ++ codes "</tbody></table>")))

-- One button of the legend.
unfoldable pub legend_item : Text → Text
legend_item s =
    codes "<button type=\"button\" class=\"leg\" data-server=\""
    ++ (esc s
        ++ (codes "\" aria-pressed=\"true\">"
            ++ (swatch s
                ++ (codes "<span class=\"leg-name\">" ++ (esc s ++ codes "</span></button>")))))

unfoldable pub legend_html : List Text → Text
unfolding legend_item join_all
legend_html servers =
    codes "<div class=\"legend\" id=\"legend\">"
    ++ (join_all legend_item servers
        ++ codes
            "<button type=\"button\" class=\"leg leg-all\" id=\"show-all\" hidden>show all</button></div>")
