-- ===== src/Plot/Table/Balanced.antt =====
-- runner/plot.py: the tags of `table_html` and `legend_html`.
use game_bench.Common.{
  ℕ, ◌≡◌, ◌≢◌, refl, ◌∙◌, Bool, true, false, List, [], ◌∷◌, ◌++◌, ◌==◌, All-mono, arith, Bool-cases,
  inl, inr, length, ◌%◌, ◌&&◌, not,
}
use game_bench.Py.Text.{Text, codes, text_eq}
use game_bench.Py.Decimal.{str, is_digit, IsDigits, str-IsDigits}
use game_bench.Plot.Escape.{esc}
use game_bench.Plot.Escape.Entities.{IsSafe, esc-unescape}
use game_bench.Plot.Markup.{
  read, IsBalanced, skip, quoted, nil-IsBalanced, append-IsBalanced, safe-IsBalanced,
}
use game_bench.Plot.Charts.{Chart, charts, slot, Format, group_digits, commas}
use game_bench.Plot.Series.{median, values_of}
use game_bench.Plot.Table.{
  Loaded, join_all, swatch, head_cell, shown_value, cell_of, cells, row_text, row_html, table_html,
  legend_item, legend_html,
}

not_less : (c : ℕ) → is_digit c ≡ true → c ≢ b'<'
not_less c h = ground arith

not_more : (c : ℕ) → is_digit c ≡ true → c ≢ b'>'
not_more c h = ground arith

pub digits-IsSafe : (s : Text) → IsDigits s → IsSafe s
digits-IsSafe s h = (All-mono not_less s h, All-mono not_more s h)

pub str-IsSafe : (n : ℕ) → IsSafe (str n)
str-IsSafe n = digits-IsSafe (str n) (str-IsDigits n)

group_digits-IsSafe : (s : Text) → IsSafe s → IsSafe (group_digits s)
unfolding group_digits
group_digits-IsSafe [] h = h
group_digits-IsSafe (c ∷ s) h =
    let rest = group_digits-IsSafe s (h.0.1, h.1.1) in
    elim (Bool-cases ((length s % 3 == 0) && not (length s == 0))) [
      | inl comma ↦ rw comma (ground arith)
      | inr plain ↦ rw plain ((h.0.0, rest.0), (h.1.0, rest.1))
    ]

pub commas-IsSafe : (n : ℕ) → IsSafe (commas n)
unfolding commas
commas-IsSafe n = group_digits-IsSafe (str n) (str-IsSafe n)

pub commas-IsBalanced : (n : ℕ) → IsBalanced (commas n)
commas-IsBalanced n = safe-IsBalanced (commas n) (commas-IsSafe n)

pub esc-IsSafe : (s : Text) → IsSafe (esc s)
esc-IsSafe s = (esc-unescape s).0

pub esc-IsBalanced : (s : Text) → IsBalanced (esc s)
esc-IsBalanced s = safe-IsBalanced (esc s) (esc-IsSafe s)

pub join_all-IsBalanced {ℓ} :
    {A : Type ℓ} (f : A → Text) (xs : List A)
    → (each : (x : A) → IsBalanced (f x)) → IsBalanced (join_all f xs)
unfolding join_all
join_all-IsBalanced f [] each = nil-IsBalanced
join_all-IsBalanced f (x ∷ xs) each =
    append-IsBalanced (f x) (join_all f xs) (each x) (join_all-IsBalanced f xs each)

pub swatch-IsBalanced : (s : Text) → IsBalanced (swatch s)
unfolding swatch read text_eq
swatch-IsBalanced s st =
    quoted (str (slot s)) b')' (codes "\"></span>") (str-IsSafe (slot s)).1 refl st (codes "span")
      b'-'

head_cell-IsBalanced : (c : Chart) → IsBalanced (head_cell c)
unfolding head_cell read text_eq
head_cell-IsBalanced c st =
    skip (esc c.title) (codes "</th>") (esc-IsBalanced c.title) (codes "th" ∷ st)

legend_item-IsBalanced : (s : Text) → IsBalanced (legend_item s)
unfolding legend_item read text_eq
legend_item-IsBalanced s st =
    quoted (esc s) b'"' _ (esc-IsSafe s).1 refl st (codes "button") b'"'
    ∙ skip (swatch s) (codes "<span class=\"leg-name\">" ++ (esc s ++ codes "</span></button>"))
        (swatch-IsBalanced s) (codes "button" ∷ st)
    ∙ skip (esc s) (codes "</span></button>") (esc-IsBalanced s)
        (codes "span" ∷ codes "button" ∷ st)

pub legend_html-IsBalanced : (servers : List Text) → IsBalanced (legend_html servers)
unfolding legend_html read text_eq
legend_html-IsBalanced servers st =
    skip (join_all legend_item servers) _
      (join_all-IsBalanced legend_item servers legend_item-IsBalanced) (codes "div" ∷ st)

-- What the formatted numbers are taken to be: texts with no < and no >.
pub record IsPlain (fmt : Format) : Type 0 where
  pub fixed_safe : (d a b : ℕ) → IsSafe (fmt.fixed d a b)
  pub grouped_safe : (d a b : ℕ) → IsSafe (fmt.grouped d a b)

module _ (fmt : Format) (plain : IsPlain fmt) where
  shown_value-IsSafe : (c : Chart) (m : ℕ) → IsSafe (shown_value fmt c m)
  unfolding shown_value
  shown_value-IsSafe c m = elim (Bool-cases c.comma) [
    | inl comma ↦ rw comma (plain.grouped_safe c.digits m 2000)
    | inr none ↦ rw none (plain.fixed_safe c.digits m 2000)
  ]

  cell_of-IsBalanced : (c : Chart) (vs : List ℕ) → IsBalanced (cell_of fmt c vs)
  unfolding cell_of read text_eq
  cell_of-IsBalanced c [] st = refl
  cell_of-IsBalanced c (v ∷ vs) st =
      skip (shown_value fmt c (median (v ∷ vs))) (codes "</td>")
        (safe-IsBalanced _ (shown_value-IsSafe c (median (v ∷ vs)))) (codes "td" ∷ st)

  cells-IsBalanced :
      (g : Loaded) (s : Text) (c : ℕ) (chs : List Chart) → IsBalanced (cells fmt g s c chs).1
  unfolding cells
  cells-IsBalanced g s c [] = nil-IsBalanced
  cells-IsBalanced g s c (ch ∷ chs) =
      append-IsBalanced (cell_of fmt ch (values_of (s, c) (g ch.field))) _
        (cell_of-IsBalanced ch (values_of (s, c) (g ch.field))) (cells-IsBalanced g s c chs)

  row_text-IsBalanced :
      (s : Text) (c : ℕ) (b : Bool) (tds : Text)
      → IsBalanced tds
      → IsBalanced (row_text s c (b, tds))
  unfolding row_text read text_eq
  row_text-IsBalanced s c false tds h st = refl
  row_text-IsBalanced s c true tds h st =
      quoted (esc s) b'"' _ (esc-IsSafe s).1 refl st (codes "tr") b'"'
      ∙ skip (swatch s) _ (swatch-IsBalanced s) (codes "td" ∷ codes "tr" ∷ st)
      ∙ skip (esc s) _ (esc-IsBalanced s) (codes "td" ∷ codes "tr" ∷ st)
      ∙ skip (commas c) _ (commas-IsBalanced c) (codes "td" ∷ codes "tr" ∷ st)
      ∙ skip tds (codes "</tr>") h (codes "tr" ∷ st)

  row_html-IsBalanced : (g : Loaded) (s : Text) (c : ℕ) → IsBalanced (row_html fmt g s c)
  unfolding row_html
  row_html-IsBalanced g s c =
      row_text-IsBalanced s c (cells fmt g s c charts).0 (cells fmt g s c charts).1
        (cells-IsBalanced g s c charts)

  pub table_html-IsBalanced :
      (g : Loaded) (servers : List Text) (conns : List ℕ)
      → IsBalanced (table_html fmt g servers conns)
  unfolding table_html read text_eq
  table_html-IsBalanced g servers conns st =
      skip (join_all head_cell charts) _ (join_all-IsBalanced head_cell charts head_cell-IsBalanced)
        (codes "tr" ∷ codes "thead" ∷ codes "table" ∷ st)
      ∙ skip (join_all (λ s. join_all (row_html fmt g s) conns) servers) (codes "</tbody></table>")
          (join_all-IsBalanced _ servers
            (λ s. join_all-IsBalanced (row_html fmt g s) conns (row_html-IsBalanced g s)))
          (codes "tbody" ∷ codes "table" ∷ st)
