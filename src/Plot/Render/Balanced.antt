-- ===== src/Plot/Render/Balanced.antt =====
-- runner/plot.py: the tags of the charts that the script draws.
use game_bench.Common.{
  ℕ, leb, ◌*◌, refl, ◌∙◌, Bool-cases, inl, inr, Option, none, some, List, [], ◌∷◌, arith, length,
}
use game_bench.Py.Text.{Text, codes, text_eq}
use game_bench.Py.Assoc.{find}
use game_bench.Py.Decimal.{str}
use game_bench.Plot.Escape.{esc}
use game_bench.Plot.Escape.Entities.{IsSafe, IsSafe-append}
use game_bench.Plot.Markup.{read, IsBalanced, skip, quoted, safe-IsBalanced}
use game_bench.Plot.Charts.{Chart, Format}
use game_bench.Plot.Table.{join_all}
use game_bench.Plot.Table.Balanced.{
  IsPlain, str-IsSafe, esc-IsSafe, esc-IsBalanced, join_all-IsBalanced,
}
use game_bench.Plot.Svg.{y_of, tenths, tenths_below}
use game_bench.Plot.Svg.Balanced.{tenths-IsSafe, tenths_below-IsSafe}
use game_bench.Plot.Page.{Config}
use game_bench.Plot.Render.{
  Series, index_of, x_pos, visible, y_top, shown, shown_load, x_text, level_line, load_label, spot,
  moves, curve, circle_of, last_median, color_of, series_text, render,
}

module _ (fmt : Format) (plain : IsPlain fmt) where
  shown-IsSafe : (c : Chart) (a b : ℕ) → IsSafe (shown fmt c a b)
  unfolding shown
  shown-IsSafe c a b = elim (Bool-cases c.comma) [
    | inl comma ↦ rw comma (plain.grouped_safe c.digits a b)
    | inr none_of ↦ rw none_of (plain.fixed_safe c.digits a b)
  ]

  shown_load-IsSafe : (c : ℕ) → IsSafe (shown_load fmt c)
  unfolding shown_load
  shown_load-IsSafe c = plain.grouped_safe 0 c 1

  x_text-IsSafe : (n : ℕ) (o : Option ℕ) → IsSafe (x_text fmt n o)
  unfolding x_text
  x_text-IsSafe n none = elim (Bool-cases (leb n 1)) [
    | inl few ↦ rw few (tenths-IsSafe fmt plain (x_pos 0 n))
    | inr many ↦ rw many (omega arith, omega arith)
  ]
  x_text-IsSafe n (some i) = tenths-IsSafe fmt plain (x_pos i n)

  level_line-IsBalanced : (c : Chart) (ymax k : ℕ) → IsBalanced (level_line fmt c ymax k)
  unfolding level_line read text_eq
  level_line-IsBalanced c ymax k st =
      let y = y_of (5 * ymax) (ymax * k) in
      let safe = tenths-IsSafe fmt plain y in
      quoted (tenths fmt y) b'"' _ safe.1 refl st (codes "line") b'"'
      ∙ quoted (tenths fmt y) b'"' _ safe.1 refl st (codes "line") b'"'
      ∙ quoted (tenths_below fmt y) b'"' _ (tenths_below-IsSafe fmt plain y).1 refl st
          (codes "text") b'"'
      ∙ skip (shown fmt c (ymax * k) 50000) (codes "</text>")
          (safe-IsBalanced _ (shown-IsSafe c (ymax * k) 50000)) (codes "text" ∷ st)

  load_label-IsBalanced : (conns : List ℕ) (c : ℕ) → IsBalanced (load_label fmt conns c)
  unfolding load_label read text_eq
  load_label-IsBalanced conns c st =
      quoted (x_text fmt (length conns) (index_of c conns)) b'"' _
        (x_text-IsSafe (length conns) (index_of c conns)).1 refl st (codes "text") b'"'
      ∙ skip (shown_load fmt c) (codes "</text>") (safe-IsBalanced _ (shown_load-IsSafe c))
          (codes "text" ∷ st)

  spot-IsSafe : (conns : List ℕ) (ymax : ℕ) (p : ℕ × ℕ) → IsSafe (spot fmt conns ymax p)
  unfolding spot
  spot-IsSafe conns ymax (c, v) =
      let y = tenths-IsSafe fmt plain (y_of ymax (5 * v)) in
      IsSafe-append (x_text fmt (length conns) (index_of c conns)) _
        (x_text-IsSafe (length conns) (index_of c conns)) ((ground arith, y.0), (ground arith, y.1))

  moves-IsSafe : (conns : List ℕ) (ymax : ℕ) (ps : List (ℕ × ℕ)) → IsSafe (moves fmt conns ymax ps)
  unfolding moves
  moves-IsSafe conns ymax [] = (tt, tt)
  moves-IsSafe conns ymax (p ∷ ps) =
      let h =
        IsSafe-append (spot fmt conns ymax p) _ (spot-IsSafe conns ymax p)
          (moves-IsSafe conns ymax ps) in
      ((ground arith, (ground arith, h.0)), (ground arith, (ground arith, h.1)))

  curve-IsSafe : (conns : List ℕ) (ymax : ℕ) (ps : List (ℕ × ℕ)) → IsSafe (curve fmt conns ymax ps)
  unfolding curve
  curve-IsSafe conns ymax [] = (tt, tt)
  curve-IsSafe conns ymax (p ∷ ps) =
      let h =
        IsSafe-append (spot fmt conns ymax p) _ (spot-IsSafe conns ymax p)
          (moves-IsSafe conns ymax ps) in
      ((ground arith, h.0), (ground arith, h.1))

  color_of-IsSafe : (slots : List (Text × ℕ)) (s : Text) → IsSafe (color_of slots s)
  unfolding color_of
  color_of-IsSafe slots s =
      IsSafe-append (codes "var(--series-") _ (omega arith, omega arith)
        (IsSafe-append (str (find text_eq 1 s slots)) (codes ")") (str-IsSafe _)
          (omega arith, omega arith))

  circle_of-IsBalanced :
      (ch : Chart) (conns : List ℕ) (ymax : ℕ) (s col : Text)
      → IsSafe col
      → (p : ℕ × ℕ) → IsBalanced (circle_of fmt ch conns ymax s col p)
  unfolding circle_of read text_eq
  circle_of-IsBalanced ch conns ymax s col safe (c, v) st =
      let here = codes "title" ∷ codes "circle" ∷ st in
      quoted (x_text fmt (length conns) (index_of c conns)) b'"' _
        (x_text-IsSafe (length conns) (index_of c conns)).1 refl st (codes "circle") b'"'
      ∙ quoted (tenths fmt (y_of ymax (5 * v))) b'"' _ (tenths-IsSafe fmt plain _).1 refl st
          (codes "circle") b'"'
      ∙ quoted col b'"' _ safe.1 refl st (codes "circle") b'"'
      ∙ skip (esc s) _ (esc-IsBalanced s) here
      ∙ skip (shown_load fmt c) _ (safe-IsBalanced _ (shown_load-IsSafe c)) here
      ∙ skip (shown fmt ch v 2000) _ (safe-IsBalanced _ (shown-IsSafe ch v 2000)) here
      ∙ skip (esc ch.ylabel) (codes "</title></circle>") (esc-IsBalanced ch.ylabel) here

  series_text-IsBalanced :
      (cfg : Config) (ch : Chart) (ymax : ℕ) (ss : Series)
      → IsBalanced (series_text fmt cfg ch ymax ss)
  unfolding series_text read text_eq
  series_text-IsBalanced cfg ch ymax (s, ps) st =
      let col = color_of cfg.slots s in
      let y = y_of ymax (5 * last_median ps) in
      let safe = color_of-IsSafe cfg.slots s in
      quoted (curve fmt cfg.conns ymax ps) b'"' _ (curve-IsSafe cfg.conns ymax ps).1 refl st
        (codes "path") b'"'
      ∙ quoted col b'"' _ safe.1 refl st (codes "path") b'"'
      ∙ skip (join_all (circle_of fmt ch cfg.conns ymax s col) ps) _
          (join_all-IsBalanced (circle_of fmt ch cfg.conns ymax s col) ps
            (circle_of-IsBalanced ch cfg.conns ymax s col safe))
          st
      ∙ quoted (tenths fmt y) b'"' _ (tenths-IsSafe fmt plain y).1 refl st (codes "circle") b'"'
      ∙ quoted col b'"' _ safe.1 refl st (codes "circle") b'"'
      ∙ quoted (tenths_below fmt y) b'"' _ (tenths_below-IsSafe fmt plain y).1 refl st
          (codes "text") b'"'
      ∙ skip (esc s) (codes "</text>") (esc-IsBalanced s) (codes "text" ∷ st)

  -- Whatever the data and the hidden servers are, every tag of a chart that the script draws is closed, in
  -- the right order, if the formatted numbers have no < and no >.
  pub render-IsBalanced :
      (cfg : Config) (hidden : List Text) (c : Chart) → IsBalanced (render fmt cfg hidden c)
  unfolding render read text_eq
  render-IsBalanced cfg hidden c st =
      let ss = visible cfg hidden c in
      let ymax = y_top ss in
      let svg = codes "svg" ∷ st in
      quoted (esc c.title) b'"' _ (esc-IsSafe c.title).1 refl st (codes "svg") b'"'
      ∙ skip (esc c.title) _ (esc-IsBalanced c.title) (codes "text" ∷ svg)
      ∙ skip (join_all (level_line fmt c ymax) (0 ∷ 1 ∷ 2 ∷ 3 ∷ 4 ∷ 5 ∷ [])) _
          (join_all-IsBalanced (level_line fmt c ymax) (0 ∷ 1 ∷ 2 ∷ 3 ∷ 4 ∷ 5 ∷ [])
            (level_line-IsBalanced c ymax))
          svg
      ∙ skip (esc c.ylabel) _ (esc-IsBalanced c.ylabel) (codes "text" ∷ svg)
      ∙ skip (join_all (load_label fmt cfg.conns) cfg.conns) _
          (join_all-IsBalanced (load_label fmt cfg.conns) cfg.conns
            (load_label-IsBalanced cfg.conns))
          svg
      ∙ skip (join_all (series_text fmt cfg c ymax) ss) (codes "</svg>")
          (join_all-IsBalanced (series_text fmt cfg c ymax) ss (series_text-IsBalanced cfg c ymax))
          svg
