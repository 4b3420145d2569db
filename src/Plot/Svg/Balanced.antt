-- ===== src/Plot/Svg/Balanced.antt =====
-- runner/plot.py: the tags of `timeline_svg`.
use game_bench.Common.{ℕ, ◌*◌, refl, ◌∙◌, List, [], ◌∷◌, All, arith}
use game_bench.Py.Text.{Text, codes, text_eq}
use game_bench.Py.Decimal.{str}
use game_bench.Plot.Escape.{esc}
use game_bench.Plot.Escape.Entities.{IsSafe, IsSafe-append}
use game_bench.Plot.Markup.{
  read, IsBalanced, skip, quoted, nil-IsBalanced, append-IsBalanced, safe-IsBalanced,
}
use game_bench.Plot.Axis.{ticks}
use game_bench.Plot.Timeline.{TlRow}
use game_bench.Plot.Charts.{Line, tl_series, Format, commas}
use game_bench.Plot.Table.{join_all}
use game_bench.Plot.Table.Balanced.{
  IsPlain, str-IsSafe, esc-IsSafe, esc-IsBalanced, commas-IsBalanced, join_all-IsBalanced,
}
use game_bench.Plot.Svg.{
  tenths, tenths_below, y_of, x_of, grid_line, tick_label, place, path_rest, path_of, draw,
  last_value, line_points, max_time, y_max, timeline_svg,
}

pub colors-IsSafe : All (λ (l : Line). IsSafe l.color) tl_series
unfolding tl_series
colors-IsSafe = omega arith

module _ (fmt : Format) (plain : IsPlain fmt) where
  pub tenths-IsSafe : (q : ℕ × ℕ) → IsSafe (tenths fmt q)
  unfolding tenths
  tenths-IsSafe (a, b) = plain.fixed_safe 1 a b

  pub tenths_below-IsSafe : (q : ℕ × ℕ) → IsSafe (tenths_below fmt q)
  unfolding tenths_below
  tenths_below-IsSafe (a, b) = plain.fixed_safe 1 _ b

  grid_line-IsBalanced : (ymax k : ℕ) → IsBalanced (grid_line fmt ymax k)
  unfolding grid_line read text_eq
  grid_line-IsBalanced ymax k st =
      quoted (tenths fmt (y_of (5 * ymax) (ymax * k))) b'"' _ (tenths-IsSafe _).1 refl st
        (codes "line") b'"'
      ∙ quoted (tenths fmt (y_of (5 * ymax) (ymax * k))) b'"' _ (tenths-IsSafe _).1 refl st
          (codes "line") b'"'
      ∙ quoted (tenths_below fmt (y_of (5 * ymax) (ymax * k))) b'"' _ (tenths_below-IsSafe _).1 refl
          st (codes "text") b'"'
      ∙ skip (fmt.fixed 1 (ymax * k) 5000) (codes "</text>")
          (safe-IsBalanced _ (plain.fixed_safe 1 (ymax * k) 5000)) (codes "text" ∷ st)

  tick_label-IsBalanced : (max_t t : ℕ) → IsBalanced (tick_label fmt max_t t)
  unfolding tick_label read text_eq
  tick_label-IsBalanced max_t t st =
      quoted (tenths fmt (x_of max_t t)) b'"' _ (tenths-IsSafe _).1 refl st (codes "text") b'"'
      ∙ skip (str t) (codes "</text>") (safe-IsBalanced _ (str-IsSafe t)) (codes "text" ∷ st)

  place-IsSafe : (max_t ymax : ℕ) (p : ℕ × ℕ) → IsSafe (place fmt max_t ymax p)
  unfolding place
  place-IsSafe max_t ymax (t, v) =
      let y = tenths-IsSafe (y_of ymax v) in
      IsSafe-append (tenths fmt (x_of max_t t)) _ (tenths-IsSafe (x_of max_t t))
        ((ground arith, y.0), (ground arith, y.1))

  path_rest-IsSafe : (max_t ymax : ℕ) (ps : List (ℕ × ℕ)) → IsSafe (path_rest fmt max_t ymax ps)
  unfolding path_rest
  path_rest-IsSafe max_t ymax [] = (tt, tt)
  path_rest-IsSafe max_t ymax (p ∷ ps) =
      let h =
        IsSafe-append (place fmt max_t ymax p) _ (place-IsSafe max_t ymax p)
          (path_rest-IsSafe max_t ymax ps) in
      ((ground arith, (ground arith, h.0)), (ground arith, (ground arith, h.1)))

  path_of-IsSafe :
      (max_t ymax : ℕ) (p : ℕ × ℕ) (ps : List (ℕ × ℕ)) → IsSafe (path_of fmt max_t ymax p ps)
  unfolding path_of
  path_of-IsSafe max_t ymax p ps =
      let h =
        IsSafe-append (place fmt max_t ymax p) _ (place-IsSafe max_t ymax p)
          (path_rest-IsSafe max_t ymax ps) in
      ((ground arith, h.0), (ground arith, h.1))

  draw-IsBalanced :
      (max_t ymax : ℕ) (l : Line) (ps : List (ℕ × ℕ))
      → IsSafe l.color
      → IsBalanced (draw fmt max_t ymax l ps)
  unfolding draw read text_eq
  draw-IsBalanced max_t ymax l [] safe st = refl
  draw-IsBalanced max_t ymax l ((t, v) ∷ ps) safe st =
      quoted (path_of fmt max_t ymax (t, v) ps) b'"' _ (path_of-IsSafe max_t ymax (t, v) ps).1 refl
        st (codes "path") b'"'
      ∙ quoted l.color b'"' _ safe.1 refl st (codes "path") b'"'
      ∙ quoted (tenths_below fmt (y_of ymax (last_value v ps))) b'"' _ (tenths_below-IsSafe _).1
          refl st (codes "text") b'"'
      ∙ quoted l.color b'"' _ safe.1 refl st (codes "text") b'"'
      ∙ skip (esc l.label) (codes "</text>") (esc-IsBalanced l.label) (codes "text" ∷ st)

  lines-IsBalanced :
      (max_t ymax : ℕ) (rows : List TlRow) (ls : List Line)
      → All (λ (l : Line). IsSafe l.color) ls
      → IsBalanced (join_all (λ (l : Line). draw fmt max_t ymax l (line_points l.field rows)) ls)
  unfolding join_all
  lines-IsBalanced max_t ymax rows [] h = nil-IsBalanced
  lines-IsBalanced max_t ymax rows (l ∷ ls) h =
      append-IsBalanced (draw fmt max_t ymax l (line_points l.field rows)) _
        (draw-IsBalanced max_t ymax l (line_points l.field rows) h.0)
        (lines-IsBalanced max_t ymax rows ls h.1)

  pub timeline_svg-IsBalanced :
      (server : Text) (conns : ℕ) (rows : List TlRow)
      → IsBalanced (timeline_svg fmt server conns rows)
  unfolding timeline_svg read text_eq
  timeline_svg-IsBalanced server conns rows st =
      let max_t = max_time rows in
      let ymax = y_max rows in
      quoted (esc server) 32 _ (esc-IsSafe server).1 refl st (codes "svg") b'"'
      ∙ skip (esc server) _ (esc-IsBalanced server) (codes "text" ∷ codes "svg" ∷ st)
      ∙ skip (commas conns) _ (commas-IsBalanced conns) (codes "text" ∷ codes "svg" ∷ st)
      ∙ skip (join_all (grid_line fmt ymax) (0 ∷ 1 ∷ 2 ∷ 3 ∷ 4 ∷ 5 ∷ [])) _
          (join_all-IsBalanced (grid_line fmt ymax) (0 ∷ 1 ∷ 2 ∷ 3 ∷ 4 ∷ 5 ∷ [])
            (grid_line-IsBalanced ymax))
          (codes "svg" ∷ st)
      ∙ skip (join_all (tick_label fmt max_t) (ticks max_t)) _
          (join_all-IsBalanced (tick_label fmt max_t) (ticks max_t) (tick_label-IsBalanced max_t))
          (codes "svg" ∷ st)
      ∙ skip (join_all (λ (l : Line). draw fmt max_t ymax l (line_points l.field rows)) tl_series)
          (codes "</svg>") (lines-IsBalanced max_t ymax rows tl_series colors-IsSafe)
          (codes "svg" ∷ st)
