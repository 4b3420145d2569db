-- ===== src/Plot/Svg.antt =====
-- runner/plot.py: `timeline_svg`. Values are counted in thousandths. A coordinate is a quotient, which
-- the parameter `fmt` turns into text.
pub mod Balanced
pub mod Frame
use game_bench.Common.{
  ℕ, zero, suc, ◌+◌, ◌-◌, ◌*◌, Bool, true, false, Option, none, some, List, [], ◌∷◌, ◌++◌, ◌==◌,
  max, if◌then◌else◌,
}
use game_bench.Py.Text.{Text, codes, text_eq, join}
use game_bench.Py.Assoc.{find}
use game_bench.Py.Decimal.{str}
use game_bench.Plot.Escape.{esc}
use game_bench.Plot.Axis.{nice_max, ticks}
use game_bench.Plot.Timeline.{TlRow}
use game_bench.Plot.Charts.{Line, tl_series, x0, x1, y0, y1, Format, commas}
use game_bench.Plot.Table.{join_all}

-- max((int(r["t_s"]) for r in rows), default=0)
unfoldable pub max_time : List TlRow → ℕ
max_time [] = 0
max_time (r ∷ rs) = max r.t_s (max_time rs)

-- float(r[field]), where a missing column and a text that is no number are passed over
unfoldable pub value_in : Text → TlRow → Option ℕ
value_in field r = find text_eq none field r.cells

unfoldable pub higher : Option ℕ → ℕ → ℕ
higher none v = v
higher (some u) v = max u v

unfoldable pub row_max : List Line → TlRow → ℕ
unfolding higher
row_max [] r = 0
row_max (l ∷ ls) r = higher (value_in l.field r) (row_max ls r)

-- vmax, over every row and every line
unfoldable pub value_max : List TlRow → ℕ
unfolding row_max
value_max [] = 0
value_max (r ∷ rs) = max (row_max tl_series r) (value_max rs)

-- ymax; nice_max gives one whole unit at 0, as the source does.
unfoldable pub y_max : List TlRow → ℕ
unfolding value_max
y_max rs = nice_max 1000 (value_max rs)

-- X(t) and Y(v), as a numerator and a denominator
unfoldable pub x_of : ℕ → ℕ → ℕ × ℕ
x_of zero t = (x0, 1)
x_of (suc m) t = (x0 * suc m + (x1 - x0) * t, suc m)

unfoldable pub y_of : ℕ → ℕ → ℕ × ℕ
y_of ymax v = (y0 * ymax - (y0 - y1) * v, ymax)

-- pts: the rows that have a value for the line
unfoldable pub add_point : ℕ → Option ℕ → List (ℕ × ℕ) → List (ℕ × ℕ)
add_point t none ps = ps
add_point t (some v) ps = (t, v) ∷ ps

unfoldable pub line_points : Text → List TlRow → List (ℕ × ℕ)
unfolding add_point
line_points field [] = []
line_points field (r ∷ rs) = add_point r.t_s (value_in field r) (line_points field rs)

unfoldable pub last_value : ℕ → List (ℕ × ℕ) → ℕ
last_value v [] = v
last_value v ((t, u) ∷ ps) = last_value u ps

module _ (fmt : Format) where
  -- f"{q:.1f}", and f"{q + 4:.1f}"
  unfoldable pub tenths : ℕ × ℕ → Text
  tenths (a, b) = fmt.fixed 1 a b

  unfoldable pub tenths_below : ℕ × ℕ → Text
  tenths_below (a, b) = fmt.fixed 1 (a + 4 * b) b

  -- One round of `for k in range(6)`, with v = ymax * k / 5.
  unfoldable pub grid_line : ℕ → ℕ → Text
  unfolding tenths tenths_below y_of
  grid_line ymax k =
      let y = y_of (5 * ymax) (ymax * k) in
      codes "<line x1=\"72\" y1=\""
      ++ (tenths y
          ++ (codes "\" x2=\"772\" y2=\""
              ++ (tenths y
                  ++ (codes "\" class=\"grid\"/><text x=\"62\" y=\""
                      ++ (tenths_below y
                          ++ (codes "\" class=\"tick tick-y\">"
                              ++ (fmt.fixed 1 (ymax * k) 5000 ++ codes "</text>")))))))

  unfoldable pub tick_label : ℕ → ℕ → Text
  unfolding tenths x_of
  tick_label max_t t =
      codes "<text x=\""
      ++ (tenths (x_of max_t t)
          ++ (codes "\" y=\"330\" class=\"tick tick-x\">" ++ (str t ++ codes "</text>")))

  -- f"{X(t):.1f},{Y(v):.1f}"
  unfoldable pub place : ℕ → ℕ → ℕ × ℕ → Text
  unfolding tenths x_of y_of
  place max_t ymax (t, v) = tenths (x_of max_t t) ++ b',' ∷ tenths (y_of ymax v)

  -- The moves of a path behind its first one.
  unfoldable pub path_rest : ℕ → ℕ → List (ℕ × ℕ) → Text
  unfolding place
  path_rest max_t ymax [] = []
  path_rest max_t ymax (p ∷ ps) = 32 ∷ b'L' ∷ place max_t ymax p ++ path_rest max_t ymax ps

  unfoldable pub path_of : ℕ → ℕ → ℕ × ℕ → List (ℕ × ℕ) → Text
  unfolding place path_rest
  path_of max_t ymax p ps = b'M' ∷ place max_t ymax p ++ path_rest max_t ymax ps

  -- The path of a line and its label, or nothing where the line has no point.
  unfoldable pub draw : ℕ → ℕ → Line → List (ℕ × ℕ) → Text
  unfolding path_of last_value tenths_below y_of
  draw max_t ymax l [] = []
  draw max_t ymax l ((t, v) ∷ ps) =
      codes "<path d=\""
      ++ (path_of max_t ymax (t, v) ps
          ++ (codes "\" fill=\"none\" stroke=\""
              ++ (l.color
                  ++ (codes
                        "\" stroke-width=\"2\" stroke-linejoin=\"round\" stroke-linecap=\"round\"/><text x=\"780\" y=\""
                      ++ (tenths_below (y_of ymax (last_value v ps))
                          ++ (codes "\" class=\"direct-label\" fill=\""
                              ++ (l.color
                                  ++ (codes "\">" ++ (esc l.label ++ codes "</text>")))))))))

  unfoldable pub timeline_svg : Text → ℕ → List TlRow → Text
  unfolding grid_line tick_label draw join_all max_time y_max line_points
  timeline_svg server conns rows =
      let max_t = max_time rows in
      let ymax = y_max rows in
      codes "<svg viewBox=\"0 0 900 360\" class=\"chart\" role=\"img\" aria-label=\""
      ++ (esc server
          ++ (codes
                " latency over time\" preserveAspectRatio=\"xMidYMid meet\"><text x=\"72\" y=\"24\" class=\"c-title\">"
              ++ (esc server
                  ++ (codes " @ "
                      ++ (commas conns
                          ++ (codes " conns</text>"
                              ++ (join_all (grid_line ymax) (0 ∷ 1 ∷ 2 ∷ 3 ∷ 4 ∷ 5 ∷ [])
                                  ++ (codes
                                        "<text class=\"axis-label\" transform=\"translate(18,174.0) rotate(-90)\">ms</text>"
                                      ++ (join_all (tick_label max_t) (ticks max_t)
                                          ++ (codes
                                                "<text x=\"422.0\" y=\"352\" class=\"axis-label\">time (s, measured phase)</text><line x1=\"72\" y1=\"308\" x2=\"772\" y2=\"308\" class=\"baseline\"/>"
                                              ++ (join_all
                                                    (λ (l : Line).
                                                      draw max_t ymax l (line_points l.field rows))
                                                    tl_series
                                                  ++ codes "</svg>")))))))))))
