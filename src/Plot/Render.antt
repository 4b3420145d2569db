-- ===== src/Plot/Render.antt =====
-- runner/plot.py: `render` of the script JS, which draws the chart of a field without the hidden
-- servers. A value is a number of half thousandths, the bound of an axis one of ten-thousandths.
pub mod Balanced
pub mod Frame
use game_bench.Common.{
  ℕ, zero, suc, ◌+◌, ◌-◌, ◌*◌, Bool, true, false, Option, none, some, List, [], ◌∷◌, ◌++◌, ◌==◌,
  max, length, leb, if◌then◌else◌,
}
use game_bench.Py.Text.{Text, codes, text_eq}
use game_bench.Py.Assoc.{find}
use game_bench.Py.Decimal.{str}
use game_bench.Plot.Escape.{esc}
use game_bench.Plot.Axis.{nice_max}
use game_bench.Plot.Load.{member}
use game_bench.Plot.Charts.{Chart, x0, x1, y0, y1, Format}
use game_bench.Plot.Table.{join_all}
use game_bench.Plot.Svg.{y_of, tenths, tenths_below}
use game_bench.Plot.Page.{Config}

-- A server with its points.
abbrev pub Series : Type 0
Series = Text × List (ℕ × ℕ)

-- xi[c]: the place of a load, which is undefined for a load that is not there.
unfoldable pub next_index : Bool → Option ℕ → Option ℕ
next_index true o = some 0
next_index false none = none
next_index false (some i) = some (suc i)

unfoldable pub index_of : ℕ → List ℕ → Option ℕ
unfolding next_index
index_of c [] = none
index_of c (d ∷ ds) = next_index (d == c) (index_of c ds)

-- xpos(i, n), as a numerator and a denominator
unfoldable pub x_pos : ℕ → ℕ → ℕ × ℕ
x_pos i zero = (x0, 1)
x_pos i (suc zero) = (x0, 1)
x_pos i (suc (suc m)) = (x0 * suc m + (x1 - x0) * i, suc m)

-- pts.forEach(… vmax …)
unfoldable pub points_max : List (ℕ × ℕ) → ℕ
points_max [] = 0
points_max ((c, v) ∷ ps) = max v (points_max ps)

unfoldable pub series_max : List Series → ℕ
unfolding points_max
series_max [] = 0
series_max ((s, ps) ∷ ss) = max (points_max ps) (series_max ss)

-- One round of the loop over the servers: those that are hidden and those with no points are left out.
unfoldable pub visible_one : Bool → Text → List (ℕ × ℕ) → List Series → List Series
visible_one true s ps rest = rest
visible_one false s [] rest = rest
visible_one false s (p ∷ ps) rest = (s, p ∷ ps) ∷ rest

unfoldable pub visible_in : List Text → List Text → List Series → List Series
unfolding visible_one
visible_in hidden [] by_server = []
visible_in hidden (s ∷ ss) by_server =
    visible_one (member s hidden) s (find text_eq [] s by_server) (visible_in hidden ss by_server)

unfoldable pub visible : Config → List Text → Chart → List Series
unfolding visible_in
visible cfg hidden c = visible_in hidden cfg.servers (find text_eq [] c.field cfg.series)

unfoldable pub y_top : List Series → ℕ
unfolding series_max
y_top ss = nice_max 10000 (5 * series_max ss)

-- pts[pts.length - 1][1]
unfoldable pub last_median : List (ℕ × ℕ) → ℕ
last_median [] = 0
last_median ((c, v) ∷ []) = v
last_median (p ∷ q ∷ ps) = last_median (q ∷ ps)

unfoldable pub color_of : List (Text × ℕ) → Text → Text
color_of slots s = codes "var(--series-" ++ (str (find text_eq 1 s slots) ++ codes ")")

module _ (fmt : Format) where
  -- fmt(a / b, spec)
  unfoldable pub shown : Chart → ℕ → ℕ → Text
  shown c a b = if c.comma then fmt.grouped c.digits a b else fmt.fixed c.digits a b

  -- fmt(c, {d: 0, c: true})
  unfoldable pub shown_load : ℕ → Text
  shown_load c = fmt.grouped 0 c 1

  -- X(c).toFixed(1), with none for an index that is undefined
  unfoldable pub x_text : ℕ → Option ℕ → Text
  unfolding tenths x_pos
  x_text n none = if leb n 1 then tenths fmt (x_pos 0 n) else codes "NaN"
  x_text n (some i) = tenths fmt (x_pos i n)

  unfoldable pub level_line : Chart → ℕ → ℕ → Text
  unfolding shown tenths tenths_below y_of
  level_line c ymax k =
      let y = y_of (5 * ymax) (ymax * k) in
      codes "<line x1=\"72\" y1=\""
      ++ (tenths fmt y
          ++ (codes "\" x2=\"772\" y2=\""
              ++ (tenths fmt y
                  ++ (codes "\" class=\"grid\"/><text x=\"62\" y=\""
                      ++ (tenths_below fmt y
                          ++ (codes "\" class=\"tick tick-y\">"
                              ++ (shown c (ymax * k) 50000 ++ codes "</text>")))))))

  unfoldable pub load_label : List ℕ → ℕ → Text
  unfolding x_text index_of shown_load
  load_label conns c =
      codes "<text x=\""
      ++ (x_text (length conns) (index_of c conns)
          ++ (codes "\" y=\"330\" class=\"tick tick-x\">" ++ (shown_load c ++ codes "</text>")))

  -- X(p[0]) and Y(p[1]), with a comma between them
  unfoldable pub spot : List ℕ → ℕ → ℕ × ℕ → Text
  unfolding x_text index_of tenths y_of
  spot conns ymax (c, v) =
      x_text (length conns) (index_of c conns) ++ b',' ∷ tenths fmt (y_of ymax (5 * v))

  unfoldable pub moves : List ℕ → ℕ → List (ℕ × ℕ) → Text
  unfolding spot
  moves conns ymax [] = []
  moves conns ymax (p ∷ ps) = 32 ∷ b'L' ∷ spot conns ymax p ++ moves conns ymax ps

  unfoldable pub curve : List ℕ → ℕ → List (ℕ × ℕ) → Text
  unfolding spot moves
  curve conns ymax [] = []
  curve conns ymax (p ∷ ps) = b'M' ∷ spot conns ymax p ++ moves conns ymax ps

  -- The circle of a point, with its tooltip.
  unfoldable pub circle_of : Chart → List ℕ → ℕ → Text → Text → ℕ × ℕ → Text
  unfolding x_text index_of tenths y_of shown shown_load
  circle_of ch conns ymax s col (c, v) =
      codes "<circle cx=\""
      ++ (x_text (length conns) (index_of c conns)
          ++ (codes "\" cy=\""
              ++ (tenths fmt (y_of ymax (5 * v))
                  ++ (codes "\" r=\"4\" fill=\""
                      ++ (col
                          ++ (codes "\" stroke=\"var(--surface-1)\" stroke-width=\"1.5\"><title>"
                              ++ (esc s
                                  ++ (codes " @ "
                                      ++ (shown_load c
                                          ++ (codes " conns: "
                                              ++ (shown ch v 2000
                                                  ++ (32 ∷ esc ch.ylabel
                                                      ++ codes "</title></circle>"))))))))))))

  unfoldable pub series_text : Config → Chart → ℕ → Series → Text
  unfolding curve circle_of last_median color_of tenths tenths_below y_of join_all
  series_text cfg ch ymax (s, ps) =
      let col = color_of cfg.slots s in
      let y = y_of ymax (5 * last_median ps) in
      codes "<path d=\""
      ++ (curve cfg.conns ymax ps
          ++ (codes "\" fill=\"none\" stroke=\""
              ++ (col
                  ++ (codes
                        "\" stroke-width=\"2\" stroke-linejoin=\"round\" stroke-linecap=\"round\"/>"
                      ++ (join_all (circle_of ch cfg.conns ymax s col) ps
                          ++ (codes "<circle cx=\"786\" cy=\""
                              ++ (tenths fmt y
                                  ++ (codes "\" r=\"4\" fill=\""
                                      ++ (col
                                          ++ (codes "\"/><text x=\"796\" y=\""
                                              ++ (tenths_below fmt y
                                                  ++ (codes "\" class=\"direct-label\">"
                                                      ++ (esc s ++ codes "</text>")))))))))))))

  unfoldable pub render : Config → List Text → Chart → Text
  unfolding visible y_top level_line load_label series_text join_all
  render cfg hidden c =
      let ss = visible cfg hidden c in
      let ymax = y_top ss in
      codes "<svg viewBox=\"0 0 900 360\" class=\"chart\" role=\"img\" aria-label=\""
      ++ (esc c.title
          ++ (codes
                "\" preserveAspectRatio=\"xMidYMid meet\"><text x=\"72\" y=\"24\" class=\"c-title\">"
              ++ (esc c.title
                  ++ (codes "</text>"
                      ++ (join_all (level_line c ymax) (0 ∷ 1 ∷ 2 ∷ 3 ∷ 4 ∷ 5 ∷ [])
                          ++ (codes
                                "<text class=\"axis-label\" transform=\"translate(18,174) rotate(-90)\">"
                              ++ (esc c.ylabel
                                  ++ (codes "</text>"
                                      ++ (join_all (load_label cfg.conns) cfg.conns
                                          ++ (codes
                                                "<text x=\"422\" y=\"352\" class=\"axis-label\">connections (offered load)</text><line x1=\"72\" y1=\"308\" x2=\"772\" y2=\"308\" class=\"baseline\"/>"
                                              ++ (join_all (series_text cfg c ymax) ss
                                                  ++ codes "</svg>")))))))))))
