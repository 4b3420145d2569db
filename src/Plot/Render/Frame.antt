-- ===== src/Plot/Render/Frame.antt =====
-- runner/plot.py: where the script puts the points of a chart.
use game_bench.Common.{
  ℕ, zero, suc, ◌*◌, ◌≤◌, ◌<◌, ◌≡◌, refl, ap, Bool, true, false, Bool-cases, inl, inr, some, List,
  [], ◌∷◌, ◌==◌, ==_refl, All, All-append, All-mono, length, arith,
}
use game_bench.Py.Text.{Text, text_eq}
use game_bench.Py.Assoc.{find, find-All}
use game_bench.Plot.Load.{member}
use game_bench.Plot.Axis.{nice_max}
use game_bench.Plot.Axis.Bounds.{nice_max-Covers}
use game_bench.Plot.Series.{Groups, values_of, point_of, points}
use game_bench.Plot.Charts.{Chart, charts, x0, x1, y0, y1}
use game_bench.Plot.Table.{Loaded}
use game_bench.Plot.Svg.{y_of}
use game_bench.Plot.Svg.Frame.{Between, y_of-Between, nice_max_zero}
use game_bench.Plot.Page.{contains, add_series, by_server, series_json, cfg_of}
use game_bench.Plot.Render.{
  Series, next_index, index_of, x_pos, points_max, series_max, visible_one, visible_in, visible,
  y_top,
}

-- A load that is there has a place.
index_of_there :
    (c : ℕ) (conns : List ℕ)
    → contains c conns ≡ true
    → (i : ℕ) × (index_of c conns ≡ some i) × (i < length conns)
unfolding index_of next_index contains
index_of_there c [] h = ground arith
index_of_there c (d ∷ ds) h = elim (Bool-cases (d == c)) [
  | inl same ↦ (zero, rw same, omega arith)
  | inr other ↦
      let at = index_of_there c ds (ground arith) in
      (suc at.0, rw other (ap (next_index false) at.1), omega (arith, at.2))
]

x_pos-Between : (i n : ℕ) → i < n → Between x0 x1 (x_pos i n)
unfolding x_pos
x_pos-Between i zero h = omega (arith, h)
x_pos-Between i (suc zero) h = omega arith
x_pos-Between i (suc (suc m)) h = omega (arith, h)

-- Every point of a series is of one of the loads.
abbrev OfLoads : List ℕ → ℕ × ℕ → Type 0
OfLoads conns (c, v) = contains c conns ≡ true

y_top-Covers : (ss : List Series) → (5 * series_max ss ≤ y_top ss) × (0 < y_top ss)
unfolding y_top
y_top-Covers ss = bound (5 * series_max ss)
  where
    bound : (v : ℕ) → (v ≤ nice_max 10000 v) × (0 < nice_max 10000 v)
    bound zero = omega (arith, nice_max_zero 10000)
    bound (suc v) = let c = nice_max-Covers 10000 v in (c.0, omega (arith, c.0))

OfLoads-later : (c : ℕ) (conns : List ℕ) (p : ℕ × ℕ) → OfLoads conns p → OfLoads (c ∷ conns) p
unfolding contains
OfLoads-later c conns (d, v) h = ground arith

points-OfLoads : (s : Text) (conns : List ℕ) (g : Groups) → All (OfLoads conns) (points s conns g)
unfolding points contains point_of
points-OfLoads s [] g = tt
points-OfLoads s (c ∷ cs) g =
    All-append (OfLoads (c ∷ cs)) (point_of c (values_of (s, c) g)) (points s cs g)
      (own (values_of (s, c) g))
      (All-mono (OfLoads-later c cs) (points s cs g) (points-OfLoads s cs g))
  where
    own : (vs : List ℕ) → All (OfLoads (c ∷ cs)) (point_of c vs)
    own [] = tt
    own (v ∷ vs) = (rw (==_refl c) refl, tt)

-- The points of every series are of the loads.
abbrev EachOfLoads : List ℕ → List Series → Type 0
EachOfLoads conns = All (λ (e : Series). All (OfLoads conns) e.1)

add_series-EachOfLoads :
    (conns : List ℕ) (s : Text) (ps : List (ℕ × ℕ)) (rest : List Series)
    → All (OfLoads conns) ps
    → EachOfLoads conns rest
    → EachOfLoads conns (add_series s ps rest)
unfolding add_series
add_series-EachOfLoads conns s [] rest h k = k
add_series-EachOfLoads conns s (p ∷ ps) rest h k = (h, k)

by_server-EachOfLoads :
    (g : Loaded) (field : Text) (conns : List ℕ) (ss : List Text)
    → EachOfLoads conns (by_server g field conns ss)
unfolding by_server
by_server-EachOfLoads g field conns [] = tt
by_server-EachOfLoads g field conns (s ∷ ss) =
    add_series-EachOfLoads conns s (points s conns (g field)) (by_server g field conns ss)
      (points-OfLoads s conns (g field)) (by_server-EachOfLoads g field conns ss)

series_json-EachOfLoads :
    (g : Loaded) (servers : List Text) (conns : List ℕ) (cs : List Chart)
    → All (λ (e : Text × List Series). EachOfLoads conns e.1) (series_json g servers conns cs)
unfolding series_json
series_json-EachOfLoads g servers conns [] = tt
series_json-EachOfLoads g servers conns (c ∷ cs) =
    (by_server-EachOfLoads g c.field conns servers, series_json-EachOfLoads g servers conns cs)

visible_one-All {ℓ} :
    (P : List (ℕ × ℕ) → Type ℓ) (b : Bool) (s : Text) (ps : List (ℕ × ℕ)) (rest : List Series)
    → P ps
    → All (λ (e : Series). P e.1) rest
    → All (λ (e : Series). P e.1) (visible_one b s ps rest)
unfolding visible_one
visible_one-All P true s ps rest h k = k
visible_one-All P false s [] rest h k = k
visible_one-All P false s (p ∷ ps) rest h k = (h, k)

visible_in-EachOfLoads :
    (conns : List ℕ) (hidden servers : List Text) (by : List Series)
    → EachOfLoads conns by
    → EachOfLoads conns (visible_in hidden servers by)
unfolding visible_in
visible_in-EachOfLoads conns hidden [] by h = tt
visible_in-EachOfLoads conns hidden (s ∷ ss) by h =
    visible_one-All (All (OfLoads conns)) (member s hidden) s (find text_eq [] s by)
      (visible_in hidden ss by) (find-All text_eq (All (OfLoads conns)) [] tt s by h)
      (visible_in-EachOfLoads conns hidden ss by h)

visible-EachOfLoads :
    (g : Loaded) (servers : List Text) (conns : List ℕ) (hidden : List Text) (c : Chart)
    → EachOfLoads conns (visible (cfg_of g servers conns) hidden c)
unfolding visible cfg_of
visible-EachOfLoads g servers conns hidden c = visible_in-EachOfLoads conns hidden servers _ (
    find-All text_eq (EachOfLoads conns) [] tt c.field (series_json g servers conns charts)
      (series_json-EachOfLoads g servers conns charts))

-- Where a point is drawn, if its load has the place i among those of the page.
pub record InChart (conns : List ℕ) (ymax : ℕ) (p : ℕ × ℕ) : Type 0 where
  pub place : ℕ
  pub placed : index_of p.0 conns ≡ some place
  pub across : Between x0 x1 (x_pos place (length conns))
  pub up : Between y1 y0 (y_of ymax (5 * p.1))

InChart-of :
    (conns : List ℕ) (ymax top : ℕ) (p : ℕ × ℕ)
    → 5 * top ≤ ymax
    → 0 < ymax
    → OfLoads conns p
    → p.1 ≤ top
    → InChart conns ymax p
InChart-of conns ymax top (c, v) covers positive h below =
    let at = index_of_there c conns h in
    record {
      place = at.0;
      placed = at.1;
      across = x_pos-Between at.0 (length conns) at.2;
      up = y_of-Between ymax (5 * v) (omega (arith, covers, below)) positive;
    }

all_points :
    (conns : List ℕ) (ymax top : ℕ) (ps : List (ℕ × ℕ))
    → 5 * top ≤ ymax
    → 0 < ymax
    → All (OfLoads conns) ps
    → points_max ps ≤ top
    → All (InChart conns ymax) ps
unfolding points_max
all_points conns ymax top [] covers positive h below = tt
all_points conns ymax top ((c, v) ∷ ps) covers positive h below = (
  InChart-of conns ymax top (c, v) covers positive h.0 (omega (arith, below)),
  all_points conns ymax top ps covers positive h.1 (omega (arith, below)),
)

all_series :
    (conns : List ℕ) (ymax top : ℕ) (ss : List Series)
    → 5 * top ≤ ymax
    → 0 < ymax
    → EachOfLoads conns ss
    → series_max ss ≤ top
    → All (λ (e : Series). All (InChart conns ymax) e.1) ss
unfolding series_max
all_series conns ymax top [] covers positive h below = tt
all_series conns ymax top ((s, ps) ∷ ss) covers positive h below = (
  all_points conns ymax top ps covers positive h.0 (omega (arith, below)),
  all_series conns ymax top ss covers positive h.1 (omega (arith, below)),
)

-- Whatever the data and the hidden servers are, every point of every line that the script draws has a load
-- of the page, and lies in the frame of the plot, between x0 and x1 and between y1 and y0.
pub render-InChart :
    (g : Loaded) (servers : List Text) (conns : List ℕ) (hidden : List Text) (c : Chart)
    → All
        (λ (e : Series).
          All (InChart conns (y_top (visible (cfg_of g servers conns) hidden c))) e.1)
        (visible (cfg_of g servers conns) hidden c)
render-InChart g servers conns hidden c =
    let ss = visible (cfg_of g servers conns) hidden c in
    let bound = y_top-Covers ss in
    all_series conns (y_top ss) (series_max ss) ss bound.0 bound.1
      (visible-EachOfLoads g servers conns hidden c) (omega arith)
