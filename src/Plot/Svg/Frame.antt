-- ===== src/Plot/Svg/Frame.antt =====
-- runner/plot.py: where `timeline_svg` puts its points.
use game_bench.Common.{
  ℕ, zero, suc, ◌*◌, ◌≤◌, ◌<◌, ◌≡◌, refl, Option, none, some, List, [], ◌∷◌, All, All-mono, arith,
}
use game_bench.Plot.Axis.{nice_max}
use game_bench.Plot.Axis.Bounds.{nice_max-Covers}
use game_bench.Plot.Timeline.{TlRow}
use game_bench.Plot.Charts.{Line, tl_series, x0, x1, y0, y1}
use game_bench.Plot.Svg.{
  max_time, value_in, higher, row_max, value_max, y_max, x_of, y_of, add_point, line_points,
}

-- A quotient between two whole numbers, the bounds included.
pub record Between (lo hi : ℕ) (q : ℕ × ℕ) : Type 0 where
  pub positive : 0 < q.1
  pub low : lo * q.1 ≤ q.0
  pub high : q.0 ≤ hi * q.1

-- A point of the rows, by their last second and their greatest value.
abbrev pub InRows : ℕ → ℕ → ℕ × ℕ → Type 0
InRows max_t vmax (t, v) = (t ≤ max_t) × (v ≤ vmax)

abbrev pub InFrame : ℕ → ℕ → ℕ × ℕ → Type 0
InFrame max_t ymax (t, v) = Between x0 x1 (x_of max_t t) × Between y1 y0 (y_of ymax v)

widen : (a b a' b' : ℕ) → a ≤ a' → b ≤ b' → (p : ℕ × ℕ) → InRows a b p → InRows a' b' p
widen a b a' b' h k (t, v) i = omega arith

add_point-InRows :
    (t a b : ℕ) (o : Option ℕ) (ps : List (ℕ × ℕ))
    → t ≤ a
    → ((v : ℕ) → o ≡ some v → v ≤ b)
    → All (InRows a b) ps
    → All (InRows a b) (add_point t o ps)
unfolding add_point
add_point-InRows t a b none ps h k i = i
add_point-InRows t a b (some v) ps h k i = ((h, k v refl), i)

-- The values of a line, if the greatest value of a row is at least its own.
line_points-InRows :
    (l : Line) (rows : List TlRow)
    → ((r : TlRow) (v : ℕ) → value_in l.field r ≡ some v → v ≤ row_max tl_series r)
    → All (InRows (max_time rows) (value_max rows)) (line_points l.field rows)
unfolding line_points max_time value_max
line_points-InRows l [] below = tt
line_points-InRows l (r ∷ rows) below =
    add_point-InRows r.t_s _ _ (value_in l.field r) (line_points l.field rows) (omega arith)
      (λ v e. omega (arith, below r v e))
      (All-mono (widen (max_time rows) (value_max rows) _ _ (omega arith) (omega arith))
        (line_points l.field rows) (line_points-InRows l rows below))

higher_own : (o : Option ℕ) (v w : ℕ) → o ≡ some v → v ≤ higher o w
unfolding higher
higher_own none v w e = cc
higher_own (some u) v w e = ground arith

higher_more : (o : Option ℕ) (v w : ℕ) → v ≤ w → v ≤ higher o w
unfolding higher
higher_more none v w h = h
higher_more (some u) v w h = omega arith

row_max-value_in :
    (ls : List Line)
    → All (λ (l : Line). (r : TlRow) (v : ℕ) → value_in l.field r ≡ some v → v ≤ row_max ls r) ls
unfolding row_max
row_max-value_in [] = tt
row_max-value_in (l ∷ ls) = (
  λ r v e. higher_own (value_in l.field r) v (row_max ls r) e,
  All-mono (λ k below r v e. higher_more (value_in l.field r) v (row_max ls r) (below r v e)) ls
      (row_max-value_in ls),
)

pub nice_max_zero : (one : ℕ) → nice_max one 0 ≡ one
unfolding nice_max
nice_max_zero one = refl

y_max_bound : (rows : List TlRow) → (value_max rows ≤ y_max rows) × (0 < y_max rows)
unfolding y_max
y_max_bound rows = bound (value_max rows)
  where
    bound : (v : ℕ) → (v ≤ nice_max 1000 v) × (0 < nice_max 1000 v)
    bound zero = omega (arith, nice_max_zero 1000)
    bound (suc v) = let c = nice_max-Covers 1000 v in (c.0, omega (arith, c.0))

x_of-Between : (max_t t : ℕ) → t ≤ max_t → Between x0 x1 (x_of max_t t)
unfolding x_of
x_of-Between zero t h = omega arith
x_of-Between (suc m) t h = omega arith

pub y_of-Between : (ymax v : ℕ) → v ≤ ymax → 0 < ymax → Between y1 y0 (y_of ymax v)
unfolding y_of
y_of-Between ymax v h k = omega arith

InFrame-point :
    (rows : List TlRow) (p : ℕ × ℕ)
    → InRows (max_time rows) (value_max rows) p
    → InFrame (max_time rows) (y_max rows) p
InFrame-point rows (t, v) h =
    let y = y_max_bound rows in
    (x_of-Between (max_time rows) t h.0, y_of-Between (y_max rows) v (omega (arith, y.0)) y.1)

-- Whatever rows are drawn, every point of every line lies in the frame of the plot, between x0 and
-- x1 and between y1 and y0.
pub timeline_svg-InFrame :
    (rows : List TlRow)
    → All
        (λ (l : Line). All (InFrame (max_time rows) (y_max rows)) (line_points l.field rows))
        tl_series
timeline_svg-InFrame rows =
    All-mono
      (λ l below.
        All-mono (InFrame-point rows) (line_points l.field rows) (line_points-InRows l rows below))
      tl_series (row_max-value_in tl_series)
