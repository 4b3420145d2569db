-- ===== src/Plot/Charts.antt =====
-- runner/plot.py: the tables CHARTS, SLOT and TL_SERIES, the plot geometry, and number formats.
use game_bench.Common.{
  ℕ, ◌%◌, Bool, true, false, ◌&&◌, ◌||◌, not, List, [], ◌∷◌, ◌==◌, if◌then◌else◌, length,
}
use game_bench.Py.Text.{Text, codes, text_eq}
use game_bench.Py.Decimal.{str}

-- `digits` and `comma` are those of the formatter and of its js spec.
pub record Chart : Type 0 where
  pub field : Text
  pub title : Text
  pub ylabel : Text
  pub digits : ℕ
  pub comma : Bool

unfoldable pub chart : Text → Text → Text → ℕ → Bool → Chart
chart f t y d c = record { field = f; title = t; ylabel = y; digits = d; comma = c }

unfoldable pub charts : List Chart
unfolding chart
charts =
    chart (codes "moves_per_s") (codes "Throughput (processed)") (codes "moves / s") 0 true
    ∷ chart (codes "p99_ms") (codes "Latency p99") (codes "ms") 1 false
    ∷ chart (codes "p50_ms") (codes "Latency p50") (codes "ms") 1 false
    ∷ chart (codes "p99_worst_1s_ms") (codes "Worst 1 s p99") (codes "ms") 1 false
    ∷ chart (codes "p99_cv") (codes "Latency stability (p99 CV)") (codes "coeff. of variation") 2
        false
    ∷ chart (codes "rss_peak_mb") (codes "Peak memory under load") (codes "MB (RSS)") 1 false
    ∷ chart (codes "cpu_cores") (codes "CPU cores used") (codes "cores") 2 false
    ∷ chart (codes "client_cpu_cores") (codes "Client CPU (loadgen validity)") (codes "cores") 2
        false
    ∷ chart (codes "send_rate_pct") (codes "Send-rate fidelity (loadgen validity)")
        (codes "% of target") 1 false
    ∷ []

-- One line over time: the column, its label and its colour.
pub record Line : Type 0 where
  pub field : Text
  pub label : Text
  pub color : Text

unfoldable pub line : Text → Text → Text → Line
line f l c = record { field = f; label = l; color = c }

unfoldable pub tl_series : List Line
unfolding line
tl_series =
    line (codes "p50_ms") (codes "p50") (codes "#2a9d5c")
    ∷ line (codes "p90_ms") (codes "p90") (codes "#8aa32e")
    ∷ line (codes "p99_ms") (codes "p99") (codes "#eda100")
    ∷ line (codes "p999_ms") (codes "p99.9") (codes "#e8663d")
    ∷ line (codes "max_ms") (codes "max") (codes "#d6453f")
    ∷ []

-- SLOT.get(s, 1)
unfoldable pub slot : Text → ℕ
slot s =
    if text_eq s (codes "rust")
    then 2
    else if text_eq s (codes "ocaml") || text_eq s (codes "go-epoll")
    then 3
    else if text_eq s (codes "elixir")
    then 4
    else if text_eq s (codes "python") || text_eq s (codes "go-pool")
    then 5
    else 1

-- The frame of a plot: X0 = ML, X1 = W - MR, Y0 = H - MB, Y1 = MT.
abbrev pub x0 : ℕ
x0 = 72

abbrev pub x1 : ℕ
x1 = 772

abbrev pub y0 : ℕ
y0 = 308

abbrev pub y1 : ℕ
y1 = 40

-- The text of the float a / b: `fixed d a b` is f"{a / b:.df}", and `grouped` has f"{a / b:,.df}".
pub record Format : Type 0 where
  pub fixed : ℕ → ℕ → ℕ → Text
  pub grouped : ℕ → ℕ → ℕ → Text

-- A digit with a positive multiple of three behind it is followed by a comma.
unfoldable pub group_digits : Text → Text
group_digits [] = []
group_digits (c ∷ s) =
    let rest = group_digits s in
    if (length s % 3 == 0) && not (length s == 0) then c ∷ b',' ∷ rest else c ∷ rest

-- f"{n:}"
unfoldable pub commas : ℕ → Text
unfolding group_digits
commas n = group_digits (str n)
