-- ===== src/Plot/Tests/Page.antt =====
-- The pages of runner/plot.py at concrete rows.
use game_bench.Common.{
  Option, ℕ, ◌+◌, ◌/◌, not, ◌&&◌, none, some, ◌≡◌, refl, List, [], ◌∷◌, ◌++◌, All, if◌then◌else◌,
}
use game_bench.Py.Text.{Text, codes}
use game_bench.Py.Decimal.{str}
use game_bench.Plot.Load.{member}
use game_bench.Plot.Escape.{esc}
use game_bench.Plot.Escape.Entities.{unescape}
use game_bench.Plot.Escape.Attributes.{before_quote, esc-before_quote}
use game_bench.Plot.Timeline.{TlRow, load_timeline}
use game_bench.Plot.Charts.{Line, charts, tl_series, Format, group_digits, commas}
use game_bench.Plot.Table.{row_html}
use game_bench.Plot.Table.Balanced.{IsPlain, str-IsSafe, commas-IsSafe}
use game_bench.Plot.Svg.{max_time, y_max, line_points}
use game_bench.Plot.Svg.Frame.{InFrame, timeline_svg-InFrame}
use game_bench.Plot.Cards.{card_keys, card_of}
use game_bench.Plot.Cards.Lowest.{IsLeast, trial_rows, card_of-IsLeast}
use game_bench.Plot.Cards.Turns.{IsInTurn}
use game_bench.Plot.Cards.Order.{how_many, any_of, card_keys-IsInTurn}
use game_bench.Plot.Page.{CsvRow, is_empty, contains, load_data, load_servers, load_conns}
use game_bench.Plot.Page.Complete.{any_row, table_complete}

-- Every number without its decimals.
abbrev pub whole : Format
whole = record { fixed = λ d a b. str (a / b); grouped = λ d a b. commas (a / b) }

pub whole-IsPlain : IsPlain whole
whole-IsPlain = record {
  fixed_safe = λ d a b. str-IsSafe (a / b);
  grouped_safe = λ d a b. commas-IsSafe (a / b);
}

abbrev window : Text → ℕ → ℕ → ℕ → TlRow
window s trial t v = record {
  server = s;
  conns = 500;
  trial = trial;
  t_s = t;
  cells = (codes "p50_ms", some v) ∷ (codes "p99_ms", some (v + 700)) ∷ [];
}

abbrev windows : List TlRow
windows =
    window (codes "zig") 2 0 400
    ∷ window (codes "zig") 1 1 900
    ∷ window (codes "rust") 1 0 300
    ∷ window (codes "zig") 1 0 800
    ∷ []

abbrev zig : Text × ℕ
zig = (codes "zig", 500)

abbrev pub csv : List CsvRow
csv =
    record {
      server = codes "zig";
      conns = 500;
      columns = (codes "p99_ms", some 1200) ∷ (codes "rss_peak_mb", none) ∷ [];
    }
    ∷ record { server = codes "go"; conns = 1000; columns = [] }
    ∷ []

commas_run : commas 1234567 ≡ codes "1,234,567"
unfolding commas group_digits str
commas_run = refl

timeline_svg-InFrame_example :
    All
      (λ (l : Line). All (InFrame (max_time windows) (y_max windows)) (line_points l.field windows))
      tl_series
timeline_svg-InFrame_example = timeline_svg-InFrame windows

card_of-IsLeast_example :
    (o : Option ℕ) × IsLeast zig windows o
    × (card_of zig (load_timeline windows) ≡ trial_rows zig windows o)
card_of-IsLeast_example = card_of-IsLeast zig windows

card_keys-IsInTurn_example :
    IsInTurn (card_keys (load_timeline windows))
    × ((k : Text × ℕ)
        → how_many k (card_keys (load_timeline windows)) ≡ (if any_of k windows then 1 else 0))
card_keys-IsInTurn_example = card_keys-IsInTurn windows

table_complete_example :
    (is_empty (row_html whole (load_data csv) (codes "zig") 500)
      ≡ not (any_row (codes "zig") 500 charts csv))
    × ((any_row (codes "zig") 500 charts csv
          && (member (codes "zig") (load_servers csv) && contains 500 (load_conns csv)))
        ≡ any_row (codes "zig") 500 charts csv)
table_complete_example = table_complete whole (codes "zig") 500 csv

esc-before_quote_example :
    unescape (before_quote (esc (codes "a<b\"c") ++ b'"' ∷ codes ">"))
    ≡ before_quote (codes "a<b\"c")
esc-before_quote_example = esc-before_quote (codes "a<b\"c") (codes ">")
