-- ===== src/Plot/Tests.antt =====
-- Runs of runner/plot.py at concrete inputs, and the theorems about it at inputs that meet their
-- hypotheses.
pub mod Page
pub mod Client
use mathlib.Core.List.{Permᴰ}
use game_bench.Common.{ℕ, some, ◌≡◌, ◌≤◌, refl, List, [], ◌∷◌, length}
use game_bench.Py.Text.{Text, codes, text_eq}
use game_bench.Plot.Escape.{replace, esc}
use game_bench.Plot.Escape.Entities.{IsSafe, unescape, esc-unescape}
use game_bench.Plot.Axis.{log10, fits, nice_factor, nice_max, tick_step, ticks_from, ticks}
use game_bench.Plot.Axis.Bounds.{Covers, nice_max-Covers}
use game_bench.Plot.Axis.Ticks.{Every, ticks-Every}
use game_bench.Plot.Load.{
  member, add, server_set, before, insert, sorted, keep, present_of, present,
}
use game_bench.Plot.Load.Present.{Unique}
use game_bench.Plot.Series.{
  Row, same_key, append_to, load_value, load_field, values_of, insert_number, sort_numbers, middle,
  median, point_of, points,
}
use game_bench.Plot.Series.Trials.{points_permuted}
use game_bench.Py.Assoc.{find, modify}
use game_bench.Plot.Timeline.{TlRow, rows_of, load_timeline}
use game_bench.Plot.Timeline.Ordered.{IsSorted, at_time, chosen, load_timeline-IsSorted}
use game_bench.Plot.Load.Distinct.{present-Unique}

esc_run : esc (codes "a<b&c") ≡ codes "a&lt;b&amp;c"
unfolding esc replace
esc_run = refl

nice_max_run : nice_max 100 2340 ≡ 5000
unfolding nice_max nice_factor fits log10
nice_max_run = refl

ticks_run : ticks 20 ≡ 0 ∷ 4 ∷ 8 ∷ 12 ∷ 16 ∷ 20 ∷ []
unfolding ticks ticks_from tick_step
ticks_run = refl

abbrev column : List Text
column = codes "zig" ∷ codes "rust" ∷ codes "dart" ∷ codes "rust" ∷ codes "go" ∷ []

present_run : present column ≡ codes "go" ∷ codes "rust" ∷ codes "dart" ∷ codes "zig" ∷ []
unfolding present present_of server_set add member before insert sorted keep text_eq
present_run = refl

ticks-Every_example : Every 20 (tick_step 20) 0 (ticks 20) × (length (ticks 20) ≤ 7)
ticks-Every_example = ticks-Every 20

abbrev trial : ℕ → Row
trial v = record { server = codes "go"; conns = 500; value = some v }

points_run :
    points (codes "go") (500 ∷ 1000 ∷ []) (load_field (trial 9 ∷ trial 2 ∷ trial 4 ∷ []) [])
    ≡ (500, 8) ∷ []
unfolding points load_field load_value append_to same_key values_of find modify insert_number
    sort_numbers middle median point_of text_eq
points_run = refl

points_permuted_example :
    points (codes "go") (500 ∷ []) (load_field (trial 9 ∷ trial 2 ∷ []) [])
    ≡ points (codes "go") (500 ∷ []) (load_field (trial 2 ∷ trial 9 ∷ []) [])
points_permuted_example =
    points_permuted (codes "go") (500 ∷ []) (Permᴰ.swap {a = trial 9} {b = trial 2} refl refl)

abbrev second : ℕ → TlRow
second t = record { server = codes "go"; conns = 500; trial = 1; t_s = t; cells = [] }

abbrev windows : List TlRow
windows = second 2 ∷ second 1 ∷ second 2 ∷ []

load_timeline-IsSorted_example :
    IsSorted (rows_of (codes "go", 500) 1 (load_timeline windows))
    × ((t : ℕ)
        → at_time t (rows_of (codes "go", 500) 1 (load_timeline windows))
          ≡ at_time t (chosen (codes "go", 500) 1 windows))
load_timeline-IsSorted_example = load_timeline-IsSorted (codes "go", 500) 1 windows
