-- ===== src/Runner/Report/Columns.antt =====
-- runner/run.py, runner/plot.py: the columns that the runner writes, and those that the plots read.
use game_bench.Common.{ℕ, ◌≡◌, refl, Bool, true, false, ◌&&◌, ◌||◌, List, [], ◌∷◌, map}
use game_bench.Py.Text.{Text, text_eq}
use game_bench.Runner.Sampler.{Sampler}
use game_bench.Runner.Report.{fields, tl_fields, Run, Cell, Window, Load, Numbers, row, tl_row}
use game_bench.Plot.Charts.{Chart, Line, charts, tl_series}

abbrev pub named : Text → List Text → Bool
named f [] = false
named f (g ∷ gs) = text_eq f g || named f gs

abbrev pub all_named : List Text → List Text → Bool
all_named [] gs = true
all_named (f ∷ fs) gs = named f gs && all_named fs gs

-- The keys of a row, in order.
abbrev pub keys {ℓ} : {V : Type ℓ} → List (Text × Cell V) → List Text
keys r = map (λ q. q.0) r

-- Every row that the runner writes has exactly the columns of its file's header, in order, and the
-- columns that the report draws, over the load and over time, are among them.
pub row-fields {ℓ} :
    {V : Type ℓ} (num : Numbers V) (clk wall : ℕ) (r : Run) (res : Load V) (s : Sampler)
    (w : Window V)
    → (keys (row num clk wall r res s) ≡ fields)
      × (keys (tl_row num r w) ≡ tl_fields)
      × (all_named (map (λ (c : Chart). c.field) charts) fields ≡ true)
      × (all_named (map (λ (l : Line). l.field) tl_series) tl_fields ≡ true)
unfolding row tl_row text_eq charts tl_series
row-fields num clk wall r res s w = (refl, refl, refl, refl)
