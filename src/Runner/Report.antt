-- ===== src/Runner/Report.antt =====
-- runner/run.py: the rows of results.csv and timeline.csv, as `main` builds them. A number of the load
-- generator's JSON is a `V`, with Python's `round` and its division as parameters.

pub mod Columns
use game_bench.Common.{ℕ, Bool, Option, none, some, List, [], ◌∷◌, ◌*◌}
use game_bench.Py.Int.{ℤ}
use game_bench.Py.Text.{Text, codes}
use game_bench.Runner.Sampler.{Sampler}

abbrev pub fields : List Text
fields =
    codes "server"
    ∷ codes "conns"
    ∷ codes "trial"
    ∷ codes "moves_sent"
    ∷ codes "snaps_recv"
    ∷ codes "measured"
    ∷ codes "moves_per_s"
    ∷ codes "snaps_per_s"
    ∷ codes "p50_ms"
    ∷ codes "p90_ms"
    ∷ codes "p99_ms"
    ∷ codes "p999_ms"
    ∷ codes "max_ms"
    ∷ codes "p99_worst_1s_ms"
    ∷ codes "p99_cv"
    ∷ codes "rss_idle_mb"
    ∷ codes "rss_peak_mb"
    ∷ codes "cpu_cores"
    ∷ codes "client_cpu_cores"
    ∷ codes "send_rate_pct"
    ∷ []

abbrev pub tl_fields : List Text
tl_fields =
    codes "server"
    ∷ codes "conns"
    ∷ codes "trial"
    ∷ codes "t_s"
    ∷ codes "p50_ms"
    ∷ codes "p90_ms"
    ∷ codes "p99_ms"
    ∷ codes "p999_ms"
    ∷ codes "max_ms"
    ∷ []

-- One run of the matrix.
pub record Run : Type 0 where
  pub server : Text
  pub conns : ℕ
  pub trial : ℕ

pub data Cell {ℓ} (V : Type ℓ) : Type ℓ where
  text : Text → Cell V
  count : ℕ → Cell V
  number : V → Cell V

-- One window of `res["timeline"]`.
pub record Window {ℓ} (V : Type ℓ) : Type ℓ where
  pub t_s : ℕ
  pub p50 : V
  pub p90 : V
  pub p99 : V
  pub p999 : V
  pub mx : V

-- The object that run_loadgen reads; `none` is a key that `res.get` does not find.
pub record Load {ℓ} (V : Type ℓ) : Type ℓ where
  pub moves_sent : V
  pub snaps_recv : V
  pub measured : V
  pub moves_per_s : V
  pub snaps_per_s : V
  pub p50_ms : V
  pub p90_ms : V
  pub p99_ms : V
  pub p999_ms : V
  pub max_ms : V
  pub p99_worst_1s_ms : V
  pub p99_cv : V
  pub client_cpu_cores : Option V
  pub send_rate_pct : Option V
  pub timeline : List (Window V)

-- float arithmetic: `round x digits`, `a / n`, `(end - start) / n`, 0.0, `x < y`, `0.85 * n` and 97.0
pub record Numbers {ℓ} (V : Type ℓ) : Type ℓ where
  pub round : V → ℕ → V
  pub over : ℤ → ℕ → V
  pub spent : ℤ → Option ℤ → ℕ → V
  pub nil : V
  pub lt : V → V → Bool
  pub share : ℕ → V
  pub target : V

module _ {ℓ} {V : Type ℓ} (num : Numbers V) where
  abbrev pub or_nil : Option V → V
  or_nil none = num.nil
  or_nil (some v) = v

  -- `… if sampler.cpu_end is not None else 0.0`
  unfoldable pub cpu_cores_of : ℕ → ℕ → Sampler → V
  cpu_cores_of clk wall s = elim s.cpu_end [
    | none ↦ num.nil
    | some end ↦ num.spent end s.cpu_start (clk * wall)
  ]

  unfoldable pub row : ℕ → ℕ → Run → Load V → Sampler → List (Text × Cell V)
  row clk wall r res s =
      (codes "server", text r.server)
      ∷ (codes "conns", count r.conns)
      ∷ (codes "trial", count r.trial)
      ∷ (codes "moves_sent", number res.moves_sent)
      ∷ (codes "snaps_recv", number res.snaps_recv)
      ∷ (codes "measured", number res.measured)
      ∷ (codes "moves_per_s", number (num.round res.moves_per_s 1))
      ∷ (codes "snaps_per_s", number (num.round res.snaps_per_s 1))
      ∷ (codes "p50_ms", number (num.round res.p50_ms 2))
      ∷ (codes "p90_ms", number (num.round res.p90_ms 2))
      ∷ (codes "p99_ms", number (num.round res.p99_ms 2))
      ∷ (codes "p999_ms", number (num.round res.p999_ms 2))
      ∷ (codes "max_ms", number (num.round res.max_ms 2))
      ∷ (codes "p99_worst_1s_ms", number (num.round res.p99_worst_1s_ms 2))
      ∷ (codes "p99_cv", number (num.round res.p99_cv 3))
      ∷ (codes "rss_idle_mb", number (num.round (num.over s.rss_first_kb 1024) 1))
      ∷ (codes "rss_peak_mb", number (num.round (num.over s.rss_peak_kb 1024) 1))
      ∷ (codes "cpu_cores", number (num.round (cpu_cores_of clk wall s) 2))
      ∷ (codes "client_cpu_cores", number (num.round (or_nil res.client_cpu_cores) 2))
      ∷ (codes "send_rate_pct", number (num.round (or_nil res.send_rate_pct) 1))
      ∷ []

  unfoldable pub tl_row : Run → Window V → List (Text × Cell V)
  tl_row r w =
      (codes "server", text r.server)
      ∷ (codes "conns", count r.conns)
      ∷ (codes "trial", count r.trial)
      ∷ (codes "t_s", count w.t_s)
      ∷ (codes "p50_ms", number (num.round w.p50 2))
      ∷ (codes "p90_ms", number (num.round w.p90 2))
      ∷ (codes "p99_ms", number (num.round w.p99 2))
      ∷ (codes "p999_ms", number (num.round w.p999 2))
      ∷ (codes "max_ms", number (num.round w.mx 2))
      ∷ []
