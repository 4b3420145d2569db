-- ===== src/Runner/Matrix/Lines.antt =====
-- runner/run.py: the lines of results.csv and timeline.csv, with their values in the order of the header.
use game_bench.Common.{
  ◌+◌, ◌*◌, ◌≡◌, refl, ap, ◌∙◌, Bool, true, false, Option, none, some, List, [], ◌∷◌, map,
}
use game_bench.Py.Int.{ℤ}
use game_bench.Py.Text.{Text, text_eq}
use game_bench.Py.Assoc.{find}
use game_bench.Py.Result.{ok}
use game_bench.Runner.Specs.{Launch}
use game_bench.Runner.Report.{
  Run, Cell, text, count, number, Window, Load, row, tl_row, fields, tl_fields, cpu_cores_of,
  or_nil,
}
use game_bench.Runner.Sampler.{Sampler}
use game_bench.Runner.Matrix.{Config, Machine, main}
use game_bench.Runner.Matrix.Collected.{concat_map, asked, map-append}
use game_bench.Runner.Matrix.Rows.{row_in, window_in, row_for, windows_for, read, main-cells}

-- What csv.DictWriter writes of a row: a value for each name of the header, none for a missing one.
abbrev pub csv_line {ℓ} : {V : Type ℓ} → List Text → List (Text × Cell V) → List (Cell V)
csv_line header cells = map (λ name. find text_eq (text []) name cells) header

abbrev given {ℓ} : {V : Type ℓ} → V → Option V → V
given v none = v
given v (some u) = u

module _ {ℓ κ} {V : Type ℓ} {W : Type κ} (m : Machine V W) (cfg : Config) where
  -- The CPU time of the servers in cores, where it was read twice.
  abbrev cores_used : Option ℤ → Option ℤ → V
  cores_used from none = m.num.nil
  cores_used from (some to) = m.num.spent to from (m.clk * (cfg.warmup + cfg.dur))

  abbrev pub line_of : Run → Load V → Sampler → List (Cell V)
  line_of r res s =
      text r.server
      ∷ count r.conns
      ∷ count r.trial
      ∷ number res.moves_sent
      ∷ number res.snaps_recv
      ∷ number res.measured
      ∷ number (m.num.round res.moves_per_s 1)
      ∷ number (m.num.round res.snaps_per_s 1)
      ∷ number (m.num.round res.p50_ms 2)
      ∷ number (m.num.round res.p90_ms 2)
      ∷ number (m.num.round res.p99_ms 2)
      ∷ number (m.num.round res.p999_ms 2)
      ∷ number (m.num.round res.max_ms 2)
      ∷ number (m.num.round res.p99_worst_1s_ms 2)
      ∷ number (m.num.round res.p99_cv 3)
      ∷ number (m.num.round (m.num.over s.rss_first_kb 1024) 1)
      ∷ number (m.num.round (m.num.over s.rss_peak_kb 1024) 1)
      ∷ number (m.num.round (cores_used s.cpu_start s.cpu_end) 2)
      ∷ number (m.num.round (given m.num.nil res.client_cpu_cores) 2)
      ∷ number (m.num.round (given m.num.nil res.send_rate_pct) 1)
      ∷ []

  abbrev pub window_line : Run → Window V → List (Cell V)
  window_line r x =
      text r.server
      ∷ count r.conns
      ∷ count r.trial
      ∷ count x.t_s
      ∷ number (m.num.round x.p50 2)
      ∷ number (m.num.round x.p90 2)
      ∷ number (m.num.round x.p99 2)
      ∷ number (m.num.round x.p999 2)
      ∷ number (m.num.round x.mx 2)
      ∷ []

  -- What a run is to give: nothing unless its server gets ready and its load has a result.
  abbrev pub lines_for : Run → Bool → Option (Load V) × Sampler → List (List (Cell V))
  lines_for r false out = []
  lines_for r true (none, s) = []
  lines_for r true (some res, s) = line_of r res s ∷ []

  abbrev pub window_lines : Run → Bool → Option (Load V) × Sampler → List (List (Cell V))
  window_lines r false out = []
  window_lines r true (none, s) = []
  window_lines r true (some res, s) = map (window_line r) res.timeline

  given_same : (o : Option V) → given m.num.nil o ≡ or_nil m.num o
  given_same none = refl
  given_same (some v) = refl

  cores_used_same :
      (from o : Option ℤ)
      → cores_used from o ≡ elim o [
        | none ↦ m.num.nil
        | some to ↦ m.num.spent to from (m.clk * (cfg.warmup + cfg.dur))
      ]
  cores_used_same from none = refl
  cores_used_same from (some to) = refl

  csv_line-row :
      (r : Run) (res : Load V) (s : Sampler)
      → csv_line fields (row m.num m.clk (cfg.warmup + cfg.dur) r res s) ≡ line_of r res s
  unfolding row find text_eq cpu_cores_of
  csv_line-row r res s =
      rw
        (
          given_same res.client_cpu_cores,
          given_same res.send_rate_pct,
          cores_used_same s.cpu_start s.cpu_end,
        )
        refl

  csv_line-tl_row :
      (r : Run) (x : Window V) → csv_line tl_fields (tl_row m.num r x) ≡ window_line r x
  unfolding tl_row find text_eq
  csv_line-tl_row r x = refl

  lines-tl_row :
      (r : Run) (xs : List (Window V))
      → map (csv_line tl_fields) (map (tl_row m.num r) xs) ≡ map (window_line r) xs
  lines-tl_row r [] = refl
  lines-tl_row r (x ∷ xs) = rw (csv_line-tl_row r x, lines-tl_row r xs)

  lines-row_for :
      (r : Run) (b : Bool) (out : Option (Load V) × Sampler)
      → map (csv_line fields) (row_for m cfg r b out) ≡ lines_for r b out
  lines-row_for r false out = refl
  lines-row_for r true (none, s) = refl
  lines-row_for r true (some res, s) = ap (λ l. l ∷ []) (csv_line-row r res s)

  lines-windows_for :
      (r : Run) (b : Bool) (out : Option (Load V) × Sampler)
      → map (csv_line tl_fields) (windows_for m cfg r b out) ≡ window_lines r b out
  lines-windows_for r false out = refl
  lines-windows_for r true (none, s) = refl
  lines-windows_for r true (some res, s) = lines-tl_row r res.timeline

map-concat_map {ℓ κ μ} :
    {A : Type ℓ} {B : Type κ} {C : Type μ} (f : B → C) (g : A → List B) (h : A → List C)
    → ((x : A) → map f (g x) ≡ h x)
    → (xs : List A) → map f (concat_map g xs) ≡ concat_map h xs
map-concat_map f g h each [] = refl
map-concat_map f g h each (x ∷ xs) =
    map-append f (g x) (concat_map g xs) ∙ rw (each x, map-concat_map f g h each xs)

module _ {ℓ κ} {V : Type ℓ} {W : Type κ} (m : Machine V W) (cfg : Config) where
  -- Let no start and no load raise an exception, and let the outcomes of a build, of the wait for a server
  -- and of a load not depend on the state of the machine. Then `main` ends with no exception.
  -- results.csv gets, in order, one line for every run that is asked for, whose server gets ready and
  -- whose load has a result, and timeline.csv one for every window of such a load, each with its
  -- values rounded and in the order of the names of the header.
  pub main-rows :
      (ready : Run → Bool) (result : Run → Option (Load V) × Sampler)
      (starts : (r : Run) (plan : List Launch) (w : W) → (m.start r plan w).0 ≡ ok tt)
      (stable_ready : (r : Run) (w : W) → (m.wait_ready r w).0 ≡ ready r)
      (stable_result : (r : Run) (w : W) → (m.measure r w).0 ≡ ok (read (result r).0, (result r).1))
      (can : List Text × Text → Bool)
      (stable : (cmd : List Text × Text) (w : W) → (m.build cmd w).0 ≡ ok (can cmd)) (w : W)
      → ((main m cfg w).1.0 ≡ ok tt)
        × (map (csv_line fields) (concat_map row_in (main m cfg w).0)
            ≡ concat_map (λ r. lines_for m cfg r (ready r) (result r)) (asked cfg can cfg.servers))
        × (map (csv_line tl_fields) (concat_map window_in (main m cfg w).0)
            ≡ concat_map
                (λ r. window_lines m cfg r (ready r) (result r))
                (asked cfg can cfg.servers))
  main-rows ready result starts stable_ready stable_result can stable w =
      let all = main-cells m cfg ready result starts stable_ready stable_result can stable w in
      let runs = asked cfg can cfg.servers in
      (
        all.0.0,
        ap (map (csv_line fields)) all.0.1
            ∙ map-concat_map (csv_line fields) _ _ (λ r. lines-row_for m cfg r (ready r) (result r))
                runs,
        ap (map (csv_line tl_fields)) all.1.1
            ∙ map-concat_map (csv_line tl_fields) _ _
                (λ r. lines-windows_for m cfg r (ready r) (result r)) runs,
      )
