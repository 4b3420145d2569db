-- ===== src/Flow.antt =====
-- runner/run.py and runner/plot.py together: from the rows that the runner writes to the table of the
-- report. A row is read back from the file as a csv.DictReader gives it, with `float` as a parameter.
pub mod Tests
use game_bench.Common.{
  ℕ, ◌+◌, ◌*◌, ◌≡◌, refl, ap, sym, ◌∙◌, Bool, true, false, not, ◌&&◌, ◌||◌, Option, none, some,
  List, [], ◌∷◌, ◌++◌, ◌==◌, ==_refl, map, if◌then◌else◌, arith,
}
use game_bench.Py.Text.{Text, codes, text_eq, text_eq_refl}
use game_bench.Py.Assoc.{find}
use game_bench.Py.Result.{ok}
use game_bench.Runner.Specs.{Launch}
use game_bench.Runner.Report.{Run, Cell, text, count, number, Load, row}
use game_bench.Runner.Sampler.{Sampler}
use game_bench.Runner.Matrix.{Config, Machine, main}
use game_bench.Runner.Matrix.Collected.{concat_map, concat_map-append, asked, map-append}
use game_bench.Runner.Matrix.Rows.{row_in, row_for, read, main-cells}
use game_bench.Plot.Series.{same_key}
use game_bench.Plot.Charts.{Chart, chart, charts, Format}
use game_bench.Plot.Table.{row_html}
use game_bench.Plot.Load.{member}
use game_bench.Plot.Page.{CsvRow, column, contains, is_empty, load_data, load_servers, load_conns}
use game_bench.Plot.Page.Complete.{has_value, is_of, any_row, table_complete}

abbrev as_text {ℓ} : {V : Type ℓ} → Cell V → Text
as_text (text s) = s
as_text (count n) = []
as_text (number v) = []

abbrev as_count {ℓ} : {V : Type ℓ} → Cell V → ℕ
as_count (text s) = 0
as_count (count n) = n
as_count (number v) = 0

module _ {ℓ} {V : Type ℓ} (float : V → Option ℕ) where
  -- A column in thousandths.
  abbrev as_value : Cell V → Option ℕ
  as_value (text s) = none
  as_value (count n) = some (1000 * n)
  as_value (number v) = float v

  abbrev pub read_row : List (Text × Cell V) → CsvRow
  read_row cells = record {
    server = find text_eq [] (codes "server") (map (λ c. (c.0, as_text c.1)) cells);
    conns = find text_eq 0 (codes "conns") (map (λ c. (c.0, as_count c.1)) cells);
    columns = map (λ c. (c.0, as_value c.1)) cells;
  }

any_row-append :
    (s : Text) (c : ℕ) (chs : List Chart) (xs ys : List CsvRow)
    → any_row s c chs (xs ++ ys) ≡ (any_row s c chs xs || any_row s c chs ys)
any_row-append s c chs [] ys = refl
any_row-append s c chs (x ∷ xs) ys = rw (any_row-append s c chs xs ys) (ground arith)

module _ {ℓ κ} {V : Type ℓ} {W : Type κ} (m : Machine V W) (cfg : Config)
    (float : V → Option ℕ) where
  row-is_of :
      (r : Run) (res : Load V) (s : Sampler)
      → is_of r.server r.conns (read_row float (row m.num m.clk (cfg.warmup + cfg.dur) r res s))
        ≡ true
  unfolding row find same_key text_eq
  row-is_of r res s = rw (text_eq_refl r.server, ==_refl r.conns) refl

  row-has_value :
      (r : Run) (res : Load V) (s : Sampler) (v : ℕ)
      → float (m.num.round res.moves_per_s 1) ≡ some v
      → has_value charts (read_row float (row m.num m.clk (cfg.warmup + cfg.dur) r res s)) ≡ true
  unfolding row find text_eq charts chart column
  row-has_value r res s v h = rw h refl

or_true : (a : Bool) → (a || true) ≡ true
or_true true = refl
or_true false = refl

both_of : (a b c : Bool) → a ≡ true → (a && (b && c)) ≡ a → (b ≡ true) × (c ≡ true)
both_of a b c h k = (ground arith, ground arith)

module _ {ℓ κ} {V : Type ℓ} {W : Type κ} (m : Machine V W) (cfg : Config) (float : V → Option ℕ)
    (ready : Run → Bool) (result : Run → Option (Load V) × Sampler) where
  rows_of_runs : List Run → List CsvRow
  rows_of_runs rs = map (read_row float) (concat_map (λ q. row_for m cfg q (ready q) (result q)) rs)

  reported_at :
      (before after : List Run) (r : Run) (res : Load V) (s : Sampler) (v : ℕ)
      → ready r ≡ true
      → result r ≡ (some res, s)
      → float (m.num.round res.moves_per_s 1) ≡ some v
      → any_row r.server r.conns charts (rows_of_runs (before ++ r ∷ after)) ≡ true
  unfolding rows_of_runs
  reported_at before after r res s v got loaded value =
      let g = λ (q : Run). row_for m cfg q (ready q) (result q) in
      let rd = read_row float in
      let mine = rd (row m.num m.clk (cfg.warmup + cfg.dur) r res s) in
      let one : g r ≡ row m.num m.clk (cfg.warmup + cfg.dur) r res s ∷ [] = rw (got, loaded) in
      let own = row-is_of m cfg float r res s in
      let full = row-has_value m cfg float r res s v value in
      ap (λ t. any_row r.server r.conns charts (map rd t)) (concat_map-append g before (r ∷ after))
      ∙ ap (any_row r.server r.conns charts)
          (map-append rd (concat_map g before) (concat_map g (r ∷ after)))
      ∙ any_row-append r.server r.conns charts (map rd (concat_map g before))
          (map rd (concat_map g (r ∷ after)))
      ∙ ap
          (λ t.
            any_row r.server r.conns charts (map rd (concat_map g before))
            || any_row r.server r.conns charts (map rd (t ++ concat_map g after)))
          one
      ∙ rw (own, full) (or_true (any_row r.server r.conns charts (map rd (concat_map g before))))

  -- If no start and no load raises an exception and the outcomes of a build, of the wait for a server
  -- and of a load do not depend on the state of the machine, then every run that is asked for, whose server gets ready, whose load has a result and
  -- whose throughput is read as a number has a row in the table of the report on the file that `main`
  -- writes, and the report lists its server and its load.
  pub main-row_html :
      (starts : (r : Run) (plan : List Launch) (w : W) → (m.start r plan w).0 ≡ ok tt)
      (stable_ready : (r : Run) (w : W) → (m.wait_ready r w).0 ≡ ready r)
      (stable_result : (r : Run) (w : W) → (m.measure r w).0 ≡ ok (read (result r).0, (result r).1))
      (can : List Text × Text → Bool)
      (stable : (cmd : List Text × Text) (w : W) → (m.build cmd w).0 ≡ ok (can cmd)) (w : W)
      (fmt : Format) (before after : List Run) (r : Run) (res : Load V) (s : Sampler) (v : ℕ)
      → asked cfg can cfg.servers ≡ before ++ r ∷ after
      → ready r ≡ true
      → result r ≡ (some res, s)
      → float (m.num.round res.moves_per_s 1) ≡ some v
      → (let csv = map (read_row float) (concat_map row_in (main m cfg w).0) in
          (is_empty (row_html fmt (load_data csv) r.server r.conns) ≡ false)
          × (member r.server (load_servers csv) ≡ true)
          × (contains r.conns (load_conns csv) ≡ true))
  unfolding rows_of_runs
  main-row_html starts stable_ready stable_result can stable w fmt before after r res s v split got
        loaded value =
      let csv = map (read_row float) (concat_map row_in (main m cfg w).0) in
      let there : any_row r.server r.conns charts csv ≡ true =
        ap (λ t. any_row r.server r.conns charts (map (read_row float) t))
          (main-cells m cfg ready result starts stable_ready stable_result can stable w).0.1
        ∙ ap (λ t. any_row r.server r.conns charts (rows_of_runs t)) split
        ∙ reported_at before after r res s v got loaded value in
      let table = table_complete fmt r.server r.conns csv in
      let listed = both_of _ _ _ there table.1 in (table.0 ∙ ap not there, listed.0, listed.1)
