-- ===== src/Runner/Matrix/Rows.antt =====
-- runner/run.py: the rows that `main` writes into results.csv and timeline.csv.
use game_bench.Common.{
  ◌+◌, ◌≡◌, refl, ap, subst, ◌∙◌, Bool, true, false, Option, none, some, List, [], ◌∷◌, map,
}
use game_bench.Py.Text.{Text}
use game_bench.Py.Result.{Result, ok, raise}
use game_bench.Runner.Specs.{Launch}
use game_bench.Runner.Servers.{Server}
use game_bench.Runner.Report.{Run, Cell, Window, Load, row, tl_row}
use game_bench.Runner.Sampler.{Sampler}
use game_bench.Runner.Matrix.{
  Config, Machine, Action, skip_unknown, start_server, not_ready, load, stop_server, write_row,
  client_busy, sender_late, write_window, cooldown, report, when_measured, when_ready, after_start,
  trial_of, main,
}
use game_bench.Runner.Matrix.Collected.{concat_map, Gives, asked, main-collected, report_picked}

module _ {ℓ} {V : Type ℓ} where
  -- The rows of results.csv, and those of timeline.csv.
  abbrev pub row_in : Action V → List (List (Text × Cell V))
  row_in (write_row row) = row ∷ []
  row_in (start_server r plan) = []
  row_in (skip_unknown name) = []
  row_in (not_ready r) = []
  row_in (load r) = []
  row_in (stop_server r) = []
  row_in (client_busy r) = []
  row_in (sender_late r) = []
  row_in (write_window row) = []
  row_in cooldown = []

  abbrev pub window_in : Action V → List (List (Text × Cell V))
  window_in (write_window row) = row ∷ []
  window_in (write_row row) = []
  window_in (start_server r plan) = []
  window_in (skip_unknown name) = []
  window_in (not_ready r) = []
  window_in (load r) = []
  window_in (stop_server r) = []
  window_in (client_busy r) = []
  window_in (sender_late r) = []
  window_in cooldown = []

-- A load whose object has every key that `main` looks up.
abbrev pub read {ℓ} : {V : Type ℓ} → Option (Load V) → Option (Result (Load V))
read none = none
read (some res) = some (ok res)

module _ {ℓ κ} {V : Type ℓ} {W : Type κ} (m : Machine V W) (cfg : Config) where
  -- What a run is to give: nothing unless its server gets ready and its load has a result.
  abbrev pub row_for : Run → Bool → Option (Load V) × Sampler → List (List (Text × Cell V))
  row_for r false out = []
  row_for r true (none, s) = []
  row_for r true (some res, s) = row m.num m.clk (cfg.warmup + cfg.dur) r res s ∷ []

  abbrev pub windows_for : Run → Bool → Option (Load V) × Sampler → List (List (Text × Cell V))
  windows_for r false out = []
  windows_for r true (none, s) = []
  windows_for r true (some res, s) = map (tl_row m.num r) res.timeline

  no_row :
      (r : Run) (ws : List (Window V))
      → concat_map (λ w. row_in (write_window (tl_row m.num r w))) ws ≡ []
  no_row r [] = refl
  no_row r (w ∷ ws) = no_row r ws

  each_window :
      (r : Run) (ws : List (Window V))
      → concat_map (λ w. window_in (write_window (tl_row m.num r w))) ws ≡ map (tl_row m.num r) ws
  each_window r [] = refl
  each_window r (w ∷ ws) = ap (λ t. tl_row m.num r w ∷ t) (each_window r ws)

  report-rows :
      (r : Run) (o : Option (Load V)) (s : Sampler) (w : W)
      → Gives row_in (report m cfg r (read o, s) w) (row_for r true (o, s))
  unfolding report
  report-rows r none s w = (refl, refl)
  report-rows r (some res) s w = (
    refl,
    report_picked m cfg row_in (λ r. refl) (λ r. refl) refl r res s w
        ∙ ap (λ t. row m.num m.clk (cfg.warmup + cfg.dur) r res s ∷ t) (no_row r res.timeline),
  )

  report-windows :
      (r : Run) (o : Option (Load V)) (s : Sampler) (w : W)
      → Gives window_in (report m cfg r (read o, s) w) (windows_for r true (o, s))
  unfolding report
  report-windows r none s w = (refl, refl)
  report-windows r (some res) s w = (
    refl,
    report_picked m cfg window_in (λ r. refl) (λ r. refl) refl r res s w
        ∙ each_window r res.timeline,
  )

  when_measured-rows :
      (r : Run) (x : Result (Option (Result (Load V)) × Sampler) × W)
      (out : Option (Load V) × Sampler)
      → x.0 ≡ ok (read out.0, out.1)
      → Gives row_in (when_measured m cfg r x) (row_for r true out)
  unfolding when_measured
  when_measured-rows r (x, w) (o, s) h = rw h (report-rows r o s w)

  when_measured-windows :
      (r : Run) (x : Result (Option (Result (Load V)) × Sampler) × W)
      (out : Option (Load V) × Sampler)
      → x.0 ≡ ok (read out.0, out.1)
      → Gives window_in (when_measured m cfg r x) (windows_for r true out)
  unfolding when_measured
  when_measured-windows r (x, w) (o, s) h = rw h (report-windows r o s w)

  module _ (ready : Run → Bool) (result : Run → Option (Load V) × Sampler)
      (starts : (r : Run) (plan : List Launch) (w : W) → (m.start r plan w).0 ≡ ok tt)
      (stable_ready : (r : Run) (w : W) → (m.wait_ready r w).0 ≡ ready r)
      (stable_result : (r : Run) (w : W)
        → (m.measure r w).0 ≡ ok (read (result r).0, (result r).1)) where
    when_ready-rows :
        (r : Run) (x : Bool × W) → Gives row_in (when_ready m cfg r x) (row_for r x.0 (result r))
    unfolding when_ready
    when_ready-rows r (false, w) = (refl, refl)
    when_ready-rows r (true, w) =
        when_measured-rows r (m.measure r w) (result r) (stable_result r w)

    when_ready-windows :
        (r : Run) (x : Bool × W)
        → Gives window_in (when_ready m cfg r x) (windows_for r x.0 (result r))
    unfolding when_ready
    when_ready-windows r (false, w) = (refl, refl)
    when_ready-windows r (true, w) =
        when_measured-windows r (m.measure r w) (result r) (stable_result r w)

    after_start-rows :
        (r : Run) (x : Result (Unit {0}) × W)
        → x.0 ≡ ok tt
        → Gives row_in (after_start m cfg r x) (row_for r (ready r) (result r))
    unfolding after_start
    after_start-rows r (raise e, w) h = cc
    after_start-rows r (ok u, w) h =
        subst (λ (b : Bool). Gives row_in (after_start m cfg r (ok u, w)) (row_for r b (result r)))
          (stable_ready r w) (when_ready-rows r (m.wait_ready r w))

    after_start-windows :
        (r : Run) (x : Result (Unit {0}) × W)
        → x.0 ≡ ok tt
        → Gives window_in (after_start m cfg r x) (windows_for r (ready r) (result r))
    unfolding after_start
    after_start-windows r (raise e, w) h = cc
    after_start-windows r (ok u, w) h =
        subst
          (λ (b : Bool).
            Gives window_in (after_start m cfg r (ok u, w)) (windows_for r b (result r)))
          (stable_ready r w) (when_ready-windows r (m.wait_ready r w))

    trial_of-rows :
        (s : Server) (r : Run) (w : W)
        → Gives row_in (trial_of m cfg s r w) (row_for r (ready r) (result r))
    unfolding trial_of
    trial_of-rows s r w = after_start-rows r (m.start r _ w) (starts r _ w)

    trial_of-windows :
        (s : Server) (r : Run) (w : W)
        → Gives window_in (trial_of m cfg s r w) (windows_for r (ready r) (result r))
    unfolding trial_of
    trial_of-windows s r w = after_start-windows r (m.start r _ w) (starts r _ w)

    pub main-cells :
        (can : List Text × Text → Bool)
        (stable : (cmd : List Text × Text) (w : W) → (m.build cmd w).0 ≡ ok (can cmd)) (w : W)
        → Gives row_in
            (main m cfg w)
            (concat_map (λ r. row_for r (ready r) (result r)) (asked cfg can cfg.servers))
          × Gives window_in
              (main m cfg w)
              (concat_map (λ r. windows_for r (ready r) (result r)) (asked cfg can cfg.servers))
    main-cells can stable w = (
      main-collected m cfg can stable row_in (λ r. row_for r (ready r) (result r)) trial_of-rows
          (λ name. refl) w,
      main-collected m cfg can stable window_in (λ r. windows_for r (ready r) (result r))
          trial_of-windows (λ name. refl) w,
    )
