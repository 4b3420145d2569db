-- ===== src/Runner/Matrix/Product.antt =====
-- runner/run.py: the runs that the loops of `main` start.
use game_bench.Common.{◌≡◌, refl, ap, ◌∙◌, Bool, true, false, Option, none, some, List, [], ◌∷◌}
use game_bench.Py.Text.{Text}
use game_bench.Py.Result.{Result, ok, raise}
use game_bench.Runner.Specs.{Launch}
use game_bench.Runner.Servers.{Server}
use game_bench.Runner.Report.{Run, Window, Load, tl_row}
use game_bench.Runner.Sampler.{Sampler}
use game_bench.Runner.Matrix.{
  Config, Machine, Action, skip_unknown, start_server, not_ready, load, stop_server, write_row,
  client_busy, sender_late, write_window, cooldown, report, when_measured, when_ready, after_start,
  trial_of, main,
}
use game_bench.Runner.Matrix.Collected.{concat_map, Gives, asked, main-collected, report_picked}

module _ {ℓ} {V : Type ℓ} where
  abbrev pub start_in : Action V → List Run
  start_in (start_server r plan) = r ∷ []
  start_in (skip_unknown name) = []
  start_in (not_ready r) = []
  start_in (load r) = []
  start_in (stop_server r) = []
  start_in (write_row row) = []
  start_in (client_busy r) = []
  start_in (sender_late r) = []
  start_in (write_window row) = []
  start_in cooldown = []

-- Neither the call nor a lookup in the object that it gives raises.
abbrev pub is_fine {ℓ} : {V : Type ℓ} → Result (Option (Result (Load V)) × Sampler) → Bool
is_fine (raise e) = false
is_fine (ok (none, s)) = true
is_fine (ok (some (raise e), s)) = false
is_fine (ok (some (ok res), s)) = true

concat_map-single {ℓ} : {A : Type ℓ} (xs : List A) → concat_map (λ x. x ∷ []) xs ≡ xs
concat_map-single [] = refl
concat_map-single (x ∷ xs) = ap (λ t. x ∷ t) (concat_map-single xs)

module _ {ℓ κ} {V : Type ℓ} {W : Type κ} (m : Machine V W) (cfg : Config) where
  no_start :
      (r : Run) (ws : List (Window V))
      → concat_map (λ w. start_in (write_window (tl_row m.num r w))) ws ≡ []
  no_start r [] = refl
  no_start r (w ∷ ws) = no_start r ws

  report-starts :
      (r : Run) (out : Option (Result (Load V)) × Sampler) (w : W)
      → is_fine (ok out) ≡ true
      → Gives start_in (report m cfg r out w) []
  unfolding report
  report-starts r (none, s) w fine = (refl, refl)
  report-starts r (some (raise e), s) w fine = cc
  report-starts r (some (ok res), s) w fine = (
    refl,
    report_picked m cfg start_in (λ r. refl) (λ r. refl) refl r res s w ∙ no_start r res.timeline,
  )

  when_measured-starts :
      (r : Run) (x : Result (Option (Result (Load V)) × Sampler) × W)
      → is_fine x.0 ≡ true
      → Gives start_in (when_measured m cfg r x) []
  unfolding when_measured
  when_measured-starts r (raise e, w) fine = cc
  when_measured-starts r (ok out, w) fine = report-starts r out w fine

  module _ (starts : (r : Run) (plan : List Launch) (w : W) → (m.start r plan w).0 ≡ ok tt)
      (fine : (r : Run) (w : W) → is_fine (m.measure r w).0 ≡ true) where
    when_ready-starts : (r : Run) (x : Bool × W) → Gives start_in (when_ready m cfg r x) []
    unfolding when_ready
    when_ready-starts r (false, w) = (refl, refl)
    when_ready-starts r (true, w) = when_measured-starts r (m.measure r w) (fine r w)

    after_start-starts :
        (r : Run) (x : Result (Unit {0}) × W)
        → x.0 ≡ ok tt
        → Gives start_in (after_start m cfg r x) []
    unfolding after_start
    after_start-starts r (raise e, w) h = cc
    after_start-starts r (ok u, w) h = when_ready-starts r (m.wait_ready r w)

    trial_of-starts :
        (s : Server) (r : Run) (w : W) → Gives start_in (trial_of m cfg s r w) (r ∷ [])
    unfolding trial_of
    trial_of-starts s r w =
        let later = after_start-starts r (m.start r _ w) (starts r _ w) in
        (later.0, ap (λ (t : List Run). r ∷ t) later.1)

    -- If building a server has the same outcome each time and raises nothing, and no start and no load
    -- raises an exception, then `main` ends without one, and the runs that are started are exactly the
    -- trials 1, 2, … up to their number at every load of every server that is known and can be built, in
    -- the order of servers, loads and trials; neither a server that is not ready nor a load without a
    -- result drops a later run.
    pub main-starts :
        (can : List Text × Text → Bool)
        (stable : (cmd : List Text × Text) (w : W) → (m.build cmd w).0 ≡ ok (can cmd)) (w : W)
        → ((main m cfg w).1.0 ≡ ok tt)
          × (concat_map start_in (main m cfg w).0 ≡ asked cfg can cfg.servers)
    main-starts can stable w =
        let all =
          main-collected m cfg can stable start_in (λ r. r ∷ []) trial_of-starts (λ name. refl) w in
        (all.0, all.1 ∙ concat_map-single (asked cfg can cfg.servers))
