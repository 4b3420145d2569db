-- ===== src/Runner/Matrix/Collected.antt =====
-- runner/run.py: what is picked from the actions of `main`, run by run, where the outcome of a build
-- does not depend on the state of the machine.
use game_bench.Common.{
  ◌+◌, map, length, ◌≡◌, refl, sym, ap, subst, ◌∙◌, Bool, true, false, Option, none, some, List, [],
  ◌∷◌, ◌++◌, append_assoc, if◌then◌else◌,
}
use game_bench.Py.Text.{Text}
use game_bench.Py.Result.{Result, ok, raise}
use game_bench.Runner.Servers.{Server, servers, lookup, build_of}
use game_bench.Runner.Report.{Run, Load, Window, or_nil, row, tl_row}
use game_bench.Runner.Sampler.{Sampler}
use game_bench.Runner.Matrix.{
  Config, Machine, Action, skip_unknown, trial_of, trials_of, build, when_built, server_of,
  over_servers, main, report, Ended, and_then, warnings, client_busy, sender_late, write_row,
  write_window, cooldown,
}
pub use game_bench.Runner.Matrix.Asked.{asked, map-append}
use game_bench.Runner.Matrix.Asked.{
  buildable, usable, offered, offered-lookup, runs_at, runs_of-runs_at,
}

abbrev pub concat_map {ℓ κ} : {A : Type ℓ} {B : Type κ} → (A → List B) → List A → List B
concat_map f [] = []
concat_map f (x ∷ xs) = f x ++ concat_map f xs

pub concat_map-append {ℓ κ} :
    {A : Type ℓ} {B : Type κ} (f : A → List B) (xs ys : List A)
    → concat_map f (xs ++ ys) ≡ concat_map f xs ++ concat_map f ys
concat_map-append f [] ys = refl
concat_map-append f (x ∷ xs) ys =
    ap (λ t. f x ++ t) (concat_map-append f xs ys)
    ∙ sym (append_assoc (f x) (concat_map f xs) (concat_map f ys))

module _ {ℓ κ μ} {V : Type ℓ} {W : Type κ} {X : Type μ} (pick : Action V → List X) where
  -- No exception ended it, and this is what is picked from what was done.
  abbrev pub Gives : Ended V W → List X → Type μ
  Gives x xs = (x.1.0 ≡ ok tt) × (concat_map pick x.0 ≡ xs)

  Gives-then :
      (x : Ended V W) (next : W → Ended V W) (xs ys : List X)
      → Gives x xs
      → ((w : W) → Gives (next w) ys)
      → Gives (and_then x next) (xs ++ ys)
  unfolding and_then
  Gives-then (acts, (raise e, w)) next xs ys h k = cc
  Gives-then (acts, (ok u, w)) next xs ys h k = (
    (k w).0,
    concat_map-append pick acts (next w).0
        ∙ ap (λ (t : List X). t ++ concat_map pick (next w).0) h.1
        ∙ ap (λ (t : List X). xs ++ t) (k w).1,
  )

module _ {ℓ κ μ} {V : Type ℓ} {W : Type κ} {X : Type μ} (m : Machine V W) (cfg : Config)
    (can : List Text × Text → Bool)
    (stable : (cmd : List Text × Text) (w : W) → (m.build cmd w).0 ≡ ok (can cmd))
    (pick : Action V → List X) (per : Run → List X)
    (each : (s : Server) (r : Run) (w : W) → Gives pick (trial_of m cfg s r w) (per r))
    (none_of : (name : Text) → pick (skip_unknown name) ≡ []) where
  trials_of-collected :
      (s : Server) (rs : List Run) (w : W) → Gives pick (trials_of m cfg s rs w) (concat_map per rs)
  unfolding trials_of
  trials_of-collected s [] w = (refl, refl)
  trials_of-collected s (r ∷ rs) w =
      Gives-then pick (trial_of m cfg s r w) (trials_of m cfg s rs) (per r) (concat_map per rs)
        (each s r w) (trials_of-collected s rs)

  build-buildable :
      (o : Option (List Text × Text)) (w : W) → (build m cfg o w).0 ≡ ok (buildable can o)
  unfolding build
  build-buildable none w = refl
  build-buildable (some cmd) w = stable cmd w

  when_built-collected :
      (name : Text) (s : Server) (x : Result Bool × W) (b : Bool)
      → x.0 ≡ ok b
      → Gives pick
          (when_built m cfg name s x)
          (concat_map per (if b then runs_at cfg.trials name cfg.conns_list else []))
  unfolding when_built
  when_built-collected name s (x, w) false h = rw h (refl, refl)
  when_built-collected name s (x, w) true h =
      rw (h, runs_of-runs_at m cfg name cfg.conns_list)
        (trials_of-collected s (runs_at cfg.trials name cfg.conns_list) w)

  server_of-collected :
      (name : Text) (o : Option Server) (w : W)
      → Gives pick
          (server_of m cfg name o w)
          (concat_map per (if usable can o then runs_at cfg.trials name cfg.conns_list else []))
  unfolding server_of
  server_of-collected name none w = (refl, ap (λ (t : List X). t ++ []) (none_of name))
  server_of-collected name (some s) w =
      when_built-collected name s (build m cfg (build_of s) w) (buildable can (build_of s))
        (build-buildable (build_of s) w)

  over_servers-collected :
      (names : List Text) (w : W)
      → Gives pick (over_servers m cfg names w) (concat_map per (asked cfg can names))
  unfolding over_servers
  over_servers-collected [] w = (refl, refl)
  over_servers-collected (name ∷ names) w =
      let here = if offered can name servers then runs_at cfg.trials name cfg.conns_list else [] in
      let all =
        Gives-then pick (server_of m cfg name (lookup name) w) (over_servers m cfg names)
          (concat_map per here) (concat_map per (asked cfg can names))
          (subst
            (λ (b : Bool).
              Gives pick (server_of m cfg name (lookup name) w)
                (concat_map per (if b then runs_at cfg.trials name cfg.conns_list else [])))
            (offered-lookup can name) (server_of-collected name (lookup name) w))
          (over_servers-collected names) in
      (all.0, all.1 ∙ sym (concat_map-append per here (asked cfg can names)))

  pub main-collected :
      (w : W) → Gives pick (main m cfg w) (concat_map per (asked cfg can cfg.servers))
  unfolding main
  main-collected w = over_servers-collected cfg.servers w

-- A pick that passes over warnings and cooldowns takes of a report its row and its windows.
module _ {ℓ κ μ} {V : Type ℓ} {W : Type κ} {X : Type μ} (m : Machine V W) (cfg : Config)
    (pick : Action V → List X) (no_busy : (r : Run) → pick (client_busy r) ≡ [])
    (no_late : (r : Run) → pick (sender_late r) ≡ []) (no_cooldown : pick cooldown ≡ []) where
  passed_one :
      (b : Bool) (a : Action V) → pick a ≡ [] → concat_map pick (if b then a ∷ [] else []) ≡ []
  passed_one true a h = ap (λ (t : List X). t ++ []) h
  passed_one false a h = refl

  warnings_passed : (r : Run) (cpu rate : V) → concat_map pick (warnings m cfg r cpu rate) ≡ []
  unfolding warnings
  warnings_passed r cpu rate =
      let busy = m.num.lt (m.num.share (length cfg.client_cores)) cpu in
      let late = m.num.lt rate m.num.target in
      concat_map-append pick (if busy then client_busy r ∷ [] else [])
        (if late then sender_late r ∷ [] else [])
      ∙ ap (λ (t : List X). t ++ concat_map pick (if late then sender_late r ∷ [] else []))
          (passed_one busy (client_busy r) (no_busy r))
      ∙ passed_one late (sender_late r) (no_late r)

  windows_picked :
      (r : Run) (ws : List (Window V))
      → concat_map pick (map (λ w. write_window (tl_row m.num r w)) ws ++ cooldown ∷ [])
        ≡ concat_map (λ w. pick (write_window (tl_row m.num r w))) ws
  windows_picked r [] = ap (λ (t : List X). t ++ []) no_cooldown
  windows_picked r (w ∷ ws) =
      ap (λ (t : List X). pick (write_window (tl_row m.num r w)) ++ t) (windows_picked r ws)

  pub report_picked :
      (r : Run) (res : Load V) (s : Sampler) (w : W)
      → concat_map pick (report m cfg r (some (ok res), s) w).0
        ≡ pick (write_row (row m.num m.clk (cfg.warmup + cfg.dur) r res s))
          ++ concat_map (λ x. pick (write_window (tl_row m.num r x))) res.timeline
  unfolding report
  report_picked r res s w =
      let cpu = m.num.round (or_nil m.num res.client_cpu_cores) 2 in
      let rate = m.num.round (or_nil m.num res.send_rate_pct) 1 in
      let written =
        map (λ (w : Window V). write_window (tl_row m.num r w)) res.timeline ++ cooldown ∷ [] in
      let own = pick (write_row (row m.num m.clk (cfg.warmup + cfg.dur) r res s)) in
      ap (λ (t : List X). own ++ t)
        (concat_map-append pick (warnings m cfg r cpu rate) written
          ∙ ap (λ (t : List X). t ++ concat_map pick written) (warnings_passed r cpu rate)
          ∙ windows_picked r res.timeline)
