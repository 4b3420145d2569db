-- ===== src/Runner/Matrix.antt =====
-- runner/run.py: the loops of `main` over servers, loads and trials. The machine is a state `W` of
-- any type with the outcomes of the calls that leave the program, exceptions included: nothing of
-- `main` catches one.
pub mod Lifecycle
pub mod Asked
pub mod Collected
pub mod Product
pub mod Rows
pub mod Lines
use game_bench.Common.{
  ℕ, zero, suc, ◌+◌, Bool, true, false, Option, none, some, List, [], ◌∷◌, ◌++◌, if◌then◌else◌, map,
  length,
}
use game_bench.Py.Text.{Text}
use game_bench.Py.Result.{Result, ok, raise}
use game_bench.Runner.Specs.{Launch}
use game_bench.Runner.Servers.{Server, lookup, build_of, spec_of}
use game_bench.Runner.Report.{Run, Cell, Window, Load, Numbers, or_nil, row, tl_row}
use game_bench.Runner.Sampler.{Sampler}
use game_bench.Runner.Cores.{range}

-- What is left of the parsed arguments where the loops begin.
pub record Config : Type 0 where
  pub root : Text
  pub sys_executable : Text
  pub port : ℕ
  pub tick : ℕ
  pub trials : ℕ
  pub warmup : ℕ
  pub dur : ℕ
  pub servers : List Text
  pub conns_list : List ℕ
  pub server_cores : List ℕ
  pub client_cores : List ℕ

-- Each takes the state of the machine before the call and gives the one after it. `start` is
-- start_server. `measure` is run_loadgen with the sampler that runs beside it; `none` is output that is
-- no JSON, and an exception inside it is one of the lookups in the object. `clk` is CLK.
pub record Machine {ℓ κ} (V : Type ℓ) (W : Type κ) : Type (ℓ ⊔ κ) where
  pub num : Numbers V
  pub clk : ℕ
  pub build : List Text × Text → W → Result Bool × W
  pub start : Run → List Launch → W → Result (Unit {0}) × W
  pub wait_ready : Run → W → Bool × W
  pub measure : Run → W → Result (Option (Result (Load V)) × Sampler) × W

-- What `main` does, in order.
pub data Action {ℓ} (V : Type ℓ) : Type ℓ where
  skip_unknown : Text → Action V
  start_server : Run → List Launch → Action V
  not_ready : Run → Action V
  load : Run → Action V
  stop_server : Run → Action V
  write_row : List (Text × Cell V) → Action V
  client_busy : Run → Action V
  sender_late : Run → Action V
  write_window : List (Text × Cell V) → Action V
  cooldown : Action V

-- What was done, whether an exception ended it, and the machine then.
abbrev pub Ended {ℓ κ} : Type ℓ → Type κ → Type (ℓ ⊔ κ)
Ended V W = List (Action V) × (Result (Unit {0}) × W)

-- What follows, unless an exception was raised.
unfoldable pub and_then {ℓ κ} : {V : Type ℓ} {W : Type κ} → Ended V W → (W → Ended V W) → Ended V W
and_then (acts, (raise e, w)) next = (acts, (raise e, w))
and_then (acts, (ok u, w)) next = let (later, end) = next w in (acts ++ later, end)

module _ {ℓ κ} {V : Type ℓ} {W : Type κ} (m : Machine V W) (cfg : Config) where
  -- What is warned of on stderr, by the two rounded numbers of the row.
  unfoldable pub warnings : Run → V → V → List (Action V)
  warnings r cpu rate =
      (if m.num.lt (m.num.share (length cfg.client_cores)) cpu then client_busy r ∷ [] else [])
      ++ (if m.num.lt rate m.num.target then sender_late r ∷ [] else [])

  -- `if res is None` and what follows it
  unfoldable pub report : Run → Option (Result (Load V)) × Sampler → W → Ended V W
  unfolding warnings
  report r (none, s) w = (cooldown ∷ [], (ok tt, w))
  report r (some (raise e), s) w = ([], (raise e, w))
  report r (some (ok res), s) w = (
    write_row (row m.num m.clk (cfg.warmup + cfg.dur) r res s)
          ∷ warnings r (m.num.round (or_nil m.num res.client_cpu_cores) 2)
              (m.num.round (or_nil m.num res.send_rate_pct) 1)
        ++ (map (λ x. write_window (tl_row m.num r x)) res.timeline ++ cooldown ∷ []),
    (ok tt, w),
  )

  -- From the return of run_loadgen on.
  unfoldable pub when_measured : Run → Result (Option (Result (Load V)) × Sampler) × W → Ended V W
  unfolding report
  when_measured r (raise e, w) = (load r ∷ [], (raise e, w))
  when_measured r (ok out, w) =
      let (actions, end) = report r out w in (load r ∷ stop_server r ∷ actions, end)

  unfoldable pub when_ready : Run → Bool × W → Ended V W
  unfolding when_measured
  when_ready r (false, w) = (not_ready r ∷ stop_server r ∷ cooldown ∷ [], (ok tt, w))
  when_ready r (true, w) = when_measured r (m.measure r w)

  unfoldable pub after_start : Run → Result (Unit {0}) × W → Ended V W
  unfolding when_ready
  after_start r (raise e, w) = ([], (raise e, w))
  after_start r (ok u, w) = when_ready r (m.wait_ready r w)

  -- The body of the innermost loop.
  unfoldable pub trial_of : Server → Run → W → Ended V W
  unfolding after_start
  trial_of s r w =
      let plan = spec_of cfg.root cfg.sys_executable s cfg.port cfg.tick cfg.server_cores in
      let (actions, end) = after_start r (m.start r plan w) in (start_server r plan ∷ actions, end)

  unfoldable pub trials_of : Server → List Run → W → Ended V W
  unfolding trial_of and_then
  trials_of s [] w = ([], (ok tt, w))
  trials_of s (r ∷ rs) w = and_then (trial_of s r w) (trials_of s rs)

  -- The runs of a server, in the order of the two inner loops.
  unfoldable pub runs_of : Text → List ℕ → List Run
  runs_of name [] = []
  runs_of name (c ∷ cs) =
      map (λ k. record { server = name; conns = c; trial = k }) (range 1 (cfg.trials + 1))
      ++ runs_of name cs

  -- build(cmd_cwd, label): a server with no build command is built.
  unfoldable pub build : Option (List Text × Text) → W → Result Bool × W
  build none w = (ok true, w)
  build (some cmd) w = m.build cmd w

  unfoldable pub when_built : Text → Server → Result Bool × W → Ended V W
  unfolding trials_of runs_of
  when_built name s (raise e, w) = ([], (raise e, w))
  when_built name s (ok false, w) = ([], (ok tt, w))
  when_built name s (ok true, w) = trials_of s (runs_of name cfg.conns_list) w

  unfoldable pub server_of : Text → Option Server → W → Ended V W
  unfolding when_built build
  server_of name none w = (skip_unknown name ∷ [], (ok tt, w))
  server_of name (some s) w = when_built name s (build (build_of s) w)

  unfoldable pub over_servers : List Text → W → Ended V W
  unfolding server_of and_then
  over_servers [] w = ([], (ok tt, w))
  over_servers (name ∷ names) w = and_then (server_of name (lookup name) w) (over_servers names)

  unfoldable pub main : W → Ended V W
  unfolding over_servers
  main w = over_servers cfg.servers w
