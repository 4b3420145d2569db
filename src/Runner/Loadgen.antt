-- ===== src/Runner/Loadgen.antt =====
-- runner/run.py: `run_loadgen`, the choice of the load generator in `main`, and the machine of the
-- loops with its load generator.
use game_bench.Common.{ℕ, ◌≡◌, ap, ◌∙◌, Bool, false, Option, List, [], ◌∷◌, ◌++◌, length}
use game_bench.Py.Text.{Text, codes, is_space, rstrip, strip}
use game_bench.Py.Lines.{splitlines, last_or, NoBreak, Blank, last_strip}
use game_bench.Py.Decimal.{str}
use game_bench.Py.Result.{Result, ok, raise}
use game_bench.Runner.Specs.{Launch}
use game_bench.Runner.Cores.{cpuspec}
use game_bench.Runner.Report.{Run, Load, Numbers}
use game_bench.Runner.Sampler.{Sampler}
use game_bench.Runner.Processes.{Host, taskset_wrap}
use game_bench.Runner.Matrix.{Config, Machine}

-- The choices of --loadgen.
pub data Loadgen : Type 0 where
  odin go : Loadgen

-- os.path.join(ROOT, …, …)
unfoldable pub loadgen_path : Text → Loadgen → Text
loadgen_path root odin = root ++ codes "/loadgen-odin/loadgen-odin"
loadgen_path root go = root ++ codes "/loadgen/loadgen"

-- The build command and the directory it runs in.
unfoldable pub loadgen_build : Loadgen → List Text × Text
loadgen_build odin = (
  codes "odin" ∷ codes "build" ∷ codes "." ∷ codes "-out:loadgen-odin" ∷ codes "-o:speed" ∷ [],
  codes "loadgen-odin",
)
loadgen_build go =
    (codes "go" ∷ codes "build" ∷ codes "-o" ∷ codes "loadgen" ∷ codes "." ∷ [], codes "loadgen")

unfoldable pub loadgen_extra : Loadgen → List ℕ → List Text
loadgen_extra odin client_cores = codes "-workers" ∷ str (length client_cores) ∷ []
loadgen_extra go client_cores = []

unfoldable pub last_line : Text → Text
last_line stdout = last_or [] (splitlines (strip stdout))

-- What the generator is asked for, beside the run.
pub record Asked : Type 0 where
  pub loadgen : Loadgen
  pub room_size : ℕ
  pub rate : ℕ

unfoldable pub loadgen_argv : Asked → Config → Run → List Text
unfolding loadgen_path loadgen_extra
loadgen_argv a cfg r =
    loadgen_path cfg.root a.loadgen
    ∷ codes "-addr"
    ∷ (codes "127.0.0.1:" ++ str cfg.port)
    ∷ codes "-conns"
    ∷ str r.conns
    ∷ codes "-room-size"
    ∷ str a.room_size
    ∷ codes "-rate"
    ∷ str a.rate
    ∷ codes "-warmup"
    ∷ (str cfg.warmup ++ codes "s")
    ∷ codes "-dur"
    ∷ (str cfg.dur ++ codes "s")
    ∷ codes "-json"
    ∷ loadgen_extra a.loadgen cfg.client_cores

-- `subprocess.run` gives what a command prints or raises, and `start` is start_server. `loads` is
-- json.loads with none for JSONDecodeError; an exception is one of the lookups of `main` in the object.
-- `sampled` is what the sampler has when the command is over.
pub record Tools {ℓ κ} (V : Type ℓ) (W : Type κ) : Type (ℓ ⊔ κ) where
  pub num : Numbers V
  pub clk : ℕ
  pub build : List Text × Text → W → Result Bool × W
  pub start : List Launch → W → Result (Unit {0}) × W
  pub wait_ready : Run → W → Bool × W
  pub run : List Text → W → Result Text × W
  pub loads : Text → Option (Result (Load V))
  pub sampled : Run → W → Sampler

module _ {ℓ κ} {V : Type ℓ} {W : Type κ} (t : Tools V W) (host : Host) (a : Asked)
    (cfg : Config) where
  unfoldable pub read_output : Result Text × W → Result (Option (Result (Load V))) × W
  unfolding last_line
  read_output (raise e, w) = (raise e, w)
  read_output (ok stdout, w) = (ok (t.loads (last_line stdout)), w)

  unfoldable pub run_loadgen : Run → W → Result (Option (Result (Load V))) × W
  unfolding loadgen_argv read_output
  run_loadgen r w =
      read_output (t.run (taskset_wrap host (loadgen_argv a cfg r) (cpuspec cfg.client_cores)) w)

  unfoldable pub with_sampler :
      Run → Result (Option (Result (Load V))) × W → Result (Option (Result (Load V)) × Sampler) × W
  with_sampler r (raise e, w) = (raise e, w)
  with_sampler r (ok res, w) = (ok (res, t.sampled r w), w)

  -- The load with the sampler that runs beside it.
  unfoldable pub measured : Run → W → Result (Option (Result (Load V)) × Sampler) × W
  unfolding run_loadgen with_sampler
  measured r w = with_sampler r (run_loadgen r w)

  unfoldable pub machine_of : Machine V W
  unfolding measured
  machine_of = record {
    num = t.num;
    clk = t.clk;
    build = t.build;
    start = λ r plan w. t.start plan w;
    wait_ready = t.wait_ready;
    measure = measured;
  }

  -- If the generator prints anything, then a line of JSON and then white space, the result of the run is
  -- the one that this line is read as.
  pub run_loadgen-last :
      (r : Run) (w w' : W) (before : Text) (c : ℕ) (s gap : Text)
      → is_space c ≡ false
      → rstrip (c ∷ s) ≡ c ∷ s
      → NoBreak (c ∷ s)
      → Blank gap
      → t.run (taskset_wrap host (loadgen_argv a cfg r) (cpuspec cfg.client_cores)) w
        ≡ (ok (before ++ 10 ∷ c ∷ (s ++ gap)), w')
      → run_loadgen r w ≡ (ok (t.loads (c ∷ s)), w')
  unfolding run_loadgen last_line
  run_loadgen-last r w w' before c s gap h trim line blank e =
      ap read_output e
      ∙ ap (λ (l : Text). (ok (t.loads l), w')) (last_strip before c s gap h trim line blank)
