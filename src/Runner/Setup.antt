-- ===== src/Runner/Setup.antt =====
-- runner/run.py: `main` from its parsed options to its loops. A load is not negative.
pub mod Defaults
use game_bench.Common.{
  ℕ, suc, ◌≡◌, ◌≢◌, refl, ap, ◌∙◌, Bool, true, false, Option, none, some, List, [], ◌∷◌, ◌++◌, map,
  if◌then◌else◌, All, Lacks,
}
use game_bench.Py.Text.{Text, codes, split, strip, join, NoSpace, strip_id, split-join}
use game_bench.Py.Decimal.{str}
use game_bench.Py.Result.{Result, ok, raise, system_exit, ◌>>=◌}
use game_bench.Runner.Cores.{
  int_core, parse_cores, default_server_cores, default_client_cores, overlap, range,
}
use game_bench.Runner.Cores.Parsing.{default_cores_split}
use game_bench.Runner.Processes.{Host}
use game_bench.Runner.Loadgen.{Loadgen, loadgen_build, Asked, Tools, machine_of}
use game_bench.Runner.Matrix.{Config, Action, Ended, main}

-- What is warned of on stderr before the loops.
pub data Notice : Type 0 where
  cores_overlap : Notice

unfoldable pub notices : Result (List ℕ) → Result (List ℕ) → List Notice
notices (raise e) client_cores = []
notices (ok ss) (raise e) = []
notices (ok ss) (ok cs) = if overlap ss cs then cores_overlap ∷ [] else []

-- The options that the loops depend on, as argparse gives them.
pub record Options : Type 0 where
  pub servers : Text
  pub conns : Text
  pub trials : ℕ
  pub room_size : ℕ
  pub rate : ℕ
  pub tick : ℕ
  pub warmup : ℕ
  pub dur : ℕ
  pub server_cores : Text
  pub client_cores : Text
  pub loadgen : Loadgen

unfoldable pub asked_of : Options → Asked
asked_of o = record { loadgen = o.loadgen; room_size = o.room_size; rate = o.rate }

unfoldable pub named : Text → List Text → List Text
named [] names = names
named (c ∷ s) names = (c ∷ s) ∷ names

-- [s.strip() for s in … if s.strip()]
unfoldable pub strip_all : List Text → List Text
unfolding named
strip_all [] = []
strip_all (s ∷ ss) = named (strip s) (strip_all ss)

unfoldable pub server_names : Text → List Text
unfolding strip_all
server_names s = strip_all (split b',' s)

-- [int(c) for c in …]
unfoldable pub int_all : List Text → Result (List ℕ)
int_all [] = ok []
int_all (s ∷ ss) = int_core s >>= λ n. int_all ss >>= λ ns. ok (n ∷ ns)

unfoldable pub loads_of : Text → Result (List ℕ)
unfolding int_all
loads_of s = int_all (split b',' s)

module _ (root python : Text) (port : ℕ) (ncpu : ℕ) where
  unfoldable pub config_of : Options → List ℕ → List ℕ → List ℕ → Config
  unfolding server_names
  config_of o server_cores client_cores conns_list = record {
    root = root;
    sys_executable = python;
    port = port;
    tick = o.tick;
    trials = o.trials;
    warmup = o.warmup;
    dur = o.dur;
    servers = server_names o.servers;
    conns_list = conns_list;
    server_cores = server_cores;
    client_cores = client_cores;
  }

  unfoldable pub setup : Options → Result Config
  unfolding config_of loads_of
  setup o = parse_cores o.server_cores (default_server_cores ncpu) >>= λ server_cores.
      parse_cores o.client_cores (default_client_cores ncpu) >>= λ client_cores.
      loads_of o.conns >>= λ conns_list. ok (config_of o server_cores client_cores conns_list)

module _ {ℓ κ} {V : Type ℓ} {W : Type κ} (t : Tools V W) (host : Host) where
  -- `if not build(…): sys.exit(1)`
  unfoldable pub when_loadgen_built : Asked → Config → Result Bool × W → Ended V W
  when_loadgen_built a cfg (raise e, w) = ([], (raise e, w))
  when_loadgen_built a cfg (ok false, w) = ([], (raise system_exit, w))
  when_loadgen_built a cfg (ok true, w) = main (machine_of t host a cfg) cfg w

  unfoldable pub from_config : Asked → Result Config → W → Ended V W
  unfolding when_loadgen_built
  from_config a (raise e) w = ([], (raise e, w))
  from_config a (ok cfg) w = when_loadgen_built a cfg (t.build (loadgen_build a.loadgen) w)

  -- `main` from its parsed options. The cores are compared before the loads are read.
  module _ (root python : Text) (port ncpu : ℕ) where
    unfoldable pub benchmark : Options → W → List Notice × Ended V W
    unfolding notices from_config setup asked_of
    benchmark o w = (
      notices (parse_cores o.server_cores (default_server_cores ncpu))
          (parse_cores o.client_cores (default_client_cores ncpu)),
      from_config (asked_of o) (setup root python port ncpu o) w,
    )
