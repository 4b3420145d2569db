-- ===== src/Runner/Tests/Main.antt =====
-- The loops of runner/run.py on a small machine, and a server from its start to its stop.
use game_bench.Common.{
  ℕ, ◌≡◌, ◌⊎◌, map, refl, Bool, true, false, not, Option, some, List, [], ◌∷◌, ◌++◌, ◌==◌, length,
  All, arith,
}
use game_bench.Py.Text.{codes}
use game_bench.Py.Result.{ok, raise, os_error}
use game_bench.Py.Os.{Kernel, Event, exits, forks}
use game_bench.Runner.Cores.{contains, overlap, range}
use game_bench.Runner.Specs.{Launch}
use game_bench.Runner.Report.{Run, Load, fields, tl_fields}
use game_bench.Runner.Sampler.{Sampler, new_sampler}
use game_bench.Runner.Matrix.{Config, Machine, Ended, main}
use game_bench.Runner.Matrix.Lifecycle.{raised, Phase, idle, Steps, main-Steps}
use game_bench.Runner.Matrix.Collected.{concat_map, asked}
use game_bench.Runner.Matrix.Product.{start_in, main-starts}
use game_bench.Runner.Matrix.Rows.{row_in, window_in}
use game_bench.Runner.Matrix.Lines.{csv_line, lines_for, window_lines, main-rows}
use game_bench.Runner.Processes.{
  Host, Moment, before_start, before_term, before_kill, before_wait, in_use, asleep, start_and_stop,
}
use game_bench.Runner.Processes.Groups.{IsStopped}
use game_bench.Runner.Processes.Life.{start_and_stop-IsStopped}
use game_bench.Runner.Processes.Restored.{calm}
use game_bench.Runner.Processes.Calm.{start_and_stop-table}
use game_bench.Runner.Loadgen.{Tools, machine_of, odin}
use game_bench.Runner.Setup.{Options, Notice, cores_overlap, notices, asked_of, benchmark}
use game_bench.Runner.Setup.Defaults.{IsName, on_defaults, benchmark-on_defaults}
use game_bench.Runner.Tests.{root_dir, whole, some_load}

-- A machine on which no build fails and every other server gets ready.
abbrev machine : Machine ℕ Bool
machine = record {
  num = whole;
  clk = 100;
  build = λ cmd w. (ok true, w);
  start = λ r plan w. (ok tt, w);
  wait_ready = λ r w. (w, not w);
  measure = λ r w. (ok (some (ok some_load), new_sampler []), w);
}

-- A machine on which the servers get ready at the load of 500 only.
abbrev ready_at : Run → Bool
ready_at r = r.conns == 500

abbrev steady : Machine ℕ Bool
steady = record machine { wait_ready = λ r w. (ready_at r, w) }

abbrev config : Config
config = record {
  root = root_dir;
  sys_executable = codes "python3";
  port = 9100;
  tick = 30;
  trials = 2;
  warmup = 5;
  dur = 20;
  servers = codes "go" ∷ codes "nothing" ∷ codes "lua" ∷ [];
  conns_list = 500 ∷ 1000 ∷ [];
  server_cores = 0 ∷ 1 ∷ [];
  client_cores = 2 ∷ 3 ∷ [];
}

-- A machine on which the load generator of the first run cannot be executed.
abbrev broken : Machine ℕ Bool
broken = record machine { measure = λ r w. (raise os_error, w) }

main-Steps_example :
    (q : Phase) × Steps idle (main broken config true).0 q
    × ((q ≡ idle) ⊎ (raised (main broken config true).1.0 ≡ true))
main-Steps_example = main-Steps broken config true

main-starts_example :
    ((main machine config true).1.0 ≡ ok tt)
    × (concat_map start_in (main machine config true).0 ≡ asked config (λ cmd. true) config.servers)
main-starts_example =
    main-starts machine config (λ r plan w. refl) (λ r w. refl) (λ cmd. true) (λ cmd w. refl) true

abbrev outcome : Run → Option (Load ℕ) × Sampler
outcome r = (some some_load, new_sampler [])

main-rows_example :
    ((main steady config true).1.0 ≡ ok tt)
    × (map (csv_line fields) (concat_map row_in (main steady config true).0)
        ≡ concat_map
            (λ r. lines_for steady config r (ready_at r) (outcome r))
            (asked config (λ cmd. true) config.servers))
    × (map (csv_line tl_fields) (concat_map window_in (main steady config true).0)
        ≡ concat_map
            (λ r. window_lines steady config r (ready_at r) (outcome r))
            (asked config (λ cmd. true) config.servers))
main-rows_example =
    main-rows steady config ready_at outcome (λ r plan w. refl) (λ r w. refl) (λ r w. refl)
      (λ cmd. true) (λ cmd w. refl) true

abbrev host : Host
host = record {
  have_taskset = true;
  environ = (codes "PATH", codes "/bin") ∷ [];
  can_run = λ argv. true;
  is_stubborn = λ argv. true;
}

-- The first server forks a child that goes on after SIGTERM, and ends; the second one forks too.
abbrev during : Moment → List Event
during (before_start n) = []
during in_use = forks 12 true ∷ exits 12 ∷ forks 13 false ∷ []
during asleep = forks 14 true ∷ []
during (before_term p) = []
during (before_kill p) = forks 13 true ∷ []
during (before_wait p) = forks 13 true ∷ []

abbrev two : List Launch
two =
    record { argv = codes "a" ∷ []; env = []; cpu = codes "0" }
    ∷ record { argv = codes "b" ∷ []; env = []; cpu = codes "1" }
    ∷ []

abbrev kernel : Kernel
kernel = record {
  table = record { pid = 11; pgid = 11; live = true; stubborn = false; argv = []; env = [] } ∷ [];
  next = 12;
}

start_and_stop-IsStopped_example :
    (length (start_and_stop host during two kernel).0 ≡ length two)
    × All
        (IsStopped (start_and_stop host during two kernel).1)
        (start_and_stop host during two kernel).0
start_and_stop-IsStopped_example =
    start_and_stop-IsStopped host during two kernel ((omega arith, omega arith), tt)
      (refl, (refl, tt))

start_and_stop-table_example : (start_and_stop host calm two kernel).1.table ≡ kernel.table
start_and_stop-table_example =
    start_and_stop-table host two kernel ((omega arith, omega arith), tt) (refl, (refl, tt))

abbrev options : Options
options = record {
  servers = [];
  conns = [];
  trials = 3;
  room_size = 50;
  rate = 20;
  tick = 30;
  warmup = 5;
  dur = 20;
  server_cores = [];
  client_cores = [];
  loadgen = odin;
}

rust_only : All IsName (codes "rust" ∷ [])
rust_only = (
  record {
    some_code = λ e. cc;
    no_comma = omega arith;
    no_space = (refl, (refl, (refl, (refl, tt))));
  },
  tt,
)

-- The state says whether the next server gets ready.
abbrev tools : Tools ℕ Bool
tools = record {
  num = whole;
  clk = 100;
  build = λ cmd w. (ok true, w);
  start = λ plan w. (ok tt, w);
  wait_ready = λ r w. (w, not w);
  run = λ argv w. (ok (codes "{}"), w);
  loads = λ s. some (ok some_load);
  sampled = λ r w. new_sampler [];
}

-- The benchmark of one server at two loads, from the options to the end of its loops.
abbrev rust_run : List Notice × Ended ℕ Bool
rust_run =
    benchmark tools host root_dir (codes "python3") 9100 8
      (on_defaults options (codes "rust" ∷ []) (500 ∷ 1000 ∷ [])) true

benchmark-on_defaults_example :
    (cfg : Config) × (cfg.servers ≡ codes "rust" ∷ [])
    × (cfg.conns_list ≡ 500 ∷ 1000 ∷ [])
    × (cfg.server_cores ++ cfg.client_cores ≡ range 0 8)
    × (overlap cfg.server_cores cfg.client_cores ≡ false)
    × (rust_run ≡ ([], main (machine_of tools host (asked_of options) cfg) cfg true))
benchmark-on_defaults_example =
    benchmark-on_defaults tools host root_dir (codes "python3") 9100 8 options (codes "rust") [] 500
      (1000 ∷ []) true true rust_only refl

-- A warning on a core that both sides have.
overlapping : notices (ok (3 ∷ 4 ∷ [])) (ok (4 ∷ 5 ∷ [])) ≡ cores_overlap ∷ []
unfolding notices overlap contains
overlapping = refl
