-- ===== src/Runner/Servers/Budget.antt =====
-- runner/run.py: what the launch plans of all the servers have in common.
use game_bench.Common.{ℕ, ◌≡◌, refl, ap, ◌∙◌, List, [], ◌∷◌, ◌++◌, append-nil, drop, All}
use game_bench.Py.Int.{pos}
use game_bench.Py.Result.{Result, ok, ◌>>=◌}
use game_bench.Py.Text.{Text, codes}
use game_bench.Runner.Cores.{cpuspec, parse_cores}
use game_bench.Runner.Cores.Parsing.{parse_cores-cpuspec, parse_cores-str}
use game_bench.Runner.Specs.{
  Launch, in_root, addr_tick, one_process, process_per_core, spec_go, spec_go_pool, spec_go_epoll,
  spec_rust, spec_ocaml, spec_odin, spec_zig, spec_dart, spec_dart_pool, spec_swift, spec_clojure,
  spec_elixir, spec_python, spec_lua,
}
use game_bench.Runner.Servers.{
  Server, go, go_pool, go_epoll, rust, ocaml, odin, zig, dart, dart_pool, swift, clojure, elixir,
  python, lua, spec_of,
}
use game_bench.Server.Args.{parse_args, parse_args_runner}

-- The cores that taskset gives to the processes of a plan, one process after another.
abbrev pub pinned : List Launch → Result (List ℕ)
pinned [] = ok []
pinned (l ∷ ls) = parse_cores l.cpu [] >>= λ cs. pinned ls >>= λ rest. ok (cs ++ rest)

-- One process on all the cores.
pinned_one :
    (c : ℕ) (cs : List ℕ)
    → (parse_cores (cpuspec (c ∷ cs)) [] >>= λ ds. pinned [] >>= λ rest. ok (ds ++ rest))
      ≡ ok (c ∷ cs)
pinned_one c cs = rw (parse_cores-cpuspec c cs []) (ap ok (append-nil (c ∷ cs)))

pinned-process_per_core :
    (argv : List Text) (cs : List ℕ) → pinned (process_per_core argv cs) ≡ ok cs
unfolding process_per_core
pinned-process_per_core argv [] = refl
pinned-process_per_core argv (c ∷ cs) =
    ap
      (λ (r : Result (List ℕ)).
        r >>= λ ds. pinned (process_per_core argv cs) >>= λ rest. ok (ds ++ rest))
      (parse_cores-str c)
    ∙ ap (λ (r : Result (List ℕ)). r >>= λ rest. ok (c ∷ rest)) (pinned-process_per_core argv cs)

module _ (root sys_executable : Text) (port tick : ℕ) (c : ℕ) (cs : List ℕ) where
  -- For every server and every non-empty list of cores, the processes of the launch plan are pinned
  -- to exactly these cores: the cpu arguments, read as taskset reads them, are the list.
  pub pinned-spec_of :
      (s : Server) → pinned (spec_of root sys_executable s port tick (c ∷ cs)) ≡ ok (c ∷ cs)
  unfolding spec_go spec_go_pool spec_go_epoll spec_rust spec_ocaml spec_odin spec_zig spec_dart
      spec_dart_pool spec_swift spec_clojure spec_elixir spec_python spec_lua one_process
  pinned-spec_of go = pinned_one c cs
  pinned-spec_of go_pool = pinned_one c cs
  pinned-spec_of go_epoll = pinned_one c cs
  pinned-spec_of rust = pinned_one c cs
  pinned-spec_of ocaml = pinned_one c cs
  pinned-spec_of odin = pinned_one c cs
  pinned-spec_of zig = pinned_one c cs
  pinned-spec_of dart = pinned_one c cs
  pinned-spec_of dart_pool = pinned_one c cs
  pinned-spec_of swift = pinned_one c cs
  pinned-spec_of clojure = pinned_one c cs
  pinned-spec_of elixir = pinned_one c cs
  pinned-spec_of python =
      pinned-process_per_core
        (sys_executable
          ∷ in_root root sys_executable (codes "servers/python/server.py")
          ∷ addr_tick port tick)
        (c ∷ cs)
  pinned-spec_of lua =
      pinned-process_per_core
        (codes "luajit"
          ∷ in_root root sys_executable (codes "servers/lua/server.lua")
          ∷ addr_tick port tick)
        (c ∷ cs)

each_argv :
    (P : List Text → Type 0) (argv : List Text)
    → P argv
    → (cs : List ℕ) → All (λ l. P l.argv) (process_per_core argv cs)
unfolding process_per_core
each_argv P argv p [] = tt
each_argv P argv p (c ∷ cs) = (p, each_argv P argv p cs)

-- Every process that is started for the Python server reads the port and the tick rate that the
-- runner means: its arguments are those behind the interpreter and the script.
pub spec_python-parse_args :
    (root sys_executable : Text) (port tick : ℕ) (cores : List ℕ)
    → All
        (λ l. parse_args (drop 2 l.argv) ≡ ok (pos port, pos tick))
        (spec_python root sys_executable port tick cores)
unfolding spec_python addr_tick
spec_python-parse_args root sys_executable port tick cores =
    each_argv (λ argv. parse_args (drop 2 argv) ≡ ok (pos port, pos tick))
      (sys_executable
        ∷ in_root root sys_executable (codes "servers/python/server.py")
        ∷ addr_tick port tick)
      (parse_args_runner port tick) cores
