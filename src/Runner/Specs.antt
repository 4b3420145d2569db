-- ===== src/Runner/Specs.antt =====
-- runner/run.py: the launch plan of every server. `root` is ROOT and `python` is sys.executable,
-- texts that the machine gives: the section's parameters.
use game_bench.Common.{ℕ, List, [], ◌∷◌, ◌++◌, length}
use game_bench.Py.Text.{Text, codes}
use game_bench.Py.Decimal.{str}
use game_bench.Runner.Cores.{cpuspec}

-- (argv, env, cpuspec), one for each OS process
pub record Launch : Type 0 where
  pub argv : List Text
  pub env : List (Text × Text)
  pub cpu : Text

-- The flags that every server takes.
unfoldable pub addr_tick : ℕ → ℕ → List Text
addr_tick port tick = codes "-addr" ∷ (b':' ∷ str port) ∷ codes "-tick" ∷ str tick ∷ []

unfoldable pub workers_of : List ℕ → List Text
workers_of cores = codes "-workers" ∷ str (length cores) ∷ []

-- `[(argv, env, cpuspec(cores))]`: one process on all the cores.
unfoldable pub one_process : List Text → List (Text × Text) → List ℕ → List Launch
one_process argv env cores = record { argv = argv; env = env; cpu = cpuspec cores } ∷ []

-- `[(argv, {}, str(c)) for c in cores]`: one process on each core.
unfoldable pub process_per_core : List Text → List ℕ → List Launch
process_per_core argv [] = []
process_per_core argv (c ∷ cores) =
    record { argv = argv; env = []; cpu = str c } ∷ process_per_core argv cores

module _ (root python : Text) where
  -- os.path.join(ROOT, rel), for a relative path below a ROOT that does not end in a slash
  unfoldable pub in_root : Text → Text
  in_root rel = root ++ b'/' ∷ rel

  unfoldable pub spec_go : ℕ → ℕ → List ℕ → List Launch
  unfolding in_root addr_tick one_process
  spec_go port tick cores =
      one_process (in_root (codes "servers/go/gosrv") ∷ addr_tick port tick)
        ((codes "GOMAXPROCS", str (length cores)) ∷ []) cores

  unfoldable pub spec_go_pool : ℕ → ℕ → List ℕ → List Launch
  unfolding in_root addr_tick one_process
  spec_go_pool port tick cores =
      one_process (in_root (codes "servers/go-pool/gosrv-pool") ∷ addr_tick port tick)
        ((codes "GOMAXPROCS", str (length cores)) ∷ []) cores

  unfoldable pub spec_go_epoll : ℕ → ℕ → List ℕ → List Launch
  unfolding in_root addr_tick workers_of one_process
  spec_go_epoll port tick cores =
      one_process
        (in_root (codes "servers/go-epoll/gosrv-epoll") ∷ (addr_tick port tick ++ workers_of cores))
        ((codes "GOMAXPROCS", str (length cores)) ∷ []) cores

  unfoldable pub spec_rust : ℕ → ℕ → List ℕ → List Launch
  unfolding in_root addr_tick one_process
  spec_rust port tick cores =
      one_process (in_root (codes "servers/rust/target/release/server-rust") ∷ addr_tick port tick)
        ((codes "TOKIO_WORKER_THREADS", str (length cores)) ∷ []) cores

  unfoldable pub spec_ocaml : ℕ → ℕ → List ℕ → List Launch
  unfolding in_root addr_tick one_process
  spec_ocaml port tick cores =
      one_process
        (in_root (codes "servers/ocaml/_build/default/main.exe")
          ∷ (addr_tick port tick ++ codes "-domains" ∷ str (length cores) ∷ []))
        [] cores

  unfoldable pub spec_odin : ℕ → ℕ → List ℕ → List Launch
  unfolding in_root addr_tick workers_of one_process
  spec_odin port tick cores =
      one_process
        (in_root (codes "servers/odin/server-odin") ∷ (addr_tick port tick ++ workers_of cores)) []
        cores

  unfoldable pub spec_zig : ℕ → ℕ → List ℕ → List Launch
  unfolding in_root addr_tick workers_of one_process
  spec_zig port tick cores =
      one_process
        (in_root (codes "servers/zig/server-zig") ∷ (addr_tick port tick ++ workers_of cores)) []
        cores

  unfoldable pub spec_dart : ℕ → ℕ → List ℕ → List Launch
  unfolding in_root addr_tick workers_of one_process
  spec_dart port tick cores =
      one_process
        (in_root (codes "servers/dart/server-dart") ∷ (addr_tick port tick ++ workers_of cores)) []
        cores

  unfoldable pub spec_dart_pool : ℕ → ℕ → List ℕ → List Launch
  unfolding in_root addr_tick workers_of one_process
  spec_dart_pool port tick cores =
      one_process
        (in_root (codes "servers/dart-pool/server-dart-pool")
          ∷ (addr_tick port tick ++ workers_of cores))
        [] cores

  unfoldable pub spec_swift : ℕ → ℕ → List ℕ → List Launch
  unfolding in_root addr_tick workers_of one_process
  spec_swift port tick cores =
      one_process
        (in_root (codes "servers/swift/.build/release/server-swift")
          ∷ (addr_tick port tick ++ workers_of cores))
        [] cores

  unfoldable pub spec_clojure : ℕ → ℕ → List ℕ → List Launch
  unfolding in_root addr_tick workers_of one_process
  spec_clojure port tick cores =
      one_process
        (codes "clojure"
          ∷ (codes "-J-Djdk.virtualThreadScheduler.parallelism=" ++ str (length cores))
          ∷ codes "-M"
          ∷ in_root (codes "servers/clojure/server.clj")
          ∷ (addr_tick port tick ++ workers_of cores))
        ((codes "JAVA_CMD", codes "/usr/lib/jvm/java-26-openjdk/bin/java") ∷ []) cores

  unfoldable pub spec_elixir : ℕ → ℕ → List ℕ → List Launch
  unfolding in_root addr_tick one_process
  spec_elixir port tick cores =
      one_process
        (codes "elixir"
          ∷ codes "--erl"
          ∷ (codes "+S " ++ (str (length cores) ++ b':' ∷ str (length cores)))
          ∷ in_root (codes "servers/elixir/server.exs")
          ∷ addr_tick port tick)
        [] cores

  unfoldable pub spec_python : ℕ → ℕ → List ℕ → List Launch
  unfolding in_root addr_tick process_per_core
  spec_python port tick cores =
      process_per_core (python ∷ in_root (codes "servers/python/server.py") ∷ addr_tick port tick)
        cores

  unfoldable pub spec_lua : ℕ → ℕ → List ℕ → List Launch
  unfolding in_root addr_tick process_per_core
  spec_lua port tick cores =
      process_per_core
        (codes "luajit" ∷ in_root (codes "servers/lua/server.lua") ∷ addr_tick port tick) cores
