-- ===== src/Runner/Servers.antt =====
-- runner/run.py: the table SERVERS and `name not in SERVERS`, by the names that the table has.
pub mod Budget
use game_bench.Common.{ℕ, Option, none, some, List, [], ◌∷◌, if◌then◌else◌}
use game_bench.Py.Text.{Text, codes, text_eq}
use game_bench.Runner.Specs.{
  Launch, spec_go, spec_go_pool, spec_go_epoll, spec_rust, spec_ocaml, spec_odin, spec_zig,
  spec_dart, spec_dart_pool, spec_swift, spec_clojure, spec_elixir, spec_python, spec_lua,
}

pub data Server : Type 0 where
  go go_pool go_epoll rust ocaml odin zig dart dart_pool swift clojure elixir python lua : Server

abbrev pub name_of : Server → Text
name_of go = codes "go"
name_of go_pool = codes "go-pool"
name_of go_epoll = codes "go-epoll"
name_of rust = codes "rust"
name_of ocaml = codes "ocaml"
name_of odin = codes "odin"
name_of zig = codes "zig"
name_of dart = codes "dart"
name_of dart_pool = codes "dart-pool"
name_of swift = codes "swift"
name_of clojure = codes "clojure"
name_of elixir = codes "elixir"
name_of python = codes "python"
name_of lua = codes "lua"

-- The keys of the table, in its order.
abbrev pub servers : List Server
servers =
    go ∷ go_pool ∷ go_epoll ∷ rust ∷ ocaml ∷ odin ∷ zig ∷ dart ∷ dart_pool ∷ swift ∷ clojure
    ∷ elixir ∷ python ∷ lua ∷ []

unfoldable pub search_names : Text → List Server → Option Server
search_names name [] = none
search_names name (s ∷ ss) =
    let rest = search_names name ss in if text_eq (name_of s) name then some s else rest

-- SERVERS[name], or `none` where the name is not in the table
unfoldable pub lookup : Text → Option Server
unfolding search_names
lookup name = search_names name servers

-- The command and the directory below ROOT, or None for a server that runs from its source.
abbrev pub build_of : Server → Option (List Text × Text)
build_of go =
    some (
      (codes "go" ∷ codes "build" ∷ codes "-o" ∷ codes "gosrv" ∷ codes "." ∷ []),
      codes "servers/go",
    )
build_of go_pool = some (
  (codes "go" ∷ codes "build" ∷ codes "-o" ∷ codes "gosrv-pool" ∷ codes "." ∷ []),
  codes "servers/go-pool",
)
build_of go_epoll = some (
  (codes "go" ∷ codes "build" ∷ codes "-o" ∷ codes "gosrv-epoll" ∷ codes "." ∷ []),
  codes "servers/go-epoll",
)
build_of rust =
    some ((codes "cargo" ∷ codes "build" ∷ codes "--release" ∷ []), codes "servers/rust")
build_of ocaml = some (
  (codes "opam"
      ∷ codes "exec"
      ∷ codes "--"
      ∷ codes "dune"
      ∷ codes "build"
      ∷ codes "--profile"
      ∷ codes "release"
      ∷ []),
  codes "servers/ocaml",
)
build_of odin = some (
  (codes "odin" ∷ codes "build" ∷ codes "." ∷ codes "-out:server-odin" ∷ codes "-o:speed" ∷ []),
  codes "servers/odin",
)
build_of zig = some (
  (codes "zig"
      ∷ codes "build-exe"
      ∷ codes "server.zig"
      ∷ codes "-O"
      ∷ codes "ReleaseFast"
      ∷ codes "-femit-bin=server-zig"
      ∷ []),
  codes "servers/zig",
)
build_of dart = some (
  (codes "dart"
      ∷ codes "compile"
      ∷ codes "exe"
      ∷ codes "server.dart"
      ∷ codes "-o"
      ∷ codes "server-dart"
      ∷ []),
  codes "servers/dart",
)
build_of dart_pool = some (
  (codes "dart"
      ∷ codes "compile"
      ∷ codes "exe"
      ∷ codes "server.dart"
      ∷ codes "-o"
      ∷ codes "server-dart-pool"
      ∷ []),
  codes "servers/dart-pool",
)
build_of swift =
    some
      ((codes "swift" ∷ codes "build" ∷ codes "-c" ∷ codes "release" ∷ []), codes "servers/swift")
build_of clojure = none
build_of elixir = none
build_of python = none
build_of lua = none

module _ (root sys_executable : Text) where
  -- SERVERS[name]["spec"]
  abbrev pub spec_of : Server → ℕ → ℕ → List ℕ → List Launch
  spec_of go = spec_go root sys_executable
  spec_of go_pool = spec_go_pool root sys_executable
  spec_of go_epoll = spec_go_epoll root sys_executable
  spec_of rust = spec_rust root sys_executable
  spec_of ocaml = spec_ocaml root sys_executable
  spec_of odin = spec_odin root sys_executable
  spec_of zig = spec_zig root sys_executable
  spec_of dart = spec_dart root sys_executable
  spec_of dart_pool = spec_dart_pool root sys_executable
  spec_of swift = spec_swift root sys_executable
  spec_of clojure = spec_clojure root sys_executable
  spec_of elixir = spec_elixir root sys_executable
  spec_of python = spec_python root sys_executable
  spec_of lua = spec_lua root sys_executable
