-- ===== src/Runner/Setup/Defaults.antt =====
-- runner/run.py: the options of `main` with its default cores.
use game_bench.Common.{
  ℕ, ◌≡◌, ◌≢◌, refl, ap, ◌∙◌, true, false, List, [], ◌∷◌, ◌++◌, map, All, All-mono, Lacks,
}
use game_bench.Py.Text.{Text, join, NoSpace, strip_id, split-join}
use game_bench.Py.Decimal.{str}
use game_bench.Py.Result.{ok, ◌>>=◌}
use game_bench.Runner.Cores.{
  parse_cores, default_server_cores, default_client_cores, overlap, range,
}
use game_bench.Runner.Cores.Parsing.{default_cores_split, int_core-str, digits-Lacks-comma}
use game_bench.Runner.Processes.{Host}
use game_bench.Runner.Loadgen.{Asked, Tools, loadgen_build, machine_of}
use game_bench.Runner.Matrix.{Config, main}
use game_bench.Runner.Setup.{
  Options, named, strip_all, server_names, int_all, loads_of, config_of, setup, asked_of, benchmark,
  Notice, notices, from_config, when_loadgen_built,
}

-- A name that the option --servers can hold.
pub record IsName (s : Text) : Type 0 where
  pub some_code : s ≢ []
  pub no_comma : Lacks b',' s
  pub no_space : NoSpace s

named_some : (s : Text) (ss : List Text) → s ≢ [] → named s ss ≡ s ∷ ss
unfolding named
named_some [] ss h = absurd (h refl)
named_some (c ∷ s) ss h = refl

strip_all_id : (ss : List Text) → All IsName ss → strip_all ss ≡ ss
unfolding strip_all
strip_all_id [] h = refl
strip_all_id (s ∷ ss) h =
    ap (λ (t : Text). named t (strip_all ss)) (strip_id s h.0.no_space)
    ∙ named_some s (strip_all ss) h.0.some_code
    ∙ ap (λ (t : List Text). s ∷ t) (strip_all_id ss h.1)

server_names-join :
    (s : Text) (ss : List Text) → All IsName (s ∷ ss) → server_names (join b',' (s ∷ ss)) ≡ s ∷ ss
unfolding server_names
server_names-join s ss h =
    ap strip_all (split-join b',' s ss (All-mono (λ t n. n.no_comma) (s ∷ ss) h))
    ∙ strip_all_id (s ∷ ss) h

int_all-str : (cs : List ℕ) → int_all (map str cs) ≡ ok cs
unfolding int_all
int_all-str [] = refl
int_all-str (c ∷ cs) = rw (int_core-str c, int_all-str cs)

loads_of-join : (c : ℕ) (cs : List ℕ) → loads_of (join b',' (map str (c ∷ cs))) ≡ ok (c ∷ cs)
unfolding loads_of
loads_of-join c cs =
    ap int_all (split-join b',' (str c) (map str cs) (lack (c ∷ cs))) ∙ int_all-str (c ∷ cs)
  where
    lack : (ns : List ℕ) → All (Lacks b',') (map str ns)
    lack [] = tt
    lack (n ∷ ns) = (digits-Lacks-comma n, lack ns)

-- The options of a benchmark of servers and loads on the default cores.
abbrev pub on_defaults : Options → List Text → List ℕ → Options
on_defaults o names loads = record o {
  servers = join b',' names;
  conns = join b',' (map str loads);
  server_cores = [];
  client_cores = [];
}

pub setup-on_defaults :
    (root python : Text) (port ncpu : ℕ) (o : Options) (n : Text) (ns : List Text) (c : ℕ)
    (cs : List ℕ)
    → All IsName (n ∷ ns)
    → (cfg : Config) × (setup root python port ncpu (on_defaults o (n ∷ ns) (c ∷ cs)) ≡ ok cfg)
      × (cfg.servers ≡ n ∷ ns)
      × (cfg.conns_list ≡ c ∷ cs)
      × (cfg.server_cores ++ cfg.client_cores ≡ range 0 ncpu)
      × (overlap cfg.server_cores cfg.client_cores ≡ false)
unfolding setup config_of parse_cores
setup-on_defaults root python port ncpu o n ns c cs h =
    let cores = default_cores_split ncpu in
    (
      config_of root python port ncpu (on_defaults o (n ∷ ns) (c ∷ cs)) (default_server_cores ncpu)
          (default_client_cores ncpu) (c ∷ cs),
      ap
          (λ r. r >>= λ l. ok (
            config_of root python port ncpu (on_defaults o (n ∷ ns) (c ∷ cs))
              (default_server_cores ncpu) (default_client_cores ncpu) l))
          (loads_of-join c cs),
      server_names-join n ns h,
      refl,
      cores.0,
      cores.1,
    )

notices-defaults :
    (ncpu : ℕ)
    → notices
        (parse_cores [] (default_server_cores ncpu))
        (parse_cores [] (default_client_cores ncpu))
      ≡ []
unfolding notices parse_cores
notices-defaults ncpu = rw ((default_cores_split ncpu).1)

module _ {ℓ κ} {V : Type ℓ} {W : Type κ} (t : Tools V W) (host : Host) where
  from_config_built :
      (a : Asked) (cfg : Config) (w w' : W)
      → t.build (loadgen_build a.loadgen) w ≡ (ok true, w')
      → from_config t host a (ok cfg) w ≡ main (machine_of t host a cfg) cfg w'
  unfolding from_config when_loadgen_built
  from_config_built a cfg w w' built = rw (built)

  -- Let the names have no space and no comma, be written with commas as the loads are, one at least of
  -- each, and let no option for the cores be given. If the load generator can be built, the benchmark
  -- warns of nothing and runs the loops for these names and loads, with a configuration in which the
  -- server and the load generator have all cores of the machine, each once, and share none.
  pub benchmark-on_defaults :
      (root python : Text) (port ncpu : ℕ) (o : Options) (n : Text) (ns : List Text) (c : ℕ)
      (cs : List ℕ) (w w' : W)
      → All IsName (n ∷ ns)
      → t.build (loadgen_build o.loadgen) w ≡ (ok true, w')
      → (cfg : Config) × (cfg.servers ≡ n ∷ ns)
        × (cfg.conns_list ≡ c ∷ cs)
        × (cfg.server_cores ++ cfg.client_cores ≡ range 0 ncpu)
        × (overlap cfg.server_cores cfg.client_cores ≡ false)
        × (benchmark t host root python port ncpu (on_defaults o (n ∷ ns) (c ∷ cs)) w
            ≡ ([], main (machine_of t host (asked_of o) cfg) cfg w'))
  unfolding benchmark
  benchmark-on_defaults root python port ncpu o n ns c cs w w' h built =
      let s = setup-on_defaults root python port ncpu o n ns c cs h in
      (
        s.0,
        s.2,
        s.3,
        s.4,
        s.5,
        ap
              (λ (l : List Notice). (
                l,
                from_config t host (asked_of o)
                    (setup root python port ncpu (on_defaults o (n ∷ ns) (c ∷ cs))) w,
              ))
              (notices-defaults ncpu)
            ∙ ap (λ r. ([], from_config t host (asked_of o) r w)) s.1
            ∙ ap (λ x. ([], x)) (from_config_built (asked_of o) s.0 w w' built),
      )
