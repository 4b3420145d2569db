-- ===== src/Flow/Tests.antt =====
-- One run, from the loops of runner/run.py to the table of runner/plot.py.
use game_bench.Common.{
  ℕ, ◌*◌, ◌/◌, ◌≡◌, refl, Bool, true, false, not, Option, none, some, [], ◌∷◌, map, ltb,
}
use game_bench.Py.Text.{codes, text_eq}
use game_bench.Py.Decimal.{str}
use game_bench.Py.Result.{ok}
use game_bench.Runner.Report.{Run, Load, Numbers}
use game_bench.Runner.Sampler.{new_sampler}
use game_bench.Runner.Matrix.{Config, Machine, main}
use game_bench.Runner.Matrix.Collected.{concat_map, asked}
use game_bench.Runner.Matrix.Rows.{row_in}
use game_bench.Plot.Charts.{Format}
use game_bench.Plot.Load.{member}
use game_bench.Plot.Table.{row_html}
use game_bench.Plot.Page.{contains, is_empty, load_data, load_servers, load_conns}
use game_bench.Flow.{read_row, main-row_html}

-- Numbers that are counted in whole units.
abbrev whole : Numbers ℕ
whole = record {
  round = λ v digits. v;
  over = λ a n. 0;
  spent = λ a b n. 0;
  nil = 0;
  lt = ltb;
  share = λ n. n;
  target = 97;
}

abbrev some_load : Load ℕ
some_load = record {
  moves_sent = 10;
  snaps_recv = 20;
  measured = 9;
  moves_per_s = 1;
  snaps_per_s = 2;
  p50_ms = 3;
  p90_ms = 4;
  p99_ms = 5;
  p999_ms = 6;
  max_ms = 7;
  p99_worst_1s_ms = 6;
  p99_cv = 1;
  client_cpu_cores = none;
  send_rate_pct = some 99;
  timeline = [];
}

abbrev machine : Machine ℕ Bool
machine = record {
  num = whole;
  clk = 100;
  build = λ cmd w. (ok true, w);
  start = λ r plan w. (ok tt, w);
  wait_ready = λ r w. (true, not w);
  measure = λ r w. (ok (some (ok some_load), new_sampler []), w);
}

abbrev config : Config
config = record {
  root = codes "/bench";
  sys_executable = codes "python3";
  port = 9100;
  tick = 30;
  trials = 1;
  warmup = 5;
  dur = 20;
  servers = codes "lua" ∷ [];
  conns_list = 500 ∷ 1000 ∷ [];
  server_cores = 0 ∷ 1 ∷ [];
  client_cores = 2 ∷ 3 ∷ [];
}

abbrev at : ℕ → Run
at c = record { server = codes "lua"; conns = c; trial = 1 }

asked_both : asked config (λ cmd. true) config.servers ≡ at 500 ∷ at 1000 ∷ []
unfolding text_eq
asked_both = refl

abbrev floor : Format
floor = record { fixed = λ d a b. str (a / b); grouped = λ d a b. str (a / b) }

abbrev thousand : ℕ → Option ℕ
thousand v = some (1000 * v)

main-row_html_example :
    (is_empty (
        row_html floor
          (load_data (map (read_row thousand) (concat_map row_in (main machine config true).0)))
          (codes "lua")
          1000)
      ≡ false)
    × (member
          (codes "lua")
          (load_servers (map (read_row thousand) (concat_map row_in (main machine config true).0)))
        ≡ true)
    × (contains 1000
          (load_conns (map (read_row thousand) (concat_map row_in (main machine config true).0)))
        ≡ true)
main-row_html_example =
    main-row_html machine config thousand (λ r. true) (λ r. (some some_load, new_sampler []))
      (λ r plan w. refl) (λ r w. refl) (λ r w. refl) (λ cmd. true) (λ cmd w. refl) true floor
      (at 500 ∷ []) [] (at 1000) some_load (new_sampler []) 1000 asked_both refl refl refl
