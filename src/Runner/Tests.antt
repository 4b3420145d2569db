-- ===== src/Runner/Tests.antt =====
-- Runs of runner/run.py at concrete inputs, and the theorems about it at inputs that meet their
-- hypotheses.
mod Sampling
mod Main
use game_bench.Common.{
  ltb, All, Bool, Lacks, List, [], ap, arith, drop, false, leb, map, none, not, refl, some, suc,
  true, ℕ, ◌&&◌, ◌++◌, ◌+◌, ◌==◌, ◌∙◌, ◌∷◌, ◌≡◌,
}
use game_bench.Py.Int.{pos, ◌+ℤ◌}
use game_bench.Py.Result.{ok, raise, value_error}
use game_bench.Py.Text.{
  Text, codes, split, join, is_space, NoSpace, text_eq, words, strip, lstrip, rstrip,
}
use game_bench.Py.Decimal.{str, int, unsigned}
use game_bench.Runner.Cores.{
  parse_cores, parse_part, has_char, range, default_server_cores, default_client_cores, overlap,
}
use game_bench.Runner.Cores.Parsing.{
  one, span, render, expand_all, parse_cores-join, default_cores_split,
}
use game_bench.Runner.Specs.{Launch, spec_python}
use game_bench.Runner.Servers.{python, spec_of}
use game_bench.Runner.Servers.Budget.{pinned, pinned-spec_of, spec_python-parse_args}
use game_bench.Runner.Proc.{
  Proc, find_entry, read_stat, isdigit, all_digits, sample_rss_kb, rss_from, rss_at, read_status,
  rss_of_lines, starts_with, int_at, among, eq_int, pgrp_of, ticks_of, pids_in_groups,
  sample_cpu_ticks,
}
use game_bench.Runner.Proc.Fields.{Stat, IsStat, IsField, stat_line, stat_line_read}
use game_bench.Runner.Proc.Groups.{
  Item, IsItem, other, gone, process, entry, members, pids_in_groups-members, Asked, Answers,
  total_ticks, sample_cpu_ticks-total,
}
use game_bench.Runner.Sampler
use game_bench.Runner.Sampler.{
  View, Sampler, Reads, rss_in, new_sampler, ticks_in, highest, last_ticks, run-highest,
}
use game_bench.Runner.Proc.Memory.{
  Status, IsStatus, rss_line, status_text, Held, Shows, total_kb, sample_rss_kb-total,
}
use game_bench.Runner.Ready.{Attempt, wait_ready, Outcome, wait_ready-Outcome}
use game_bench.Runner.Report.{fields, tl_fields, Run, Load, Window, Numbers, row, tl_row}
use game_bench.Plot.Charts.{Chart, Line, charts, tl_series}
use game_bench.Runner.Report.Columns.{keys, all_named, row-fields}
use game_bench.Server.Args.{parse_args}

parse_two_dashes : parse_cores (codes "0-1-2") [] ≡ raise value_error
unfolding parse_cores split parse_part has_char
parse_two_dashes = refl

abbrev root_dir : Text
root_dir = codes "/bench"

pinned-spec_of_example :
    pinned (spec_of root_dir (codes "python3") python 9100 30 (0 ∷ 1 ∷ [])) ≡ ok (0 ∷ 1 ∷ [])
pinned-spec_of_example = pinned-spec_of root_dir (codes "python3") 9100 30 0 (1 ∷ []) python

-- Numbers that are counted in whole units.
abbrev whole : Numbers ℕ
whole = record {
  round = λ v digits. v;
  over = λ a n. 0;
  spent = λ a b n. 0;
  nil = 0;
  lt = ltb;
  share = λ n. n;
  target = 97;
}

abbrev first_run : Run
first_run = record { server = codes "go"; conns = 500; trial = 1 }

abbrev some_load : Load ℕ
some_load = record {
  moves_sent = 10;
  snaps_recv = 20;
  measured = 9;
  moves_per_s = 1;
  snaps_per_s = 2;
  p50_ms = 3;
  p90_ms = 4;
  p99_ms = 5;
  p999_ms = 6;
  max_ms = 7;
  p99_worst_1s_ms = 6;
  p99_cv = 1;
  client_cpu_cores = none;
  send_rate_pct = some 99;
  timeline = [];
}

abbrev window : Window ℕ
window = record { t_s = 1; p50 = 1; p90 = 2; p99 = 3; p999 = 4; mx = 5 }

row-fields_example :
    (keys (row whole 100 25 first_run some_load (new_sampler [])) ≡ fields)
    × (keys (tl_row whole first_run window) ≡ tl_fields)
    × (all_named (map (λ (c : Chart). c.field) charts) fields ≡ true)
    × (all_named (map (λ (l : Line). l.field) tl_series) tl_fields ≡ true)
row-fields_example = row-fields whole 100 25 first_run some_load (new_sampler []) window

-- A server that accepts from the third attempt on.
abbrev slow : ℕ → Attempt
slow i = record { connects = leb 2 i; took = 30 }

wait_ready-Outcome_example :
    (b : Bool) × (wait_ready (suc 150) slow 15000 7 ≡ some b) × Outcome slow (7 + 15000) 0 7 b
wait_ready-Outcome_example = wait_ready-Outcome 150 slow 15000 7 (omega arith)
