-- ===== src/Runner/Tests/Sampling.antt =====
-- Runs of the sampling in runner/run.py at concrete texts of /proc, and the theorems about it at inputs
-- that meet their hypotheses.
use game_bench.Common.{
  All, Bool, Lacks, List, [], ap, arith, map, none, not, refl, some, true, ℕ, ◌&&◌, ◌==◌, ◌∙◌, ◌∷◌,
  ◌≡◌,
}
use game_bench.Py.Int.{pos, ◌+ℤ◌}
use game_bench.Py.Result.{ok}
use game_bench.Py.Text.{
  Text, codes, split, is_space, NoSpace, text_eq, words, strip, lstrip, rstrip,
}
use game_bench.Py.Decimal.{str, int, unsigned}
use game_bench.Runner.Proc.{
  Proc, find_entry, read_stat, isdigit, all_digits, sample_rss_kb, rss_from, rss_at, read_status,
  rss_of_lines, starts_with, int_at, among, eq_int, pids_in_groups,
}
use game_bench.Runner.Proc.Fields.{Stat, IsStat, IsField}
use game_bench.Runner.Proc.Groups.{
  Item, IsItem, other, gone, process, entry, members, pids_in_groups-members, Asked, Answers,
}
use game_bench.Runner.Sampler
use game_bench.Runner.Sampler.{
  View, Sampler, Reads, rss_in, new_sampler, ticks_in, highest, last_ticks, run-highest,
}
use game_bench.Runner.Proc.Memory.{
  Status, IsStatus, rss_line, status_text, Held, Shows, total_kb, sample_rss_kb-total,
}

-- A test for the characters of a field.
abbrev plain : Text → Bool
plain [] = true
plain (c ∷ p) = not (is_space c) && not (c == b')') && plain p

plain-NoSpace : (p : Text) → plain p ≡ true → NoSpace p
plain-NoSpace [] h = tt
plain-NoSpace (c ∷ p) h = (ground arith, plain-NoSpace p (ground arith))

plain-Lacks : (p : Text) → plain p ≡ true → Lacks b')' p
plain-Lacks [] h = tt
plain-Lacks (c ∷ p) h = (ground arith, plain-Lacks p (ground arith))

plain-IsField : (c : ℕ) (p : Text) → plain (c ∷ p) ≡ true → IsField (c ∷ p)
plain-IsField c p h = ((λ e. cc, plain-NoSpace (c ∷ p) h), plain-Lacks (c ∷ p) h)

-- A process whose command's name holds a parenthesis and spaces.
abbrev odd_stat : Stat
odd_stat = record {
  pid = 41;
  comm = codes "a) S 9 9";
  state = codes "R";
  ppid = 1;
  pgrp = 40;
  middle =
      codes "40"
      ∷ codes "0"
      ∷ codes "-1"
      ∷ codes "4"
      ∷ codes "8"
      ∷ codes "0"
      ∷ codes "0"
      ∷ codes "0"
      ∷ [];
  utime = 17;
  stime = 5;
  more = codes "0" ∷ [];
}

zero-IsField : IsField (codes "0")
zero-IsField = plain-IsField b'0' [] refl

odd_stat-IsStat : IsStat odd_stat
odd_stat-IsStat = record {
  state = plain-IsField b'R' [] refl;
  middle = (
    plain-IsField b'4' (codes "0") refl,
    (
      zero-IsField,
      (
        plain-IsField b'-' (codes "1") refl,
        (
          plain-IsField b'4' [] refl,
          (plain-IsField b'8' [] refl, (zero-IsField, (zero-IsField, (zero-IsField, tt)))),
        ),
      ),
    ),
  );
  eight = refl;
  more = (zero-IsField, tt);
}

abbrev items : List Item
items = other (codes "self") none ∷ gone 7 ∷ process odd_stat (some (codes "VmRSS: 12 kB")) ∷ []

items-IsItem : All IsItem items
unfolding isdigit all_digits
items-IsItem = (refl, (tt, (odd_stat-IsStat, tt)))

pids_in_groups-members_example :
    pids_in_groups (pos 40 ∷ []) (map entry items) ≡ members (pos 40 ∷ []) items
pids_in_groups-members_example = pids_in_groups-members (pos 40 ∷ []) items items-IsItem

abbrev questions : List Asked
questions = (41, some odd_stat) ∷ (8, none) ∷ []

questions-Answers : All (Answers (map entry items)) questions
unfolding read_stat find_entry text_eq str
questions-Answers = ((odd_stat-IsStat, refl), (refl, tt))

abbrev view : View
view = record {
  listed = map entry items;
  at_rss = record { name = codes "41"; stat = none; status = some (codes "VmRSS: 12 kB") } ∷ [];
  at_cpu = map entry items;
}

view-Reads : Reads (pos 40 ∷ []) (view, 12)
unfolding rss_in sample_rss_kb rss_from rss_at read_status find_entry text_eq str split rss_of_lines
    starts_with words int_at int unsigned strip lstrip rstrip among eq_int ◌+ℤ◌
view-Reads = ap (sample_rss_kb view.at_rss) pids_in_groups-members_example ∙ refl

run-highest_example :
    Sampler.run view (map (λ (q : View × ℕ). q.0) ((view, 12) ∷ [])) (new_sampler (pos 40 ∷ []))
    ≡ record {
      pgids = pos 40 ∷ [];
      rss_peak_kb = pos (highest ((view, 12) ∷ []) 0);
      rss_first_kb = pos 12;
      cpu_start = some (ticks_in (pos 40 ∷ []) view);
      cpu_end = last_ticks (pos 40 ∷ []) ((view, 12) ∷ []) none;
    }
run-highest_example =
    run-highest (pos 40 ∷ []) view 12 ((view, 12) ∷ []) (view-Reads, (view-Reads, tt))

abbrev small : Status
small = record { before = codes "Name: lua" ∷ []; gap = codes "    "; kb = 812; after = [] }

-- A test for a text without a character.
abbrev free_of : ℕ → Text → Bool
free_of b [] = true
free_of b (c ∷ p) = not (c == b) && free_of b p

free_of-Lacks : (b : ℕ) (p : Text) → free_of b p ≡ true → Lacks b p
free_of-Lacks b [] h = tt
free_of-Lacks b (c ∷ p) h = (ground arith, free_of-Lacks b p (ground arith))

small-IsStatus : IsStatus small
unfolding starts_with str
small-IsStatus = record {
  others = (refl, tt);
  spaces = (refl, (refl, (refl, (refl, tt))));
  one_line =
      (free_of-Lacks 10 (codes "Name: lua") refl, (free_of-Lacks 10 (rss_line small) refl, tt));
  no_return =
      (free_of-Lacks 13 (codes "Name: lua") refl, (free_of-Lacks 13 (rss_line small) refl, tt));
}

abbrev proc_now : Proc
proc_now = record { name = codes "41"; stat = none; status = some (status_text small) } ∷ []

abbrev held : List Held
held = (41, some small) ∷ (8, none) ∷ []

held-Shows : All (Shows proc_now) held
unfolding read_status find_entry text_eq str
held-Shows = ((small-IsStatus, refl), (refl, tt))

sample_rss_kb-total_example :
    sample_rss_kb proc_now (map (λ (q : Held). q.0) held) ≡ ok (pos (total_kb held))
sample_rss_kb-total_example = sample_rss_kb-total proc_now held held-Shows
