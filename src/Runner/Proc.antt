-- ===== src/Runner/Proc.antt =====
-- runner/run.py: the sampling of /proc. A file system /proc is the list of
-- its entries with the text of their files; an open that fails is `none`.
pub mod Fields
pub mod Groups
pub mod Memory
use game_bench.Common.{
  ℕ, zero, suc, ◌+◌, ◌==◌, Bool, true, false, ◌&&◌, ◌||◌, Option, none, some, List, [], ◌∷◌, ◌++◌,
  ltb, if◌then◌else◌, drop, get_elem?,
}
use game_bench.Py.Int.{ℤ, pos, negsuc, ◌+ℤ◌}
use game_bench.Py.Result.{Result, ok, raise, index_error, value_error, ◌>>=◌, or_raise}
use game_bench.Py.Text.{Text, codes, text_eq, split, words, rfind}
use game_bench.Py.Decimal.{int, str, unsigned, is_digit}

-- One directory of /proc: its name and its files `stat` and `status`.
pub record Entry : Type 0 where
  pub name : Text
  pub stat : Option Text
  pub status : Option Text

abbrev pub Proc : Type 0
Proc = List Entry

unfoldable pub all_digits : Text → Bool
all_digits [] = true
all_digits (c ∷ s) = is_digit c && all_digits s

-- entry.isdigit(), of ASCII names
unfoldable pub isdigit : Text → Bool
unfolding all_digits
isdigit [] = false
isdigit (c ∷ s) = all_digits (c ∷ s)

-- `rparen + 2`, where rfind gives -1 for a text with no parenthesis
unfoldable pub after_comm : Option ℕ → ℕ
after_comm none = 1
after_comm (some i) = i + 2

-- data[data.rfind(")") + 2:].split()
unfoldable pub fields_of : Text → List Text
unfolding after_comm
fields_of text = words (drop (after_comm (rfind b')' text)) text)

-- int(fields[i])
unfoldable pub int_at : ℕ → List Text → Result ℤ
int_at i fields = or_raise (get_elem? fields i) index_error >>= λ t. or_raise (int t) value_error

-- The pgrp of a stat text.
unfoldable pub pgrp_of : Text → Result ℤ
pgrp_of text = int_at 2 (fields_of text)

-- utime + stime of a stat text
unfoldable pub ticks_of : Text → Result ℤ
ticks_of text = int_at 11 (fields_of text) >>= λ utime.
    int_at 12 (fields_of text) >>= λ stime. ok (utime +ℤ stime)

unfoldable pub eq_int : ℤ → ℤ → Bool
eq_int (pos a) (pos b) = a == b
eq_int (negsuc a) (negsuc b) = a == b
eq_int _ _ = false

-- `pgrp in pgids`
unfoldable pub among : ℤ → List ℤ → Bool
among p [] = false
among p (q ∷ qs) = eq_int q p || among p qs

-- The body of the loop of pids_in_groups: an exception that it names skips the entry. Of a name of
-- digits, int is the number they write.
unfoldable pub member_of : List ℤ → Option ℕ → Result ℤ → List ℕ
member_of pgids (some pid) (ok pgrp) = if among pgrp pgids then pid ∷ [] else []
member_of pgids _ _ = []

unfoldable pub pids_at : List ℤ → Text → Option Text → List ℕ
unfolding member_of
pids_at pgids name none = []
pids_at pgids name (some text) = member_of pgids (unsigned name) (pgrp_of text)

unfoldable pub pids_of : List ℤ → Entry → List ℕ
unfolding pids_at
pids_of pgids e = if isdigit e.name then pids_at pgids e.name e.stat else []

unfoldable pub pids_in_groups : List ℤ → Proc → List ℕ
pids_in_groups pgids [] = []
pids_in_groups pgids (e ∷ es) = pids_of pgids e ++ pids_in_groups pgids es

-- The entry that /proc/{pid} names.
unfoldable pub find_entry : Text → Proc → Option Entry
find_entry name [] = none
find_entry name (e ∷ es) =
    let rest = find_entry name es in if text_eq e.name name then some e else rest

stat_of : Option Entry → Option Text
stat_of none = none
stat_of (some e) = e.stat

unfoldable pub read_stat : ℕ → Proc → Option Text
unfolding stat_of
read_stat pid proc = stat_of (find_entry (str pid) proc)

status_of : Option Entry → Option Text
status_of none = none
status_of (some e) = e.status

unfoldable pub read_status : ℕ → Proc → Option Text
unfolding status_of
read_status pid proc = status_of (find_entry (str pid) proc)

-- `total += …` unless reading raises
unfoldable pub add_ticks : ℤ → Result ℤ → ℤ
add_ticks total (ok t) = total +ℤ t
add_ticks total (raise e) = total

unfoldable pub ticks_at : ℤ → Option Text → ℤ
unfolding add_ticks
ticks_at total none = total
ticks_at total (some text) = add_ticks total (ticks_of text)

unfoldable pub cpu_from : ℤ → Proc → List ℕ → ℤ
cpu_from total proc [] = total
cpu_from total proc (pid ∷ pids) = cpu_from (ticks_at total (read_stat pid proc)) proc pids

unfoldable pub sample_cpu_ticks : Proc → List ℕ → ℤ
sample_cpu_ticks proc pids = cpu_from (pos 0) proc pids

-- line.startswith(prefix)
unfoldable pub starts_with : Text → Text → Bool
starts_with [] line = true
starts_with (c ∷ prefix) [] = false
starts_with (c ∷ prefix) (d ∷ line) = (d == c) && starts_with prefix line

-- The first line of a status text that begins with VmRSS:, read; 0 where there is none.
unfoldable pub rss_of_lines : List Text → Result ℤ
unfolding starts_with
rss_of_lines [] = ok (pos 0)
rss_of_lines (line ∷ lines) =
    let rest = rss_of_lines lines in
    if starts_with (codes "VmRSS:") line then int_at 1 (words line) else rest

-- Reading a text file makes a line feed of a carriage return, alone or before a line feed.
unfoldable pub newlines_from : Bool → Text → Text
newlines_from cr [] = []
newlines_from cr (c ∷ s) =
    let joined = newlines_from false s in
    let next = newlines_from true s in
    if cr && (c == 10) then joined else if c == 13 then 10 ∷ next else c ∷ joined

-- `for line in f`, without the line feeds.
unfoldable pub file_lines : Text → List Text
unfolding newlines_from
file_lines text = split 10 (newlines_from false text)

unfoldable pub rss_at : Option Text → Result ℤ
unfolding file_lines
rss_at none = ok (pos 0)
rss_at (some text) = rss_of_lines (file_lines text)

-- IndexError and ValueError are not caught here.
unfoldable pub rss_from : ℤ → Proc → List ℕ → Result ℤ
rss_from total proc [] = ok total
rss_from total proc (pid ∷ pids) =
    rss_at (read_status pid proc) >>= λ kb. rss_from (total +ℤ kb) proc pids

unfoldable pub sample_rss_kb : Proc → List ℕ → Result ℤ
sample_rss_kb proc pids = rss_from (pos 0) proc pids
