-- ===== src/Runner/Proc/Groups.antt =====
-- runner/run.py: what `pids_in_groups` and `sample_cpu_ticks` find in a /proc of processes.
use game_bench.Common.{
  ℕ, ◌+◌, ◌≡◌, ◌≢◌, refl, ap, ◌∙◌, Bool, true, false, Option, none, some, List, [], ◌∷◌, ◌++◌, map,
  if◌then◌else◌, All, arith,
}
use game_bench.Py.Int.{ℤ, pos, ◌+ℤ◌}
use game_bench.Py.Text.{Text}
use game_bench.Py.Decimal.{str, unsigned-str, IsDigits, str-IsDigits, str-ne-nil}
use game_bench.Runner.Proc.{
  Entry, Proc, all_digits, isdigit, pids_at, pids_of, pids_in_groups, member_of, read_stat,
  add_ticks, ticks_at, cpu_from, sample_cpu_ticks, among,
}
use game_bench.Runner.Proc.Fields.{Stat, stat_line, IsStat, stat_line_read}

-- A directory that is no process, a process that is gone when its stat is opened, a process with any
-- status.
pub data Item : Type 0 where
  other : Text → Option Text → Item
  gone : ℕ → Item
  process : Stat → Option Text → Item

abbrev pub entry : Item → Entry
entry (other name stat) = record { name = name; stat = stat; status = none }
entry (gone pid) = record { name = str pid; stat = none; status = none }
entry (process s status) = record { name = str s.pid; stat = some (stat_line s); status = status }

abbrev pub IsItem : Item → Type 0
IsItem (other name stat) = isdigit name ≡ false
IsItem (gone pid) = Unit
IsItem (process s status) = IsStat s

abbrev pub members : List ℤ → List Item → List ℕ
members pgids [] = []
members pgids (process s status ∷ is) =
    let rest = members pgids is in if among (pos s.pgrp) pgids then s.pid ∷ rest else rest
members pgids (other name stat ∷ is) = members pgids is
members pgids (gone pid ∷ is) = members pgids is

all_digits-IsDigits : (s : Text) → IsDigits s → all_digits s ≡ true
unfolding all_digits
all_digits-IsDigits [] h = refl
all_digits-IsDigits (c ∷ s) h = rw (h.0, all_digits-IsDigits s h.1)

isdigit_all : (s : Text) → s ≢ [] → isdigit s ≡ all_digits s
unfolding isdigit
isdigit_all [] h = absurd (h refl)
isdigit_all (c ∷ s) h = refl

isdigit-str : (n : ℕ) → isdigit (str n) ≡ true
isdigit-str n = isdigit_all (str n) (str-ne-nil n) ∙ all_digits-IsDigits (str n) (str-IsDigits n)

pids_of-process :
    (pgids : List ℤ) (s : Stat) (status : Option Text)
    → IsStat s
    → pids_of pgids (entry (process s status))
      ≡ (if among (pos s.pgrp) pgids then s.pid ∷ [] else [])
unfolding pids_of pids_at
pids_of-process pgids s status h =
    rw (isdigit-str s.pid, unsigned-str s.pid, (stat_line_read s h).0, member_of)

pids_of-other :
    (pgids : List ℤ) (name : Text) (stat : Option Text)
    → isdigit name ≡ false
    → pids_of pgids (entry (other name stat)) ≡ []
unfolding pids_of
pids_of-other pgids name stat h = rw h

pids_of-gone : (pgids : List ℤ) (pid : ℕ) → pids_of pgids (entry (gone pid)) ≡ []
unfolding pids_of pids_at
pids_of-gone pgids pid = rw (isdigit-str pid)

cons_if :
    (b : Bool) (pid : ℕ) (rest : List ℕ)
    → (if b then pid ∷ [] else []) ++ rest ≡ (if b then pid ∷ rest else rest)
cons_if true pid rest = refl
cons_if false pid rest = refl

-- In a /proc of entries that are no process, processes that are gone and processes, the pids found
-- are those of the processes whose group is among the given ones, in the order of the directory.
pub pids_in_groups-members :
    (pgids : List ℤ) (is : List Item)
    → All IsItem is
    → pids_in_groups pgids (map entry is) ≡ members pgids is
unfolding pids_in_groups
pids_in_groups-members pgids [] h = refl
pids_in_groups-members pgids (other name stat ∷ is) h =
    ap (λ (t : List ℕ). t ++ pids_in_groups pgids (map entry is))
      (pids_of-other pgids name stat h.0)
    ∙ pids_in_groups-members pgids is h.1
pids_in_groups-members pgids (gone pid ∷ is) h =
    ap (λ (t : List ℕ). t ++ pids_in_groups pgids (map entry is)) (pids_of-gone pgids pid)
    ∙ pids_in_groups-members pgids is h.1
pids_in_groups-members pgids (process s status ∷ is) h =
    ap (λ (t : List ℕ). t ++ pids_in_groups pgids (map entry is))
      (pids_of-process pgids s status h.0)
    ∙ cons_if (among (pos s.pgrp) pgids) s.pid (pids_in_groups pgids (map entry is))
    ∙ ap (λ (t : List ℕ). if among (pos s.pgrp) pgids then s.pid ∷ t else t)
        (pids_in_groups-members pgids is h.1)

-- A pid that is asked for, with the process there is of it then.
abbrev pub Asked : Type 0
Asked = ℕ × Option Stat

abbrev pub Answers : Proc → Asked → Type 0
Answers proc (pid, none) = read_stat pid proc ≡ none
Answers proc (pid, some s) = IsStat s × (read_stat pid proc ≡ some (stat_line s))

abbrev pub total_ticks : List Asked → ℕ
total_ticks [] = 0
total_ticks ((pid, none) ∷ qs) = total_ticks qs
total_ticks ((pid, some s) ∷ qs) = s.utime + s.stime + total_ticks qs

pos_add : (a b : ℕ) → pos a +ℤ pos b ≡ pos (a + b)
unfolding ◌+ℤ◌
pos_add a b = ground arith

ticks_at-process :
    (n : ℕ) (s : Stat)
    → IsStat s
    → ticks_at (pos n) (some (stat_line s)) ≡ pos (n + (s.utime + s.stime))
unfolding ticks_at add_ticks
ticks_at-process n s h =
    ap (add_ticks (pos n)) (stat_line_read s h).1
    ∙ ap (λ t. pos n +ℤ t) (pos_add s.utime s.stime)
    ∙ pos_add n (s.utime + s.stime)

cpu_from-total :
    (proc : Proc) (qs : List Asked) (n : ℕ)
    → All (Answers proc) qs
    → cpu_from (pos n) proc (map (λ q. q.0) qs) ≡ pos (n + total_ticks qs)
unfolding cpu_from ticks_at
cpu_from-total proc [] n h = ap pos (let e : n ≡ n + 0 = omega arith in e)
cpu_from-total proc ((pid, none) ∷ qs) n h =
    ap (λ o. cpu_from (ticks_at (pos n) o) proc (map (λ (q : Asked). q.0) qs)) h.0
    ∙ cpu_from-total proc qs n h.1
cpu_from-total proc ((pid, some s) ∷ qs) n h =
    let e : n + (s.utime + s.stime) + total_ticks qs ≡ n + (s.utime + s.stime + total_ticks qs) =
      omega arith in
    ap (λ o. cpu_from (ticks_at (pos n) o) proc (map (λ (q : Asked). q.0) qs)) h.0.1
    ∙ ap (λ t. cpu_from t proc (map (λ (q : Asked). q.0) qs)) (ticks_at-process n s h.0.0)
    ∙ cpu_from-total proc qs (n + (s.utime + s.stime)) h.1
    ∙ ap pos e

-- The ticks of a list of pids are the user and system times of those that are there, summed; one
-- that is gone adds nothing.
pub sample_cpu_ticks-total :
    (proc : Proc) (qs : List Asked)
    → All (Answers proc) qs
    → sample_cpu_ticks proc (map (λ q. q.0) qs) ≡ pos (total_ticks qs)
unfolding sample_cpu_ticks
sample_cpu_ticks-total proc qs h =
    cpu_from-total proc qs 0 h
    ∙ ap pos (let e : 0 + total_ticks qs ≡ total_ticks qs = omega arith in e)
