-- ===== src/Runner/Proc/Memory.antt =====
-- runner/run.py: the line VmRSS of /proc/<pid>/status.
use game_bench.Common.{
  ℕ, ◌+◌, ◌≡◌, refl, ap, ◌∙◌, true, false, Option, none, some, List, [], ◌∷◌, ◌++◌, map, All, Lacks,
  ==_ne, sym, append-nil, arith,
}
use game_bench.Py.Int.{pos, ◌+ℤ◌}
use game_bench.Py.Result.{ok, ◌>>=◌}
use game_bench.Py.Text.{Text, codes, split, join, split-join, words, words_gap, IsWord, is_space}
use game_bench.Py.Decimal.{str, int-str, str-NoSpace, str-ne-nil}
use game_bench.Runner.Proc.{
  Proc, starts_with, rss_of_lines, rss_at, rss_from, sample_rss_kb, read_status, int_at,
  newlines_from, file_lines,
}

-- What the kernel writes: other lines, then VmRSS with a tab and more white space before its number, then more.
pub record Status : Type 0 where
  pub before : List Text
  pub gap : Text
  pub kb : ℕ
  pub after : List Text

abbrev pub rss_line : Status → Text
rss_line t = codes "VmRSS:" ++ 9 ∷ (t.gap ++ (str t.kb ++ codes " kB"))

abbrev pub lines : Status → List Text
lines t = t.before ++ rss_line t ∷ t.after

pub record IsStatus (t : Status) : Type 0 where
  pub others : All (λ l. starts_with (codes "VmRSS:") l ≡ false) t.before
  pub spaces : All (λ c. is_space c ≡ true) t.gap
  pub one_line : All (Lacks 10) (lines t)
  pub no_return : All (Lacks 13) (lines t)

label-IsWord : IsWord (codes "VmRSS:")
label-IsWord = (λ e. cc, (refl, (refl, (refl, (refl, (refl, (refl, tt)))))))

rss_words :
    (t : Status) → IsStatus t → words (rss_line t) ≡ codes "VmRSS:" ∷ str t.kb ∷ codes "kB" ∷ []
unfolding words
rss_words t h =
    words_gap (codes "VmRSS:") 9 t.gap (str t.kb ++ codes " kB") label-IsWord (refl, h.spaces)
    ∙ ap (λ (r : List Text). codes "VmRSS:" ∷ r)
        (words_gap (str t.kb) 32 [] (codes "kB") (str-ne-nil t.kb, str-NoSpace t.kb) (refl, tt))

number_read : (n : ℕ) → int_at 1 (codes "VmRSS:" ∷ str n ∷ codes "kB" ∷ []) ≡ ok (pos n)
unfolding int_at
number_read n = rw (int-str n)

rss_first : (t : Status) → IsStatus t → rss_of_lines (rss_line t ∷ t.after) ≡ ok (pos t.kb)
unfolding rss_of_lines starts_with
rss_first t h = ap (int_at 1) (rss_words t h) ∙ number_read t.kb

-- The first line that begins with the label is the one that is read.
rss_of_lines_lem :
    (before : List Text) (t : Status)
    → IsStatus t
    → All (λ l. starts_with (codes "VmRSS:") l ≡ false) before
    → rss_of_lines (before ++ rss_line t ∷ t.after) ≡ ok (pos t.kb)
unfolding rss_of_lines
rss_of_lines_lem [] t h others = rss_first t h
rss_of_lines_lem (l ∷ before) t h others = rw others.0 (rss_of_lines_lem before t h others.1)

split_lines :
    (before : List Text) (l : Text) (after : List Text)
    → All (Lacks 10) (before ++ l ∷ after)
    → split 10 (join 10 (before ++ l ∷ after)) ≡ before ++ l ∷ after
split_lines [] l after h = split-join 10 l after h
split_lines (k ∷ before) l after h = split-join 10 k (before ++ l ∷ after) h

abbrev pub status_text : Status → Text
status_text t = join 10 (lines t)

Lacks-newlines :
    (s t : Text) → Lacks 13 s → newlines_from false (s ++ t) ≡ s ++ newlines_from false t
unfolding newlines_from
Lacks-newlines [] t h = refl
Lacks-newlines (c ∷ s) t h = rw (==_ne c 13 h.0) (ap (λ (u : Text). c ∷ u) (Lacks-newlines s t h.1))

newlines-join : (ls : List Text) → All (Lacks 13) ls → newlines_from false (join 10 ls) ≡ join 10 ls
unfolding newlines_from join
newlines-join [] h = refl
newlines-join (l ∷ []) h =
    ap (newlines_from false) (sym (append-nil l)) ∙ Lacks-newlines l [] h.0 ∙ append-nil l
newlines-join (l ∷ k ∷ ls) h =
    Lacks-newlines l (10 ∷ join 10 (k ∷ ls)) h.0
    ∙ ap (λ (u : Text). l ++ 10 ∷ u) (newlines-join (k ∷ ls) h.1)

rss_at-status : (t : Status) → IsStatus t → rss_at (some (status_text t)) ≡ ok (pos t.kb)
unfolding rss_at file_lines
rss_at-status t h =
    ap (λ u. rss_of_lines (split 10 u)) (newlines-join (lines t) h.no_return)
    ∙ ap rss_of_lines (split_lines t.before (rss_line t) t.after h.one_line)
    ∙ rss_of_lines_lem t.before t h h.others

-- A pid that is asked for, with the status there is of it then.
abbrev pub Held : Type 0
Held = ℕ × Option Status

abbrev pub Shows : Proc → Held → Type 0
Shows proc (pid, none) = read_status pid proc ≡ none
Shows proc (pid, some t) = IsStatus t × (read_status pid proc ≡ some (status_text t))

abbrev pub total_kb : List Held → ℕ
total_kb [] = 0
total_kb ((pid, none) ∷ qs) = total_kb qs
total_kb ((pid, some t) ∷ qs) = t.kb + total_kb qs

pos_sum : (a b : ℕ) → pos a +ℤ pos b ≡ pos (a + b)
unfolding ◌+ℤ◌
pos_sum a b = ground arith

rss_from-total :
    (proc : Proc) (qs : List Held) (n : ℕ)
    → All (Shows proc) qs
    → rss_from (pos n) proc (map (λ q. q.0) qs) ≡ ok (pos (n + total_kb qs))
unfolding rss_from rss_at file_lines
rss_from-total proc [] n h = ap (λ k. ok (pos k)) (let e : n ≡ n + 0 = omega arith in e)
rss_from-total proc ((pid, none) ∷ qs) n h =
    let e : n + 0 + total_kb qs ≡ n + total_kb qs = omega arith in
    ap (λ o. rss_at o >>= λ kb. rss_from (pos n +ℤ kb) proc (map (λ (q : Held). q.0) qs)) h.0
    ∙ ap (λ k. rss_from k proc (map (λ (q : Held). q.0) qs)) (pos_sum n 0)
    ∙ rss_from-total proc qs (n + 0) h.1
    ∙ ap (λ k. ok (pos k)) e
rss_from-total proc ((pid, some t) ∷ qs) n h =
    let e : n + t.kb + total_kb qs ≡ n + (t.kb + total_kb qs) = omega arith in
    ap (λ o. rss_at o >>= λ kb. rss_from (pos n +ℤ kb) proc (map (λ (q : Held). q.0) qs)) h.0.1
    ∙ ap (λ r. r >>= λ kb. rss_from (pos n +ℤ kb) proc (map (λ (q : Held). q.0) qs))
        (rss_at-status t h.0.0)
    ∙ ap (λ k. rss_from k proc (map (λ (q : Held). q.0) qs)) (pos_sum n t.kb)
    ∙ rss_from-total proc qs (n + t.kb) h.1
    ∙ ap (λ k. ok (pos k)) e

-- Let the lines of a status hold no line feed and no carriage return. The memory of a list of pids is
-- the sum of the numbers on the lines VmRSS of those that are there, whatever other white space is before
-- the number; nothing is raised, and one that is gone adds nothing.
pub sample_rss_kb-total :
    (proc : Proc) (qs : List Held)
    → All (Shows proc) qs
    → sample_rss_kb proc (map (λ q. q.0) qs) ≡ ok (pos (total_kb qs))
unfolding sample_rss_kb
sample_rss_kb-total proc qs h =
    rss_from-total proc qs 0 h
    ∙ ap (λ k. ok (pos k)) (let e : 0 + total_kb qs ≡ total_kb qs = omega arith in e)
