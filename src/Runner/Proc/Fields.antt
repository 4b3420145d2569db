-- ===== src/Runner/Proc/Fields.antt =====
-- runner/run.py: the fields of /proc/<pid>/stat, whatever the name of the command is.
use game_bench.Common.{
  ℕ, suc, ◌+◌, ◌≡◌, ◌≢◌, refl, ap, ◌∙◌, Option, some, List, [], ◌∷◌, ◌++◌, drop, drop-append_add,
  length, get_elem?, All, All-mono, Lacks, arith, true,
}
use game_bench.Py.Int.{pos, ◌+ℤ◌}
use game_bench.Py.Result.{ok}
use game_bench.Py.Text.{Text, join, words, words-join_feed, IsWord, rfind-append}
use game_bench.Py.Decimal.{str, int-str, is_digit, str-IsDigits, str-NoSpace, str-ne-nil}
use game_bench.Runner.Proc.{int_at, fields_of, after_comm, pgrp_of, ticks_of}

-- What the kernel writes of a process, a line that ends with a line feed: `middle` is the eight fields session … cmajflt.
pub record Stat : Type 0 where
  pub pid : ℕ
  pub comm : Text
  pub state : Text
  pub ppid : ℕ
  pub pgrp : ℕ
  pub middle : List Text
  pub utime : ℕ
  pub stime : ℕ
  pub more : List Text

abbrev pub fields : Stat → List Text
fields s = s.state ∷ str s.ppid ∷ str s.pgrp ∷ (s.middle ++ str s.utime ∷ str s.stime ∷ s.more)

abbrev pub stat_line : Stat → Text
stat_line s = (str s.pid ++ 32 ∷ b'(' ∷ s.comm) ++ b')' ∷ 32 ∷ (join 32 (fields s) ++ 10 ∷ [])

-- A field: some characters, with no white space and no parenthesis among them.
abbrev pub IsField : Text → Type 0
IsField p = IsWord p × Lacks b')' p

pub record IsStat (s : Stat) : Type 0 where
  pub state : IsField s.state
  pub middle : All IsField s.middle
  pub eight : length s.middle ≡ 8
  pub more : All IsField s.more

not_paren : (c : ℕ) → is_digit c ≡ true → c ≢ b')'
not_paren c h = ground arith

str-IsField : (n : ℕ) → IsField (str n)
str-IsField n = ((str-ne-nil n, str-NoSpace n), All-mono not_paren (str n) (str-IsDigits n))

IsFields-append : (ps qs : List Text) → All IsField ps → All IsField qs → All IsField (ps ++ qs)
IsFields-append [] qs h k = k
IsFields-append (p ∷ ps) qs h k = (h.0, IsFields-append ps qs h.1 k)

fields-IsField : (s : Stat) → IsStat s → All IsField (fields s)
fields-IsField s h = (
  h.state,
  (
    str-IsField s.ppid,
    (
      str-IsField s.pgrp,
      IsFields-append s.middle _ h.middle (str-IsField s.utime, (str-IsField s.stime, h.more)),
    ),
  ),
)

Lacks-both : (s t : Text) → Lacks b')' s → Lacks b')' t → Lacks b')' (s ++ t)
Lacks-both [] t h k = k
Lacks-both (c ∷ s) t h k = (h.0, Lacks-both s t h.1 k)

join-Lacks : (ps : List Text) → All IsField ps → Lacks b')' (join 32 ps)
unfolding join
join-Lacks [] h = tt
join-Lacks (p ∷ []) h = h.0.1
join-Lacks (p ∷ q ∷ ps) h =
    let space : 32 ≢ b')' = ground arith in
    Lacks-both p (32 ∷ join 32 (q ∷ ps)) h.0.1 (space, join-Lacks (q ∷ ps) h.1)

-- The text behind the last parenthesis and the space is the fields.
fields_of_comm :
    (before : Text) (ps : List Text)
    → All IsField ps
    → fields_of (before ++ b')' ∷ 32 ∷ (join 32 ps ++ 10 ∷ [])) ≡ ps
unfolding fields_of after_comm
fields_of_comm before ps h =
    let space : 32 ≢ b')' = ground arith in
    let feed : 10 ≢ b')' = ground arith in
    let text = join 32 ps ++ 10 ∷ [] in
    let tail : Lacks b')' (32 ∷ text) =
      (space, Lacks-both (join 32 ps) (10 ∷ []) (join-Lacks ps h) (feed, tt)) in
    ap (λ (o : Option ℕ). words (drop (after_comm o) (before ++ b')' ∷ 32 ∷ text)))
      (rfind-append b')' before (32 ∷ text) tail)
    ∙ ap words (drop-append_add before (b')' ∷ 32 ∷ text) 2)
    ∙ words-join_feed ps (All-mono (λ p q. q.0) ps h)

get_past : (ps qs : List Text) (i : ℕ) → get_elem? (ps ++ qs) (length ps + i) ≡ get_elem? qs i
get_past [] qs i = ap (get_elem? qs) (let e : 0 + i ≡ i = omega arith in e)
get_past (p ∷ ps) qs i =
    ap (get_elem? (p ∷ ps ++ qs))
      (let e : suc (length ps) + i ≡ suc (length ps + i) = omega arith in e)
    ∙ get_past ps qs i

int_at-found :
    (i : ℕ) (ps : List Text) (n : ℕ) → get_elem? ps i ≡ some (str n) → int_at i ps ≡ ok (pos n)
unfolding int_at
int_at-found i ps n h = rw (h, int-str n)

at_utime : (s : Stat) → IsStat s → get_elem? (fields s) 11 ≡ some (str s.utime)
at_utime s h =
    ap (get_elem? (s.middle ++ str s.utime ∷ str s.stime ∷ s.more))
      (let e : 8 ≡ length s.middle + 0 = omega (arith, h.eight) in e)
    ∙ get_past s.middle _ 0

at_stime : (s : Stat) → IsStat s → get_elem? (fields s) 12 ≡ some (str s.stime)
at_stime s h =
    ap (get_elem? (s.middle ++ str s.utime ∷ str s.stime ∷ s.more))
      (let e : 9 ≡ length s.middle + 1 = omega (arith, h.eight) in e)
    ∙ get_past s.middle _ 1

-- Of the stat text of a process, its group and its user and system time are read, whatever the
-- name of its command holds, parentheses and spaces included.
pub stat_line_read :
    (s : Stat)
    → IsStat s
    → (pgrp_of (stat_line s) ≡ ok (pos s.pgrp))
      × (ticks_of (stat_line s) ≡ ok (pos s.utime +ℤ pos s.stime))
unfolding pgrp_of ticks_of
stat_line_read s h =
    let all : fields_of (stat_line s) ≡ fields s =
      fields_of_comm (str s.pid ++ 32 ∷ b'(' ∷ s.comm) (fields s) (fields-IsField s h) in
    (
      rw all (int_at-found 2 (fields s) s.pgrp refl),
      rw (
        all,
        int_at-found 11 (fields s) s.utime (at_utime s h),
        int_at-found 12 (fields s) s.stime (at_stime s h),
      ),
    )
