-- ===== src/Runner/Processes/Calm.antt =====
-- runner/run.py: a server that is started and stopped on a machine where nothing else happens.
use game_bench.Common.{
  ℕ, ◌<◌, ◌≤◌, ◌≡◌, refl, sym, ap, subst, ◌∙◌, Bool, true, false, not, ◌&&◌, ◌||◌, some, List, [],
  ◌∷◌, ◌++◌, append_assoc, append-nil, ◌==◌, ==_iff, ==_refl, ltb, if◌then◌else◌, All, All-mono,
  arith, Bool-cases, inl, inr,
}
use game_bench.Py.Text.{Text}
use game_bench.Py.Result.{Result, ok, raise}
use game_bench.Py.Os.{Process, Kernel, happen, popen, IsKernel}
use game_bench.Runner.Specs.{Launch}
use game_bench.Runner.Processes.{
  Host, taskset_wrap, env_of, add_started, group_of, term_all, kill_all, stop_server, start_server,
  when_started, start_and_stop,
}
use game_bench.Runner.Processes.Groups.{is_there, IsStarted}
use game_bench.Runner.Processes.Starts.{popen-IsKernel, popen-IsStarted}
use game_bench.Runner.Processes.Stopped.{getpgid_leader, IsStarted-on, Keeps-term_all}
use game_bench.Runner.Processes.Life.{
  CanRun, launched, start_server-IsLaunched, stop_server-IsStopped,
}
use game_bench.Runner.Processes.Restored.{
  calm, olds, tame, among_pids, known, IsSame, term_all-IsSame, kill_all-IsSame,
}

-- A process that is added with a pid from n on.
module _ (n : ℕ) (new : Process) (young : ltb new.pid n ≡ false) where
  olds-append : (ps : List Process) → olds n (ps ++ new ∷ []) ≡ olds n ps
  olds-append [] = rw young
  olds-append (p ∷ ps) = ap (λ r. if ltb p.pid n then p ∷ r else r) (olds-append ps)

  tame-append : (ps : List Process) → tame n (ps ++ new ∷ []) ≡ tame n ps
  tame-append [] = rw young
  tame-append (p ∷ ps) = ap (λ b. (not (ltb p.pid n) || ltb p.pgid n) && b) (tame-append ps)

among-append : (q g : ℕ) (gs : List ℕ) → among_pids q (gs ++ g ∷ []) ≡ (among_pids q gs || (g == q))
among-append q g [] = ground arith
among-append q g (h ∷ gs) = rw (among-append q g gs) (ground arith)

known-append :
    (n : ℕ) (gs : List ℕ) (new : Process) (ps : List Process)
    → known n gs ps ≡ true
    → known n (gs ++ new.pid ∷ []) (ps ++ new ∷ []) ≡ true
known-append n gs new [] h = rw (among-append new.pid new.pid gs) (ground arith)
known-append n gs new (p ∷ ps) h =
    rw (among-append p.pid new.pid gs) (ground (arith, known-append n gs new ps))

popen-IsSame :
    (n : ℕ) (gs : List ℕ) (old : List Process) (argv : List Text) (env : List (Text × Text))
    (s : Bool) (k : Kernel)
    → n ≤ k.next
    → IsSame n gs old k
    → IsSame n (gs ++ k.next ∷ []) old (popen argv env s k)
unfolding popen
popen-IsSame n gs old argv env s k h i =
    let young : ltb k.next n ≡ false = ground arith in
    record {
      same = olds-append n _ young k.table ∙ i.same;
      quiet = tame-append n _ young k.table ∙ i.quiet;
      mine = known-append n gs _ k.table i.mine;
    }

-- What start_server leaves, where it raises nothing.
module _ (n : ℕ) (old : List Process) where
  abbrev IsStart : List ℕ → Result (List ℕ × List ℕ) × Kernel → Type 0
  IsStart gs (raise e, k) = Unit
  IsStart gs (ok (ps, pgids), k) = All (λ p. n ≤ p) ps × IsSame n (gs ++ ps) old k

  add_started-IsStart :
      (gs : List ℕ) (p : ℕ) (k : Kernel) (rest : Result (List ℕ × List ℕ) × Kernel)
      → n ≤ p
      → IsStart (gs ++ p ∷ []) rest
      → IsStart gs (add_started (ok p, k) (some p) rest)
  unfolding add_started
  add_started-IsStart gs p k (raise e, k') h i = tt
  add_started-IsStart gs p k (ok (ps, pgids), k') h i =
      ((h, i.0), subst (λ qs. IsSame n qs old k') (append_assoc gs (p ∷ []) ps) i.1)

  start_server-IsStart :
      (host : Host) (ls : List Launch) (k : Kernel) (gs : List ℕ)
      → IsKernel k
      → CanRun host calm ls
      → n ≤ k.next
      → IsSame n gs old k
      → IsStart gs (start_server host calm ls k)
  unfolding start_server happen group_of
  start_server-IsStart host [] k gs h c b i =
      (tt, subst (λ qs. IsSame n qs old k) (sym (append-nil gs)) i)
  start_server-IsStart host (l ∷ ls) k gs h c b i =
      let argv = taskset_wrap host l.argv l.cpu in
      let env = env_of host l.env in
      let s = host.is_stubborn argv in
      let k' = popen argv env s k in
      let own = popen-IsStarted argv env s k h in
      rw (launched host l k c.0) (
        rw (getpgid_leader k.next k'.table own.there own.leader) (
          add_started-IsStart gs k.next k' (start_server host calm ls k') b (
            start_server-IsStart host ls k' (gs ++ k.next ∷ []) (popen-IsKernel argv env s k h) c.1
              (omega (arith, own.below)) (popen-IsSame n gs old argv env s k b i))))

among_gone :
    (q : ℕ) (gs : List ℕ) (ps : List Process)
    → among_pids q gs ≡ true
    → All (λ g. is_there g ps ≡ false) gs
    → is_there q ps ≡ false
among_gone q [] ps h gone = ground arith
among_gone q (g ∷ gs) ps h gone = elim (Bool-cases (g == q)) [
  | inl same ↦ subst (λ x. is_there x ps ≡ false) ((==_iff g q).0 same) gone.0
  | inr other ↦ among_gone q gs ps (ground arith) gone.1
]

-- Where none of the others is left, only the old ones are.
only_olds :
    (n : ℕ) (gs : List ℕ) (ps : List Process)
    → known n gs ps ≡ true
    → All (λ g. is_there g ps ≡ false) gs
    → olds n ps ≡ ps
only_olds n gs [] h gone = refl
only_olds n gs (p ∷ ps) h gone = elim (Bool-cases (ltb p.pid n)) [
  | inl old ↦ rw old (
      ap (λ r. p ∷ r) (only_olds n gs ps (ground arith) (All-mono (λ g off. ground arith) gs gone)))
  | inr young ↦
      let off = among_gone p.pid gs (p ∷ ps) (ground arith) gone in
      rw (young) (ground (arith, off, ==_refl p.pid))
]

IsKernel-IsSame : (k : Kernel) → IsKernel k → IsSame k.next [] k.table k
IsKernel-IsSame k h = record {
  same = same k.table h;
  quiet = tamed k.table h;
  mine = mine k.table h;
}
  where
    same :
        (ps : List Process)
        → All (λ (p : Process). (p.pid < k.next) × (p.pgid < k.next)) ps
        → olds k.next ps ≡ ps
    same [] h = refl
    same (p ∷ ps) h =
        let old : ltb p.pid k.next ≡ true = ground (arith, h.0.0) in
        rw old (ap (λ r. p ∷ r) (same ps h.1))

    tamed :
        (ps : List Process)
        → All (λ (p : Process). (p.pid < k.next) × (p.pgid < k.next)) ps
        → tame k.next ps ≡ true
    tamed [] h = refl
    tamed (p ∷ ps) h = ground (arith, h.0.0, h.0.1, tamed ps h.1)

    mine :
        (ps : List Process)
        → All (λ (p : Process). (p.pid < k.next) × (p.pgid < k.next)) ps
        → known k.next [] ps ≡ true
    mine [] h = refl
    mine (p ∷ ps) h = ground (arith, h.0.0, mine ps h.1)

-- The table when the loops of stop_server are over, from what start_server leaves.
stop_server-table :
    (n : ℕ) (old : List Process) (procs : List ℕ) (k : Kernel)
    → All (IsStarted k) procs
    → IsStart n old [] (ok (procs, procs), k)
    → (stop_server calm procs k).table ≡ old
unfolding stop_server happen
stop_server-table n old procs k started start =
    let k' = term_all calm procs k in
    let kept = term_all-IsSame n procs old procs k start.0 started start.1 in
    let still =
      All-mono (λ g s. inl (IsStarted-on g k k' (Keeps-term_all calm g procs k s.below) s)) procs
        started in
    let i = kill_all-IsSame n procs old procs k' start.0 still kept in
    let stopped = stop_server-IsStopped calm procs k started in
    sym (
      only_olds n procs (kill_all calm procs k').table i.mine
        (All-mono (λ g s. s.gone) procs stopped))
    ∙ i.same

-- If every command of the plan can be executed and nothing else happens on the machine, then it has, when
-- stop_server returns, exactly the processes that it had before start_server, as they were.
pub start_and_stop-table :
    (host : Host) (plan : List Launch) (k : Kernel)
    → IsKernel k
    → CanRun host calm plan
    → (start_and_stop host calm plan k).1.table ≡ k.table
unfolding start_and_stop when_started happen
start_and_stop-table host plan k h c =
    let run = start_server-IsLaunched host calm plan k h c in
    let same = IsKernel-IsSame k h in
    let start = start_server-IsStart k.next k.table host plan k [] h c (omega arith) same in
    rw (run.result) (
      stop_server-table k.next k.table run.pids run.last run.started
        (subst (IsStart k.next k.table []) run.result start))
