-- ===== src/Runner/Processes/Life.antt =====
-- runner/run.py: a server from start_server to stop_server, as the innermost loop of main runs it.
use game_bench.Common.{
  ℕ, suc, ◌<◌, ◌≡◌, ◌⊎◌, refl, sym, ap, subst, ◌∙◌, true, some, List, [], ◌∷◌, ◌==◌, ==_iff, All,
  All-mono, length, arith, Bool-cases, inl, inr,
}
use game_bench.Py.Result.{Result, ok}
use game_bench.Py.Os.{Kernel, Event, happen, popen, IsKernel}
use game_bench.Runner.Specs.{Launch}
use game_bench.Runner.Processes.{
  Host, Moment, before_start, in_use, asleep, taskset_wrap, env_of, launch, add_started, group_of,
  start_server, term_all, kill_one, kill_all, stop_server, when_started, start_and_stop,
}
use game_bench.Runner.Processes.Groups.{
  IsStarted, IsStopped, Keeps, Keeps-trans, Keeps-happen, Keeps-refl,
}
use game_bench.Runner.Processes.Starts.{
  happen-IsKernel, popen-IsKernel, Keeps-popen, popen-IsStarted,
}
use game_bench.Runner.Processes.Stopped.{
  getpgid_leader, IsStarted-on, Keeps-term_all, kill_one_self, kill_one-IsStopped, kill_one-other,
}

module _ (during : Moment → List Event) where
  kill_all-IsStopped :
      (g : ℕ) (ps : List ℕ) (k : Kernel) → IsStopped k g → IsStopped (kill_all during ps k) g
  unfolding kill_all
  kill_all-IsStopped g [] k s = s
  kill_all-IsStopped g (p ∷ ps) k s =
      kill_all-IsStopped g ps (kill_one during p k) (kill_one-IsStopped during g p k s)

  pub kill_one_either :
      (p : ℕ) (k : Kernel) (g : ℕ)
      → IsStarted k g ⊎ IsStopped k g
      → IsStarted (kill_one during p k) g ⊎ IsStopped (kill_one during p k) g
  kill_one_either p k g (inr s) = inr (kill_one-IsStopped during g p k s)
  kill_one_either p k g (inl s) = elim (Bool-cases (p == g)) [
    | inl same ↦ inr (
        subst (λ q. IsStopped (kill_one during q k) g) (sym ((==_iff p g).0 same))
          (kill_one_self during g k s))
    | inr other ↦ inl (kill_one-other during g p k other s)
  ]

  kill_one_own :
      (g : ℕ) (k : Kernel) → IsStarted k g ⊎ IsStopped k g → IsStopped (kill_one during g k) g
  kill_one_own g k (inl s) = kill_one_self during g k s
  kill_one_own g k (inr s) = kill_one-IsStopped during g g k s

  kill_all_each :
      (ps : List ℕ) (k : Kernel)
      → All (λ g. IsStarted k g ⊎ IsStopped k g) ps
      → All (IsStopped (kill_all during ps k)) ps
  unfolding kill_all
  kill_all_each [] k h = tt
  kill_all_each (p ∷ ps) k h = (
    kill_all-IsStopped p ps (kill_one during p k) (kill_one_own p k h.0),
    kill_all_each ps (kill_one during p k) (All-mono (kill_one_either p k) ps h.1),
  )

  pub stop_server-IsStopped :
      (procs : List ℕ) (k : Kernel)
      → All (IsStarted k) procs
      → All (IsStopped (stop_server during procs k)) procs
  unfolding stop_server
  stop_server-IsStopped procs k h =
      let k' = term_all during procs k in
      kill_all_each procs (happen (during asleep) k') (
        All-mono
          (λ g s.
            let s' = IsStarted-on g k k' (Keeps-term_all during g procs k s.below) s in
            inl (IsStarted-on g k' _ (Keeps-happen g (during asleep) k' s'.below) s'))
          procs h)

-- Every launch was made: the two lists are equal, and each of the processes leads a group of its own.
pub record IsLaunched (k : Kernel) (n : ℕ) (out : Result (List ℕ × List ℕ) × Kernel) : Type 0 where
  pub pids : List ℕ
  pub last : Kernel
  pub result : out ≡ (ok (pids, pids), last)
  pub count : length pids ≡ n
  pub started : All (IsStarted last) pids
  pub kernel : IsKernel last
  pub keeps : (g : ℕ) → g < k.next → Keeps g k last

pub launched :
    (host : Host) (l : Launch) (k : Kernel)
    → host.can_run (taskset_wrap host l.argv l.cpu) ≡ true
    → (let argv = taskset_wrap host l.argv l.cpu in
        launch host l k ≡ (ok k.next, popen argv (env_of host l.env) (host.is_stubborn argv) k))
unfolding launch
launched host l k c = rw c

module _ (host : Host) (during : Moment → List Event) where
  -- The commands of a plan, as they are started, can be executed.
  abbrev pub CanRun : List Launch → Type 0
  CanRun = All (λ (l : Launch). host.can_run (taskset_wrap host l.argv l.cpu) ≡ true)

  pub start_server-IsLaunched :
      (ls : List Launch) (k : Kernel)
      → IsKernel k
      → CanRun ls
      → IsLaunched k (length ls) (start_server host during ls k)
  unfolding start_server add_started group_of
  start_server-IsLaunched [] k h c = record {
    pids = [];
    last = k;
    result = refl;
    count = refl;
    started = tt;
    kernel = h;
    keeps = λ g b. Keeps-refl g k;
  }
  start_server-IsLaunched (l ∷ ls) k h c =
      let es = during (before_start (length ls)) in
      let k' = happen es k in
      let argv = taskset_wrap host l.argv l.cpu in
      let env = env_of host l.env in
      let s = host.is_stubborn argv in
      let h' = happen-IsKernel es k h in
      let k'' = popen argv env s k' in
      let own = popen-IsStarted argv env s k' h' in
      let rest = start_server-IsLaunched ls k'' (popen-IsKernel argv env s k' h') c.1 in
      record {
        pids = k'.next ∷ rest.pids;
        last = rest.last;
        result =
            ap (λ now. add_started now (group_of now) (start_server host during ls now.1))
              (launched host l k' c.0)
            ∙ ap (λ o. add_started (ok k'.next, k'') o (start_server host during ls k''))
                (getpgid_leader k'.next k''.table own.there own.leader)
            ∙ ap (add_started (ok k'.next, k'') (some k'.next)) rest.result;
        count = ap suc rest.count;
        started =
            (IsStarted-on k'.next k'' rest.last (rest.keeps k'.next own.below) own, rest.started);
        kernel = rest.kernel;
        keeps = λ g b.
            let first = Keeps-happen g es k b in
            let second =
              Keeps-trans g k k' k'' first
                (Keeps-popen argv env s g k' (omega (arith, first.below_on))) in
            Keeps-trans g k k'' rest.last second (rest.keeps g (omega (arith, second.below_on)));
      }

  -- If every command of the plan can be executed, then, whatever the processes do between the calls,
  -- each of the groups that start_server gives, one for each launch, has no live process when
  -- stop_server returns, and its leader has been waited for.
  pub start_and_stop-IsStopped :
      (plan : List Launch) (k : Kernel)
      → IsKernel k
      → CanRun plan
      → (length (start_and_stop host during plan k).0 ≡ length plan)
        × All
            (IsStopped (start_and_stop host during plan k).1)
            (start_and_stop host during plan k).0
  unfolding start_and_stop when_started
  start_and_stop-IsStopped plan k h c =
      let run = start_server-IsLaunched plan k h c in
      rw (run.result) (
        run.count,
        stop_server-IsStopped during run.pids (happen (during in_use) run.last) (
            All-mono
              (λ g s. IsStarted-on g run.last _ (Keeps-happen g (during in_use) run.last s.below) s)
              run.pids run.started),
      )
