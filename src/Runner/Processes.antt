-- ===== src/Runner/Processes.antt =====
-- runner/run.py: taskset_wrap, start_server and stop_server, over a table of processes. `during` has
-- what the processes do of themselves before each call.
pub mod Groups
pub mod Stopped
pub mod Starts
pub mod Life
pub mod Restored
pub mod Calm
use game_bench.Common.{
  ℕ, Bool, true, false, Option, none, some, List, [], ◌∷◌, ◌++◌, if◌then◌else◌, length,
}
use game_bench.Py.Text.{Text, codes, text_eq}
use game_bench.Py.Assoc.{modify}
use game_bench.Py.Result.{Result, ok, raise, os_error}
use game_bench.Py.Os.{
  Process, Kernel, Signal, sigterm, sigkill, Event, happen, popen, getpgid, killpg, wait,
}
use game_bench.Runner.Specs.{Launch}

-- What the machine gives: HAVE_TASKSET, os.environ, which commands can be executed and which started
-- programs go on after SIGTERM.
pub record Host : Type 0 where
  pub have_taskset : Bool
  pub environ : List (Text × Text)
  pub can_run : List Text → Bool
  pub is_stubborn : List Text → Bool

-- The calls before which something may happen; `before_start` has the number of launches to come.
pub data Moment : Type 0 where
  before_start : ℕ → Moment
  before_term before_kill before_wait : ℕ → Moment
  in_use asleep : Moment

unfoldable pub set_all : List (Text × Text) → List (Text × Text) → List (Text × Text)
set_all [] env = env
set_all ((key, v) ∷ over) env = set_all over (modify text_eq [] key (λ u. v) env)

module _ (host : Host) where
  unfoldable pub taskset_wrap : List Text → Text → List Text
  taskset_wrap argv cpu =
      if host.have_taskset then codes "taskset" ∷ codes "-c" ∷ cpu ∷ argv else argv

  unfoldable pub env_of : List (Text × Text) → List (Text × Text)
  unfolding set_all
  env_of env_over =
      set_all (env_over ++ (codes "ULIMIT_HINT", codes "raise nofile via the parent shell") ∷ [])
        host.environ

  -- Popen, which raises where the command cannot be executed.
  unfoldable pub launch : Launch → Kernel → Result ℕ × Kernel
  unfolding taskset_wrap env_of
  launch l k =
      let argv = taskset_wrap l.argv l.cpu in
      if host.can_run argv
      then (ok k.next, popen argv (env_of l.env) (host.is_stubborn argv) k)
      else (raise os_error, k)

-- The two appends of a round, before those of the rounds to come.
unfoldable pub add_started :
    Result ℕ × Kernel
    → Option ℕ
    → Result (List ℕ × List ℕ) × Kernel
    → Result (List ℕ × List ℕ) × Kernel
add_started (raise e, k) g rest = (raise e, k)
add_started (ok p, k) none rest = (raise os_error, k)
add_started (ok p, k) (some g) (raise e, k') = (raise e, k')
add_started (ok p, k) (some g) (ok (ps, gs), k') = (ok (p ∷ ps, g ∷ gs), k')

unfoldable pub group_of : Result ℕ × Kernel → Option ℕ
group_of (raise e, k) = none
group_of (ok p, k) = getpgid p k.table

-- `os.killpg(os.getpgid(p.pid), sig)`, with its exceptions dropped
unfoldable pub try_killpg : Option ℕ → Signal → Kernel → Kernel
try_killpg none sig k = k
try_killpg (some g) sig k = killpg g sig k

module _ (host : Host) (during : Moment → List Event) where
  unfoldable pub start_server : List Launch → Kernel → Result (List ℕ × List ℕ) × Kernel
  unfolding launch add_started group_of
  start_server [] k = (ok ([], []), k)
  start_server (l ∷ ls) k =
      let now = launch host l (happen (during (before_start (length ls))) k) in
      add_started now (group_of now) (start_server ls now.1)

module _ (during : Moment → List Event) where
  -- One round of the first loop of stop_server.
  unfoldable pub term_one : ℕ → Kernel → Kernel
  unfolding try_killpg
  term_one p k =
      let k' = happen (during (before_term p)) k in try_killpg (getpgid p k'.table) sigterm k'

  unfoldable pub term_all : List ℕ → Kernel → Kernel
  unfolding term_one
  term_all [] k = k
  term_all (p ∷ ps) k = term_all ps (term_one p k)

  -- One round of the second loop.
  unfoldable pub kill_one : ℕ → Kernel → Kernel
  unfolding try_killpg
  kill_one p k =
      let k' = happen (during (before_kill p)) k in
      wait p (happen (during (before_wait p)) (try_killpg (getpgid p k'.table) sigkill k'))

  unfoldable pub kill_all : List ℕ → Kernel → Kernel
  unfolding kill_one
  kill_all [] k = k
  kill_all (p ∷ ps) k = kill_all ps (kill_one p k)

  unfoldable pub stop_server : List ℕ → Kernel → Kernel
  unfolding term_all kill_all
  stop_server procs k = kill_all procs (happen (during asleep) (term_all procs k))

-- The groups of a run and the processes when it is over: an exception of start_server ends `main`.
unfoldable pub when_started :
    (Moment → List Event) → Result (List ℕ × List ℕ) × Kernel → List ℕ × Kernel
unfolding stop_server
when_started during (raise e, k) = ([], k)
when_started during (ok (procs, pgids), k) =
    (pgids, stop_server during procs (happen (during in_use) k))

unfoldable pub start_and_stop :
    Host → (Moment → List Event) → List Launch → Kernel → List ℕ × Kernel
unfolding start_server when_started
start_and_stop host during plan k = when_started during (start_server host during plan k)
