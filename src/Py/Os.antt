-- ===== src/Py/Os.antt =====
-- What the code uses of Python's os, signal and subprocess: a table of processes, the calls on it, and
-- what the processes do of themselves between two calls. A pid is not given out twice.
use game_bench.Common.{
  ℕ, suc, ◌<◌, Bool, true, false, not, ◌&&◌, Option, none, some, List, [], ◌∷◌, ◌++◌, map, ◌==◌,
  if◌then◌else◌, All,
}
use game_bench.Py.Text.{Text}

-- A process that is not live is a zombie: it has ended, and nobody has waited for it. One that is
-- `stubborn` goes on after SIGTERM. `argv` and `env` are those it was started with.
pub record Process : Type 0 where
  pub pid : ℕ
  pub pgid : ℕ
  pub live : Bool
  pub stubborn : Bool
  pub argv : List Text
  pub env : List (Text × Text)

pub record Kernel : Type 0 where
  pub table : List Process
  pub next : ℕ

pub data Signal : Type 0 where
  sigterm sigkill : Signal

pub data Event : Type 0 where
  exits : ℕ → Event
  -- A child in the group of its parent, stubborn or not.
  forks : ℕ → Bool → Event
  -- setsid: the process leaves its group for one of its own.
  new_session : ℕ → Event

-- The process does what it does with its entry, where there is one.
unfoldable pub end_of : ℕ → Process → Process
end_of q p = if p.pid == q then record p { live = false } else p

unfoldable pub session_of : ℕ → Process → Process
session_of q p = if (p.pid == q) && p.live then record p { pgid = p.pid } else p

unfoldable pub child_of : ℕ → Bool → Process → Process
child_of q s p = record p { pid = q; live = true; stubborn = s }

unfoldable pub find_process : ℕ → List Process → Option Process
find_process q [] = none
find_process q (p ∷ ps) = let rest = find_process q ps in if p.pid == q then some p else rest

unfoldable pub add_child : Bool → Option Process → Kernel → Kernel
unfolding child_of
add_child s none k = k
add_child s (some p) k =
    if p.live then record { table = k.table ++ child_of k.next s p ∷ []; next = suc k.next } else k

unfoldable pub event : Event → Kernel → Kernel
unfolding end_of session_of find_process add_child
event (exits q) k = record k { table = map (end_of q) k.table }
event (forks q s) k = add_child s (find_process q k.table) k
event (new_session q) k = record k { table = map (session_of q) k.table }

unfoldable pub happen : List Event → Kernel → Kernel
unfolding event
happen [] k = k
happen (e ∷ es) k = happen es (event e k)

-- `subprocess.Popen(argv, env=env, start_new_session=True)`, for a program that can be executed.
unfoldable pub popen : List Text → List (Text × Text) → Bool → Kernel → Kernel
popen argv env s k = record {
  table =
      k.table
      ++ record { pid = k.next; pgid = k.next; live = true; stubborn = s; argv = argv; env = env }
        ∷ [];
  next = suc k.next;
}

-- os.getpgid, also of a zombie; none is ProcessLookupError.
unfoldable pub getpgid : ℕ → List Process → Option ℕ
getpgid q [] = none
getpgid q (p ∷ ps) = let rest = getpgid q ps in if p.pid == q then some p.pgid else rest

unfoldable pub ends : Signal → Process → Bool
ends sigterm p = not p.stubborn
ends sigkill p = true

unfoldable pub hit : ℕ → Signal → Process → Process
unfolding ends
hit g s p = if (p.pgid == g) && ends s p then record p { live = false } else p

-- os.killpg: where the group is empty it raises, and changes nothing.
unfoldable pub killpg : ℕ → Signal → Kernel → Kernel
unfolding hit
killpg g s k = record k { table = map (hit g s) k.table }

-- `p.wait(timeout=…)`: a zombie is taken out of the table; while the process is live the wait times out.
unfoldable pub reap : ℕ → List Process → List Process
reap q [] = []
reap q (p ∷ ps) = let rest = reap q ps in if (p.pid == q) && not p.live then rest else p ∷ rest

unfoldable pub wait : ℕ → Kernel → Kernel
unfolding reap
wait q k = record k { table = reap q k.table }

-- Every pid and every group has been given out.
abbrev pub IsKernel : Kernel → Type 0
IsKernel k = All (λ (p : Process). (p.pid < k.next) × (p.pgid < k.next)) k.table
