-- ===== src/Runner/Processes/Starts.antt =====
-- runner/run.py: the processes that start_server starts.
use game_bench.Common.{
  ℕ, suc, ◌<◌, ◌≡◌, ◌∙◌, Bool, true, false, ◌&&◌, Option, none, some, List, [], ◌∷◌, ◌++◌, map,
  ◌==◌, All, arith, Bool-cases, inl, inr,
}
use game_bench.Py.Text.{Text}
use game_bench.Py.Os.{
  Process, Kernel, Event, exits, forks, new_session, event, end_of, session_of, child_of,
  find_process, add_child, happen, popen, IsKernel,
}
use game_bench.Runner.Processes.Groups.{
  is_there, leads, IsStarted, Keeps, is_there-append, leads-append, group_lives-append,
}

-- Both numbers of a process have been given out.
abbrev Given : ℕ → Process → Type 0
Given n p = (p.pid < n) × (p.pgid < n)

All-map :
    (n : ℕ) (f : Process → Process)
    → ((p : Process) → Given n p → Given n (f p))
    → (ps : List Process) → All (Given n) ps
    → All (Given n) (map f ps)
All-map n f keeps [] h = tt
All-map n f keeps (p ∷ ps) h = (keeps p h.0, All-map n f keeps ps h.1)

All-Given :
    (n : ℕ) (ps : List Process) (p : Process)
    → All (Given n) ps
    → Given (suc n) p
    → All (Given (suc n)) (ps ++ p ∷ [])
All-Given n [] p h new = (new, tt)
All-Given n (q ∷ ps) p h new =
    ((omega (arith, h.0.0), omega (arith, h.0.1)), All-Given n ps p h.1 new)

end_of-Given : (n q : ℕ) (p : Process) → Given n p → Given n (end_of q p)
unfolding end_of
end_of-Given n q p h = elim (Bool-cases (p.pid == q)) [
  | inl same ↦ rw same h
  | inr other ↦ rw other h
]

session_of-Given : (n q : ℕ) (p : Process) → Given n p → Given n (session_of q p)
unfolding session_of
session_of-Given n q p h = elim (Bool-cases ((p.pid == q) && p.live)) [
  | inl leaves ↦ rw leaves (h.0, h.0)
  | inr stays ↦ rw stays h
]

abbrev GivenIn : ℕ → Option Process → Type 0
GivenIn n none = Unit
GivenIn n (some p) = Given n p

find_process-Given :
    (n q : ℕ) (ps : List Process) → All (Given n) ps → GivenIn n (find_process q ps)
unfolding find_process
find_process-Given n q [] h = tt
find_process-Given n q (p ∷ ps) h = elim (Bool-cases (p.pid == q)) [
  | inl same ↦ rw same h.0
  | inr other ↦ rw other (find_process-Given n q ps h.1)
]

add_child-IsKernel :
    (s : Bool) (o : Option Process) (k : Kernel)
    → GivenIn k.next o
    → IsKernel k
    → IsKernel (add_child s o k)
unfolding add_child child_of
add_child-IsKernel s none k g h = h
add_child-IsKernel s (some p) k g h = elim (Bool-cases p.live) [
  | inl live ↦
      rw live (All-Given k.next k.table (child_of k.next s p) h (omega arith, omega (arith, g.1)))
  | inr dead ↦ rw dead h
]

event-IsKernel : (e : Event) (k : Kernel) → IsKernel k → IsKernel (event e k)
unfolding event
event-IsKernel (exits q) k h = All-map k.next (end_of q) (end_of-Given k.next q) k.table h
event-IsKernel (forks q s) k h =
    add_child-IsKernel s (find_process q k.table) k (find_process-Given k.next q k.table h) h
event-IsKernel (new_session q) k h =
    All-map k.next (session_of q) (session_of-Given k.next q) k.table h

pub happen-IsKernel : (es : List Event) (k : Kernel) → IsKernel k → IsKernel (happen es k)
unfolding happen
happen-IsKernel [] k h = h
happen-IsKernel (e ∷ es) k h = happen-IsKernel es (event e k) (event-IsKernel e k h)

module _ (argv : List Text) (env : List (Text × Text)) (s : Bool) where
  pub popen-IsKernel : (k : Kernel) → IsKernel k → IsKernel (popen argv env s k)
  unfolding popen
  popen-IsKernel k h = All-Given k.next k.table _ h (omega arith, omega arith)

  pub Keeps-popen : (g : ℕ) (k : Kernel) → g < k.next → Keeps g k (popen argv env s k)
  unfolding popen
  Keeps-popen g k h =
      let other : (k.next == g) ≡ false = ground arith in
      record {
        there_same = is_there-append g _ other k.table;
        leads_on = λ l. leads-append g _ other k.table ∙ l;
        quiet_on = λ l q. group_lives-append g _ other k.table (ground (arith, other)) ∙ q;
        below_on = omega arith;
      }

  -- The new process leads a group of its own.
  pub popen-IsStarted : (k : Kernel) → IsKernel k → IsStarted (popen argv env s k) k.next
  unfolding popen
  popen-IsStarted k h = record {
    there = there k.table;
    leader = leader k.table h;
    below = omega arith;
  }
    where
      there :
          (ps : List Process)
          → is_there k.next (
              ps
              ++ record {
                pid = k.next;
                pgid = k.next;
                live = true;
                stubborn = s;
                argv = argv;
                env = env;
              }
                ∷ [])
            ≡ true
      there [] = ground arith
      there (p ∷ ps) = ground (arith, there ps)

      leader :
          (ps : List Process)
          → All (Given k.next) ps
          → leads k.next (
              ps
              ++ record {
                pid = k.next;
                pgid = k.next;
                live = true;
                stubborn = s;
                argv = argv;
                env = env;
              }
                ∷ [])
            ≡ true
      leader [] h = ground arith
      leader (p ∷ ps) h =
          let old : (p.pid == k.next) ≡ false = ground (arith, h.0.0) in rw old (leader ps h.1)
