-- ===== src/Runner/Processes/Restored.antt =====
-- runner/run.py: what a call of stop_server changes on a machine where nothing else happens.
use game_bench.Common.{
  ℕ, ◌≤◌, ◌≡◌, ◌⊎◌, refl, ap, ◌∙◌, Bool, true, false, not, ◌&&◌, ◌||◌, none, some, List, [], ◌∷◌,
  map, ◌==◌, ltb, if◌then◌else◌, All, All-mono, arith, Bool-cases, inl, inr,
}
use game_bench.Py.Os.{
  Process, Kernel, Signal, sigterm, sigkill, Event, happen, getpgid, hit, ends, killpg, reap, wait,
}
use game_bench.Runner.Processes.{Moment, try_killpg, term_one, term_all, kill_one, kill_all}
use game_bench.Runner.Processes.Groups.{is_there, IsStarted, IsStopped}
use game_bench.Runner.Processes.Stopped.{getpgid_leader, IsStarted-on, Keeps-term_one}
use game_bench.Runner.Processes.Life.{kill_one_either}

-- Nothing happens between the calls.
abbrev pub calm : Moment → List Event
calm m = []

-- The processes that were there before the pid n was given out.
abbrev pub olds : ℕ → List Process → List Process
olds n [] = []
olds n (p ∷ ps) = let rest = olds n ps in if ltb p.pid n then p ∷ rest else rest

-- An old process is in an old group.
abbrev pub tame : ℕ → List Process → Bool
tame n [] = true
tame n (p ∷ ps) = (not (ltb p.pid n) || ltb p.pgid n) && tame n ps

abbrev pub among_pids : ℕ → List ℕ → Bool
among_pids q [] = false
among_pids q (g ∷ gs) = (g == q) || among_pids q gs

-- Every other process is one of those that were started.
abbrev pub known : ℕ → List ℕ → List Process → Bool
known n gs [] = true
known n gs (p ∷ ps) = (ltb p.pid n || among_pids p.pid gs) && known n gs ps

olds-hit :
    (n g : ℕ) (s : Signal) (ps : List Process)
    → n ≤ g
    → tame n ps ≡ true
    → olds n (map (hit g s) ps) ≡ olds n ps
unfolding hit
olds-hit n g s [] h t = refl
olds-hit n g s (p ∷ ps) h t = elim (Bool-cases ((p.pgid == g) && ends s p)) [
  | inl struck ↦
      let young : ltb p.pid n ≡ false = ground arith in
      rw (struck, young) (olds-hit n g s ps h (ground arith))
  | inr spared ↦
      rw spared (ap (λ r. if ltb p.pid n then p ∷ r else r) (olds-hit n g s ps h (ground arith)))
]

tame-hit : (n g : ℕ) (s : Signal) (ps : List Process) → tame n (map (hit g s) ps) ≡ tame n ps
unfolding hit
tame-hit n g s [] = refl
tame-hit n g s (p ∷ ps) = elim (Bool-cases ((p.pgid == g) && ends s p)) [
  | inl struck ↦ rw struck (ap (λ b. (not (ltb p.pid n) || ltb p.pgid n) && b) (tame-hit n g s ps))
  | inr spared ↦ rw spared (ap (λ b. (not (ltb p.pid n) || ltb p.pgid n) && b) (tame-hit n g s ps))
]

known-hit :
    (n g : ℕ) (gs : List ℕ) (s : Signal) (ps : List Process)
    → known n gs (map (hit g s) ps) ≡ known n gs ps
unfolding hit
known-hit n g gs s [] = refl
known-hit n g gs s (p ∷ ps) = elim (Bool-cases ((p.pgid == g) && ends s p)) [
  | inl struck ↦
      rw struck (ap (λ b. (ltb p.pid n || among_pids p.pid gs) && b) (known-hit n g gs s ps))
  | inr spared ↦
      rw spared (ap (λ b. (ltb p.pid n || among_pids p.pid gs) && b) (known-hit n g gs s ps))
]

olds-reap : (n g : ℕ) (ps : List Process) → n ≤ g → olds n (reap g ps) ≡ olds n ps
unfolding reap
olds-reap n g [] h = refl
olds-reap n g (p ∷ ps) h = elim (Bool-cases ((p.pid == g) && not p.live)) [
  | inl out ↦ let young : ltb p.pid n ≡ false = ground arith in rw (out, young) (olds-reap n g ps h)
  | inr kept ↦ rw kept (ap (λ r. if ltb p.pid n then p ∷ r else r) (olds-reap n g ps h))
]

tame-reap : (n g : ℕ) (ps : List Process) → tame n ps ≡ true → tame n (reap g ps) ≡ true
unfolding reap
tame-reap n g [] t = refl
tame-reap n g (p ∷ ps) t = elim (Bool-cases ((p.pid == g) && not p.live)) [
  | inl out ↦ rw out (tame-reap n g ps (ground arith))
  | inr kept ↦ rw kept (ground (arith, tame-reap n g ps))
]

known-reap :
    (n g : ℕ) (gs : List ℕ) (ps : List Process)
    → known n gs ps ≡ true
    → known n gs (reap g ps) ≡ true
unfolding reap
known-reap n g gs [] t = refl
known-reap n g gs (p ∷ ps) t = elim (Bool-cases ((p.pid == g) && not p.live)) [
  | inl out ↦ rw out (known-reap n g gs ps (ground arith))
  | inr kept ↦ rw kept (ground (arith, known-reap n g gs ps))
]

getpgid_absent : (g : ℕ) (ps : List Process) → is_there g ps ≡ false → getpgid g ps ≡ none
unfolding getpgid
getpgid_absent g [] h = refl
getpgid_absent g (p ∷ ps) h =
    let off : (p.pid == g) ≡ false = ground arith in rw off (getpgid_absent g ps (ground arith))

-- What a calm call keeps.
pub record IsSame (n : ℕ) (gs : List ℕ) (old : List Process) (k : Kernel) : Type 0 where
  pub same : olds n k.table ≡ old
  pub quiet : tame n k.table ≡ true
  pub mine : known n gs k.table ≡ true

module _ (n : ℕ) (gs : List ℕ) (old : List Process) where
  pub try_killpg-IsSame :
      (g : ℕ) (s : Signal) (k : Kernel)
      → n ≤ g
      → IsSame n gs old k
      → IsSame n gs old (try_killpg (some g) s k)
  unfolding try_killpg killpg
  try_killpg-IsSame g s k h i = record {
    same = olds-hit n g s k.table h i.quiet ∙ i.same;
    quiet = tame-hit n g s k.table ∙ i.quiet;
    mine = known-hit n g gs s k.table ∙ i.mine;
  }

  pub wait-IsSame : (g : ℕ) (k : Kernel) → n ≤ g → IsSame n gs old k → IsSame n gs old (wait g k)
  unfolding wait
  wait-IsSame g k h i = record {
    same = olds-reap n g k.table h ∙ i.same;
    quiet = tame-reap n g k.table i.quiet;
    mine = known-reap n g gs k.table i.mine;
  }

  term_one-IsSame :
      (p : ℕ) (k : Kernel)
      → n ≤ p
      → IsStarted k p
      → IsSame n gs old k
      → IsSame n gs old (term_one calm p k)
  unfolding term_one happen
  term_one-IsSame p k h s i =
      rw (getpgid_leader p k.table s.there s.leader) (try_killpg-IsSame p sigterm k h i)

  pub term_all-IsSame :
      (ps : List ℕ) (k : Kernel)
      → All (λ p. n ≤ p) ps
      → All (IsStarted k) ps
      → IsSame n gs old k
      → IsSame n gs old (term_all calm ps k)
  unfolding term_all
  term_all-IsSame [] k h s i = i
  term_all-IsSame (p ∷ ps) k h s i =
      term_all-IsSame ps (term_one calm p k) h.1
        (All-mono
          (λ g t. IsStarted-on g k (term_one calm p k) (Keeps-term_one calm g p k t.below) t) ps
          s.1)
        (term_one-IsSame p k h.0 s.0 i)

  kill_one-IsSame :
      (p : ℕ) (k : Kernel)
      → n ≤ p
      → IsStarted k p ⊎ IsStopped k p
      → IsSame n gs old k
      → IsSame n gs old (kill_one calm p k)
  unfolding kill_one happen try_killpg
  kill_one-IsSame p k h (inl s) i =
      rw (getpgid_leader p k.table s.there s.leader)
        (wait-IsSame p (try_killpg (some p) sigkill k) h (try_killpg-IsSame p sigkill k h i))
  kill_one-IsSame p k h (inr s) i = rw (getpgid_absent p k.table s.gone) (wait-IsSame p k h i)

  pub kill_all-IsSame :
      (ps : List ℕ) (k : Kernel)
      → All (λ p. n ≤ p) ps
      → All (λ g. IsStarted k g ⊎ IsStopped k g) ps
      → IsSame n gs old k
      → IsSame n gs old (kill_all calm ps k)
  unfolding kill_all
  kill_all-IsSame [] k h s i = i
  kill_all-IsSame (p ∷ ps) k h s i =
      kill_all-IsSame ps (kill_one calm p k) h.1 (All-mono (kill_one_either calm p k) ps s.1)
        (kill_one-IsSame p k h.0 s.0 i)
