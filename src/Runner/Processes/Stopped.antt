-- ===== src/Runner/Processes/Stopped.antt =====
-- runner/run.py: what is left of the groups of a server when stop_server returns.
use game_bench.Common.{
  ℕ, ◌<◌, ◌≡◌, refl, ap, ◌∙◌, true, false, not, ◌&&◌, ◌||◌, some, List, [], ◌∷◌, map, ◌==◌, arith,
  Bool-cases, inl, inr,
}
use game_bench.Py.Os.{
  Process, Kernel, sigterm, sigkill, Event, happen, getpgid, ends, hit, killpg, reap, wait,
}
use game_bench.Runner.Processes.{
  Moment, before_term, before_kill, before_wait, try_killpg, term_one, term_all, kill_one,
}
use game_bench.Runner.Processes.Groups.{
  is_there, leads, group_lives, IsStarted, IsStopped, Keeps, Keeps-refl, Keeps-trans, Keeps-happen,
  Keeps-try_killpg,
}

pub getpgid_leader :
    (g : ℕ) (ps : List Process) → is_there g ps ≡ true → leads g ps ≡ true → getpgid g ps ≡ some g
unfolding getpgid
getpgid_leader g [] h k = ground arith
getpgid_leader g (p ∷ ps) h k = elim (Bool-cases (p.pid == g)) [
  | inl same ↦ let e : p.pgid ≡ g = ground arith in rw same (ap (λ (n : ℕ). some n) e)
  | inr other ↦ rw other (getpgid_leader g ps (ground arith) (ground arith))
]

-- SIGKILL ends every process of the group.
killed_quiet : (g : ℕ) (ps : List Process) → group_lives g (map (hit g sigkill) ps) ≡ false
unfolding hit ends
killed_quiet g [] = refl
killed_quiet g (p ∷ ps) = elim (Bool-cases (p.pgid == g)) [
  | inl same ↦ rw same (rw (killed_quiet g ps) (ground arith))
  | inr other ↦ rw other (rw (killed_quiet g ps) (ground arith))
]

leads-reap : (g q : ℕ) (ps : List Process) → leads g ps ≡ true → leads g (reap q ps) ≡ true
unfolding reap
leads-reap g q [] h = refl
leads-reap g q (p ∷ ps) h = elim (Bool-cases ((p.pid == q) && not p.live)) [
  | inl out ↦ rw out (leads-reap g q ps (ground arith))
  | inr kept ↦ rw kept (ground (arith, leads-reap g q ps))
]

quiet-reap :
    (g q : ℕ) (ps : List Process) → group_lives g ps ≡ false → group_lives g (reap q ps) ≡ false
unfolding reap
quiet-reap g q [] h = refl
quiet-reap g q (p ∷ ps) h = elim (Bool-cases ((p.pid == q) && not p.live)) [
  | inl out ↦ rw out (quiet-reap g q ps (ground arith))
  | inr kept ↦ rw kept (ground (arith, quiet-reap g q ps))
]

is_there-reap :
    (g q : ℕ) (ps : List Process) → (q == g) ≡ false → is_there g (reap q ps) ≡ is_there g ps
unfolding reap
is_there-reap g q [] h = refl
is_there-reap g q (p ∷ ps) h = elim (Bool-cases ((p.pid == q) && not p.live)) [
  | inl out ↦ let e : (p.pid == g) ≡ false = ground arith in rw (out, e) (is_there-reap g q ps h)
  | inr kept ↦ rw kept (ap (λ b. (p.pid == g) || b) (is_there-reap g q ps h))
]

-- The leader of a quiet group is a zombie, for which the wait does not time out.
gone-reap :
    (g : ℕ) (ps : List Process)
    → leads g ps ≡ true
    → group_lives g ps ≡ false
    → is_there g (reap g ps) ≡ false
unfolding reap
gone-reap g [] h k = refl
gone-reap g (p ∷ ps) h k = elim (Bool-cases ((p.pid == g) && not p.live)) [
  | inl out ↦ rw out (gone-reap g ps (ground arith) (ground arith))
  | inr kept ↦ rw kept (ground (arith, gone-reap g ps))
]

absent-reap : (g q : ℕ) (ps : List Process) → is_there g ps ≡ false → is_there g (reap q ps) ≡ false
unfolding reap
absent-reap g q [] h = refl
absent-reap g q (p ∷ ps) h = elim (Bool-cases ((p.pid == q) && not p.live)) [
  | inl out ↦ rw out (absent-reap g q ps (ground arith))
  | inr kept ↦ rw kept (ground (arith, absent-reap g q ps))
]

leads_absent : (g : ℕ) (ps : List Process) → is_there g ps ≡ false → leads g ps ≡ true
leads_absent g [] h = refl
leads_absent g (p ∷ ps) h = ground (arith, leads_absent g ps)

pub IsStarted-on : (g : ℕ) (k k' : Kernel) → Keeps g k k' → IsStarted k g → IsStarted k' g
IsStarted-on g k k' keeps s = record {
  there = keeps.there_same ∙ s.there;
  leader = keeps.leads_on s.leader;
  below = omega (arith, keeps.below_on, s.below);
}

pub IsStopped-on : (g : ℕ) (k k' : Kernel) → Keeps g k k' → IsStopped k g → IsStopped k' g
IsStopped-on g k k' keeps s = record {
  gone = keeps.there_same ∙ s.gone;
  quiet = keeps.quiet_on (leads_absent g k.table s.gone) s.quiet;
  below = omega (arith, keeps.below_on, s.below);
}

-- Between the SIGKILL and the wait.
record IsKilled (k : Kernel) (g : ℕ) : Type 0 where
  leader : leads g k.table ≡ true
  quiet : group_lives g k.table ≡ false
  below : g < k.next

IsKilled-on : (g : ℕ) (k k' : Kernel) → Keeps g k k' → IsKilled k g → IsKilled k' g
IsKilled-on g k k' keeps s = record {
  leader = keeps.leads_on s.leader;
  quiet = keeps.quiet_on s.leader s.quiet;
  below = omega (arith, keeps.below_on, s.below);
}

kill-IsKilled :
    (g : ℕ) (k : Kernel) → IsStarted k g → IsKilled (try_killpg (getpgid g k.table) sigkill k) g
unfolding try_killpg killpg
kill-IsKilled g k s =
    let e = getpgid_leader g k.table s.there s.leader in
    rw e (record {
      leader = (Keeps-try_killpg g (some g) sigkill k).leads_on s.leader;
      quiet = killed_quiet g k.table;
      below = s.below;
    })

wait-IsStopped : (g : ℕ) (k : Kernel) → IsKilled k g → IsStopped (wait g k) g
unfolding wait
wait-IsStopped g k s = record {
  gone = gone-reap g k.table s.leader s.quiet;
  quiet = quiet-reap g g k.table s.quiet;
  below = s.below;
}

module _ (during : Moment → List Event) where
  pub Keeps-term_one : (g p : ℕ) (k : Kernel) → g < k.next → Keeps g k (term_one during p k)
  unfolding term_one
  Keeps-term_one g p k h =
      Keeps-trans g k (happen (during (before_term p)) k) _
        (Keeps-happen g (during (before_term p)) k h)
        (Keeps-try_killpg g _ sigterm (happen (during (before_term p)) k))

  pub Keeps-term_all :
      (g : ℕ) (ps : List ℕ) (k : Kernel) → g < k.next → Keeps g k (term_all during ps k)
  unfolding term_all
  Keeps-term_all g [] k h = Keeps-refl g k
  Keeps-term_all g (p ∷ ps) k h =
      let first = Keeps-term_one g p k h in
      Keeps-trans g k (term_one during p k) _ first
        (Keeps-term_all g ps (term_one during p k) (omega (arith, first.below_on)))

  -- A round of the second loop, up to its wait.
  Keeps-kill :
      (g p : ℕ) (k : Kernel)
      → g < k.next
      → (let k' = happen (during (before_kill p)) k in
          Keeps g k (happen (during (before_wait p)) (try_killpg (getpgid p k'.table) sigkill k')))
  Keeps-kill g p k h =
      let k' = happen (during (before_kill p)) k in
      let first = Keeps-happen g (during (before_kill p)) k h in
      let second = Keeps-try_killpg g (getpgid p k'.table) sigkill k' in
      let both = Keeps-trans g k k' (try_killpg (getpgid p k'.table) sigkill k') first second in
      Keeps-trans g k _ _ both (
        Keeps-happen g (during (before_wait p)) (try_killpg (getpgid p k'.table) sigkill k')
          (omega (arith, both.below_on)))

  pub kill_one_self : (g : ℕ) (k : Kernel) → IsStarted k g → IsStopped (kill_one during g k) g
  unfolding kill_one
  kill_one_self g k s =
      let k' = happen (during (before_kill g)) k in
      let killed =
        kill-IsKilled g k'
          (IsStarted-on g k k' (Keeps-happen g (during (before_kill g)) k s.below) s) in
      let k'' = try_killpg (getpgid g k'.table) sigkill k' in
      wait-IsStopped g (happen (during (before_wait g)) k'')
        (IsKilled-on g k'' _ (Keeps-happen g (during (before_wait g)) k'' killed.below) killed)

  pub kill_one-IsStopped :
      (g p : ℕ) (k : Kernel) → IsStopped k g → IsStopped (kill_one during p k) g
  unfolding kill_one wait
  kill_one-IsStopped g p k s =
      let s' = IsStopped-on g k _ (Keeps-kill g p k s.below) s in
      record {
        gone = absent-reap g p _ s'.gone;
        quiet = quiet-reap g p _ s'.quiet;
        below = s'.below;
      }

  pub kill_one-other :
      (g p : ℕ) (k : Kernel) → (p == g) ≡ false → IsStarted k g → IsStarted (kill_one during p k) g
  unfolding kill_one wait
  kill_one-other g p k h s =
      let s' = IsStarted-on g k _ (Keeps-kill g p k s.below) s in
      record {
        there = is_there-reap g p _ h ∙ s'.there;
        leader = leads-reap g p _ s'.leader;
        below = s'.below;
      }
