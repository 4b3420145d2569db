-- ===== src/Runner/Processes/Groups.antt =====
-- runner/run.py: the group of a started process, and what the steps of the machine keep of it.
use game_bench.Common.{
  ℕ, ◌<◌, ◌≤◌, ◌≡◌, refl, ap, ◌∙◌, Bool, true, false, not, ◌&&◌, ◌||◌, Option, none, some, List, [],
  ◌∷◌, ◌++◌, map, ◌==◌, arith, Bool-cases, inl, inr,
}
use game_bench.Py.Os.{
  Process, Kernel, Signal, Event, exits, forks, new_session, event, end_of, session_of, child_of,
  find_process, add_child, happen, ends, hit, killpg,
}
use game_bench.Runner.Processes.{try_killpg}

abbrev pub is_there : ℕ → List Process → Bool
is_there g [] = false
is_there g (p ∷ ps) = (p.pid == g) || is_there g ps

-- The process of the pid g leads the group g.
abbrev pub leads : ℕ → List Process → Bool
leads g [] = true
leads g (p ∷ ps) = (not (p.pid == g) || (p.pgid == g)) && leads g ps

-- Some process of the group is live.
abbrev pub group_lives : ℕ → List Process → Bool
group_lives g [] = false
group_lives g (p ∷ ps) = ((p.pgid == g) && p.live) || group_lives g ps

-- A process that was started with a session of its own, and is still to be waited for.
pub record IsStarted (k : Kernel) (g : ℕ) : Type 0 where
  pub there : is_there g k.table ≡ true
  pub leader : leads g k.table ≡ true
  pub below : g < k.next

-- It has been waited for, and no process of its group is live.
pub record IsStopped (k : Kernel) (g : ℕ) : Type 0 where
  pub gone : is_there g k.table ≡ false
  pub quiet : group_lives g k.table ≡ false
  pub below : g < k.next

-- What a call does to one entry of the table: it keeps the pid, makes no process live, and moves it only
-- to a group of its own, while it is live.
pub record Milder (p q : Process) : Type 0 where
  pub pid_kept : q.pid ≡ p.pid
  pub group_kept : ((q.pgid == p.pgid) || (p.live && (q.pgid == p.pid))) ≡ true
  pub live_before : (not q.live || p.live) ≡ true

-- The tests of one entry, before and after.
leads_one :
    (pid pgid pgid' g : ℕ) (live more more' : Bool)
    → ((pgid' == pgid) || (live && (pgid' == pid))) ≡ true
    → ((not (pid == g) || (pgid == g)) && more) ≡ true
    → (more ≡ true → more' ≡ true)
    → ((not (pid == g) || (pgid' == g)) && more') ≡ true
leads_one pid pgid pgid' g live more more' group h next = ground arith

quiet_one :
    (pid pgid pgid' g : ℕ) (live live' more more' lead : Bool)
    → ((pgid' == pgid) || (live && (pgid' == pid))) ≡ true
    → (not live' || live) ≡ true
    → ((not (pid == g) || (pgid == g)) && lead) ≡ true
    → (((pgid == g) && live) || more) ≡ false
    → (lead ≡ true → more ≡ false → more' ≡ false)
    → (((pgid' == g) && live') || more') ≡ false
quiet_one pid pgid pgid' g live live' more more' lead group less h k next = ground arith

module _ (f : Process → Process) (mild : (p : Process) → Milder p (f p)) (g : ℕ) where
  is_there-map : (ps : List Process) → is_there g (map f ps) ≡ is_there g ps
  is_there-map [] = refl
  is_there-map (p ∷ ps) =
      rw (is_there-map ps) (ap (λ n. (n == g) || is_there g ps) (mild p).pid_kept)

  leads-map : (ps : List Process) → leads g ps ≡ true → leads g (map f ps) ≡ true
  leads-map [] h = refl
  leads-map (p ∷ ps) h = rw ((mild p).pid_kept) (
      leads_one p.pid p.pgid (f p).pgid g p.live (leads g ps) (leads g (map f ps))
        (mild p).group_kept h (leads-map ps))

  group_lives-map :
      (ps : List Process)
      → leads g ps ≡ true
      → group_lives g ps ≡ false
      → group_lives g (map f ps) ≡ false
  group_lives-map [] h k = refl
  group_lives-map (p ∷ ps) h k =
      quiet_one p.pid p.pgid (f p).pgid g p.live (f p).live (group_lives g ps)
        (group_lives g (map f ps)) (leads g ps) (mild p).group_kept (mild p).live_before h k
        (group_lives-map ps)

end_of-Milder : (q : ℕ) (p : Process) → Milder p (end_of q p)
unfolding end_of
end_of-Milder q p = elim (Bool-cases (p.pid == q)) [
  | inl same ↦ rw same (record { pid_kept = refl; group_kept = ground arith; live_before = refl })
  | inr other ↦
      rw other (record { pid_kept = refl; group_kept = ground arith; live_before = ground arith })
]

session_of-Milder : (q : ℕ) (p : Process) → Milder p (session_of q p)
unfolding session_of
session_of-Milder q p = elim (Bool-cases ((p.pid == q) && p.live)) [
  | inl leaves ↦
      rw leaves (record { pid_kept = refl; group_kept = ground arith; live_before = ground arith })
  | inr stays ↦
      rw stays (record { pid_kept = refl; group_kept = ground arith; live_before = ground arith })
]

hit-Milder : (g : ℕ) (s : Signal) (p : Process) → Milder p (hit g s p)
unfolding hit
hit-Milder g s p = elim (Bool-cases ((p.pgid == g) && ends s p)) [
  | inl struck ↦
      rw struck (record { pid_kept = refl; group_kept = ground arith; live_before = refl })
  | inr spared ↦
      rw spared (record { pid_kept = refl; group_kept = ground arith; live_before = ground arith })
]

-- A process that is added with a pid of its own.
module _ (g : ℕ) (new : Process) (other : (new.pid == g) ≡ false) where
  pub is_there-append : (ps : List Process) → is_there g (ps ++ new ∷ []) ≡ is_there g ps
  is_there-append [] = rw other
  is_there-append (p ∷ ps) = ap (λ b. (p.pid == g) || b) (is_there-append ps)

  pub leads-append : (ps : List Process) → leads g (ps ++ new ∷ []) ≡ leads g ps
  leads-append [] = rw other
  leads-append (p ∷ ps) = ap (λ b. (not (p.pid == g) || (p.pgid == g)) && b) (leads-append ps)

  pub group_lives-append :
      (ps : List Process)
      → ((new.pgid == g) && new.live) ≡ false
      → group_lives g (ps ++ new ∷ []) ≡ group_lives g ps
  group_lives-append [] h = rw h
  group_lives-append (p ∷ ps) h = ap (λ b. ((p.pgid == g) && p.live) || b) (group_lives-append ps h)

in_live : ℕ → Option Process → Bool
in_live g none = false
in_live g (some p) = (p.pgid == g) && p.live

in_live-find_process :
    (g q : ℕ) (ps : List Process) → group_lives g ps ≡ false → in_live g (find_process q ps) ≡ false
unfolding in_live find_process
in_live-find_process g q [] h = refl
in_live-find_process g q (p ∷ ps) h = elim (Bool-cases (p.pid == q)) [
  | inl same ↦ rw same (ground arith)
  | inr other ↦ rw other (in_live-find_process g q ps (ground arith))
]

-- What a step of the machine keeps of a group.
pub record Keeps (g : ℕ) (k k' : Kernel) : Type 0 where
  pub there_same : is_there g k'.table ≡ is_there g k.table
  pub leads_on : leads g k.table ≡ true → leads g k'.table ≡ true
  pub quiet_on :
      leads g k.table ≡ true → group_lives g k.table ≡ false → group_lives g k'.table ≡ false
  pub below_on : k.next ≤ k'.next

pub Keeps-refl : (g : ℕ) (k : Kernel) → Keeps g k k
Keeps-refl g k = record {
  there_same = refl;
  leads_on = λ h. h;
  quiet_on = λ h q. q;
  below_on = omega arith;
}

pub Keeps-trans : (g : ℕ) (k k' k'' : Kernel) → Keeps g k k' → Keeps g k' k'' → Keeps g k k''
Keeps-trans g k k' k'' a b = record {
  there_same = b.there_same ∙ a.there_same;
  leads_on = λ h. b.leads_on (a.leads_on h);
  quiet_on = λ h q. b.quiet_on (a.leads_on h) (a.quiet_on h q);
  below_on = omega (arith, a.below_on, b.below_on);
}

Keeps-map :
    (g : ℕ) (f : Process → Process)
    → ((p : Process) → Milder p (f p))
    → (k : Kernel) → Keeps g k (record k { table = map f k.table })
Keeps-map g f mild k = record {
  there_same = is_there-map f mild g k.table;
  leads_on = leads-map f mild g k.table;
  quiet_on = group_lives-map f mild g k.table;
  below_on = omega arith;
}

Keeps-add_child :
    (g : ℕ) (s : Bool) (o : Option Process) (k : Kernel)
    → g < k.next
    → (group_lives g k.table ≡ false → in_live g o ≡ false)
    → Keeps g k (add_child s o k)
unfolding add_child child_of in_live
Keeps-add_child g s none k below quiet = Keeps-refl g k
Keeps-add_child g s (some p) k below quiet = elim (Bool-cases p.live) [
  | inr dead ↦ rw dead (Keeps-refl g k)
  | inl live ↦
      let new = child_of k.next s p in
      let other : (k.next == g) ≡ false = ground arith in
      rw live (record {
        there_same = is_there-append g new other k.table;
        leads_on = λ h. leads-append g new other k.table ∙ h;
        quiet_on = λ h q. group_lives-append g new other k.table (ground (arith, quiet q)) ∙ q;
        below_on = omega arith;
      })
]

Keeps-event : (g : ℕ) (e : Event) (k : Kernel) → g < k.next → Keeps g k (event e k)
unfolding event
Keeps-event g (exits q) k h = Keeps-map g (end_of q) (end_of-Milder q) k
Keeps-event g (forks q s) k h =
    Keeps-add_child g s (find_process q k.table) k h (in_live-find_process g q k.table)
Keeps-event g (new_session q) k h = Keeps-map g (session_of q) (session_of-Milder q) k

pub Keeps-happen : (g : ℕ) (es : List Event) (k : Kernel) → g < k.next → Keeps g k (happen es k)
unfolding happen
Keeps-happen g [] k h = Keeps-refl g k
Keeps-happen g (e ∷ es) k h =
    let first = Keeps-event g e k h in
    Keeps-trans g k (event e k) (happen es (event e k)) first
      (Keeps-happen g es (event e k) (omega (arith, first.below_on)))

pub Keeps-try_killpg :
    (g : ℕ) (o : Option ℕ) (s : Signal) (k : Kernel) → Keeps g k (try_killpg o s k)
unfolding try_killpg killpg
Keeps-try_killpg g none s k = Keeps-refl g k
Keeps-try_killpg g (some q) s k = Keeps-map g (hit q s) (hit-Milder q s) k
