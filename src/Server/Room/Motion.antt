-- ===== src/Server/Room/Motion.antt =====
-- servers/python/server.py: where the rounds take a player, and how long that fits the snapshot.
use mathlib.Core.Option
use game_bench.Common.{
  ℕ, zero, suc, ◌+◌, ◌*◌, ◌^◌, ◌<◌, ◌≤◌, ◌≡◌, sym, ap, subst, ◌∙◌, inl, inr, some, [], ◌∷◌, All,
  arith, Bool-cases, ◌==◌,
}
use game_bench.Py.Int.{
  ℤ, pos, negsuc, pos_part, ◌+ℤ◌, times, times_parts, +ℤ_parts, int_laws, +ℤ-zero,
}
use game_bench.Py.Dict.{Dict, get, values}
use game_bench.Py.Struct.{InI32}
use game_bench.Server.Room.{
  Player, Room, running, failed, Task-cases, advance, moved, run_round, run,
}
use game_bench.Server.Room.Members.{get-advance_all}
use game_bench.Server.Room.Lifetime.{OnMap, run_round-moved, running_before, run_round_starts}

-- A player after k moves with no MOVE in between.
abbrev pub drift : ℕ → Player → Player
drift k p = record p { x = p.x +ℤ times k p.vx; y = p.y +ℤ times k p.vy }

sum_later : (a v : ℤ) (k : ℕ) → a +ℤ v +ℤ times k v ≡ a +ℤ times (suc k) v
unfolding times
sum_later a v k = omega int_laws

drift-advance : (k : ℕ) (p : Player) → drift k (advance p) ≡ drift (suc k) p
unfolding advance
drift-advance k p = cc (sum_later p.x p.vx k, sum_later p.y p.vy k)

drift-zero : (p : Player) → drift 0 p ≡ p
unfolding times
drift-zero p = cc (+ℤ-zero p.x, +ℤ-zero p.y)

OnMap-at :
    (d : Dict Player) (pid : ℕ) (p : Player) → All OnMap (values d) → get pid d ≡ some p → OnMap p
unfolding get
OnMap-at [] pid p h g = cc
OnMap-at ((i, q) ∷ d) pid p h g = elim (Bool-cases (i == pid)) [
  | inl same ↦ let e : q ≡ p = ground arith in subst OnMap e h.0
  | inr other ↦ OnMap-at d pid p h.1 (ground arith)
]

get-moved :
    (r : Room) (pid : ℕ) (p : Player)
    → get pid r.players ≡ some p
    → get pid (moved r).players ≡ some (advance p)
unfolding moved
get-moved r pid p g = get-advance_all pid r.players ∙ ap (Option.map advance) g

-- While the room runs, k rounds take a player with a steady velocity k times as far.
pub run-drift :
    (k : ℕ) (r : Room) (pid : ℕ) (p : Player)
    → (run k r).0.task ≡ running
    → get pid r.players ≡ some p
    → get pid (run k r).0.players ≡ some (drift k p)
unfolding run
run-drift zero r pid p h g = g ∙ ap (λ q. some q) (sym (drift-zero p))
run-drift (suc k) r pid p h g =
    let later = running_before k (run_round r).0 h in
    let (can, same) = run_round-moved r (run_round_starts r later) later in
    run-drift k (run_round r).0 pid (advance p) h
      (ap (λ (s : Room). get pid s.players) same ∙ get-moved r pid p g)
    ∙ ap (λ q. some q) (drift-advance k p)

-- A room that still runs after at least one round has every player's position within an i32.
pub run-OnMap :
    (k : ℕ) (r : Room) (pid : ℕ) (p : Player)
    → (run (suc k) r).0.task ≡ running
    → get pid r.players ≡ some p
    → OnMap (drift (suc k) p)
unfolding run
run-OnMap zero r pid p h g =
    let (can, same) = run_round-moved r (run_round_starts r h) h in
    subst OnMap (sym (drift-zero (advance p)) ∙ drift-advance 0 p)
      (OnMap-at (moved r).players pid (advance p) can.positions (get-moved r pid p g))
run-OnMap (suc k) r pid p h g =
    let later = running_before (suc k) (run_round r).0 h in
    let (can, same) = run_round-moved r (run_round_starts r later) later in
    subst OnMap (drift-advance (suc k) p) (
      run-OnMap k (run_round r).0 pid (advance p) h
        (ap (λ (s : Room). get pid s.players) same ∙ get-moved r pid p g))

pos_part-lt : (x : ℤ) → InI32 x → pos_part x < 2 ^ 31
pos_part-lt (pos n) h = h
pos_part-lt (negsuc n) h = omega arith

too_far : (a v : ℕ) (k : ℕ) → 2 ^ 31 ≤ a + k * v → ¬ InI32 (pos a +ℤ times k (pos v))
too_far a v k far h = omega (
  arith,
  times_parts k (pos v),
  +ℤ_parts (pos a) (times k (pos v)),
  pos_part-lt (pos a +ℤ times k (pos v)) h,
)

-- A room with a player that starts at x = a with the velocity v ≥ 0 and whose a + k * v leaves the
-- i32 range has stopped after k rounds, k ≥ 1, for every player in it.
pub run_overflow :
    (k : ℕ) (r : Room) (pid : ℕ) (p : Player) (a v : ℕ)
    → get pid r.players ≡ some p
    → p.x ≡ pos a
    → p.vx ≡ pos v
    → 2 ^ 31 ≤ a + suc k * v
    → (run (suc k) r).0.task ≡ failed
run_overflow k r pid p a v g ex ev far = elim (Task-cases (run (suc k) r).0.task) [
  | inl going ↦ absurd (too_far a v (suc k) far (rw (← ex, ← ev) (run-OnMap k r pid p going g).0))
  | inr ended ↦ ended
]
