-- ===== src/Server/Room/Lifetime.antt =====
-- servers/python/server.py: what the rounds of a room do, and when its coroutine ends.
use game_bench.Common.{
  ℕ, zero, suc, ◌+◌, ◌%◌, ◌^◌, ◌<◌, ◌↔◌, ◌≡◌, refl, sym, ap, ◌∙◌, inl, inr, List, [], ◌∷◌, ◌++◌,
  map, length, All, arith,
}
use game_bench.Py.Dict.{Dict, values, Entries}
use game_bench.Py.Result.{Result, ok, raise, bind-ok}
use game_bench.Py.Struct.{Bytes, be32, InI32}
use game_bench.Server.Room.{
  Player, Room, Writes, running, failed, Task-cases, advance, advance_all, moved, step, after_step,
  run_round, run_round_running, run_round_failed, run, broadcast, snapshot,
}
use game_bench.Server.Room.Snapshot.{
  InRange, layout, snapshot_lem, snapshot_fits, snapshot_count, frame-layout,
}
use game_bench.Server.Room.Members.{IsPlayer, IsRoom, moved-IsRoom}
use game_bench.Server.Room.Protocol.{seen, decode_snapshot, decode_snapshot-layout}

-- The position of a player fits the snapshot.
abbrev pub OnMap : Player → Type 0
OnMap p = InI32 p.x × InI32 p.y

-- Everything that a step packs fits: every position after the move, and the number of players.
pub record CanPack (r : Room) : Type 0 where
  pub positions : All OnMap (values (moved r).players)
  pub count : length (values (moved r).players) < 2 ^ 16

each-InRange :
    (d : Dict Player) → Entries IsPlayer d → All OnMap (values d) → All InRange (values d)
each-InRange [] h m = tt
each-InRange ((i, p) ∷ d) h m = (
  record { id = omega (arith, h.0.id, h.0.width); x = m.0.0; y = m.0.1; last_seq = h.0.seq },
  each-InRange d h.1 m.1,
)

each-OnMap : (ps : List Player) → All InRange ps → All OnMap ps
each-OnMap [] h = tt
each-OnMap (p ∷ ps) h = ((h.0.x, h.0.y), each-OnMap ps h.1)

seen-advance_all :
    (d : Dict Player) → map seen (values (advance_all d)) ≡ map (λ p. seen (advance p)) (values d)
unfolding advance_all
seen-advance_all [] = refl
seen-advance_all ((i, p) ∷ d) = rw (seen-advance_all d)

-- What the room packs in its next step.
abbrev pub payload : Room → Bytes
payload r = layout (moved r).tick_no (values (moved r).players)

step_lem :
    (r : Room)
    → IsRoom r
    → CanPack r
    → step r
      ≡ (moved r, ok (broadcast (be32 (length (payload r)) ++ payload r) (values (moved r).conns)))
unfolding step
step_lem r v can =
    let v' : IsRoom (moved r) = moved-IsRoom r v in
    rw (
      snapshot_lem (moved r).tick_no (values (moved r).players) v'.tick can.count
          (each-InRange (moved r).players v'.each can.positions),
      frame-layout (moved r).tick_no (values (moved r).players) can.count,
    )

after :
    (r : Room)
    → IsRoom r
    → CanPack r
    → after_step (step r).0 (step r).1
      ≡ (moved r, broadcast (be32 (length (payload r)) ++ payload r) (values r.conns))
unfolding after_step moved
after r v can = rw (step_lem r v can)

seen-moved :
    (r : Room)
    → map seen (values (moved r).players) ≡ map (λ p. seen (advance p)) (values r.players)
unfolding moved
seen-moved r = seen-advance_all r.players

tick_no-moved : (r : Room) → (moved r).tick_no ≡ (r.tick_no + 1) % 2 ^ 32
unfolding moved
tick_no-moved r = refl

-- A running room that can pack does one round: it moves, writes one and the same frame to every
-- connection, once, and a client reads the moved players from the frame's payload.
pub run_round-broadcast :
    (r : Room)
    → IsRoom r
    → r.task ≡ running
    → CanPack r
    → (buf : Bytes) × (run_round r
        ≡ (moved r, broadcast (be32 (length buf) ++ buf) (values r.conns)))
      × (decode_snapshot buf
          ≡ ok ((r.tick_no + 1) % 2 ^ 32, map (λ p. seen (advance p)) (values r.players)))
run_round-broadcast r v going can = (
  payload r,
  run_round_running r going ∙ after r v can,
  decode_snapshot-layout (moved r).tick_no (values (moved r).players) v'.tick can.count
        (each-InRange (moved r).players v'.each can.positions)
      ∙ rw (seen-moved r, tick_no-moved r),
)
  where
    v' : IsRoom (moved r)
    v' = moved-IsRoom r v

-- A step that does not raise could pack.
pub step_fits : (r : Room) {ws : Writes} → (step r).1 ≡ ok ws → CanPack r
unfolding step
step_fits r h =
    let (buf, packed, more) = bind-ok (snapshot (moved r).tick_no (values (moved r).players)) _ h in
    record {
      positions = each-OnMap (values (moved r).players) (snapshot_fits (moved r).tick_no _ packed);
      count = snapshot_count (moved r).tick_no _ packed;
    }

failing :
    (r : Room) (x : Result Writes)
    → (step r).1 ≡ x
    → ¬ CanPack r
    → after_step (moved r) x ≡ (record (moved r) { task = failed }, [])
unfolding after_step
failing r (ok ws) e h = absurd (h (step_fits r e))
failing r (raise x) e h = refl

-- A room that cannot pack moves its players, writes nothing to anyone, and its coroutine ends.
pub run_round-failed :
    (r : Room)
    → r.task ≡ running
    → ¬ CanPack r
    → run_round r ≡ (record (moved r) { task = failed }, [])
unfolding step
run_round-failed r going h = run_round_running r going ∙ failing r (step r).1 refl h

-- A room whose coroutine has ended never writes or moves again.
pub run-failed : (k : ℕ) (r : Room) → r.task ≡ failed → run k r ≡ (r, [])
unfolding run
run-failed zero r h = refl
run-failed (suc k) r h = rw (run_round_failed r h, run-failed k r h)

after_step-running :
    (r : Room) (x : Result Writes)
    → (step r).1 ≡ x
    → (after_step (moved r) x).0.task ≡ running
    → CanPack r × ((after_step (moved r) x).0 ≡ moved r)
unfolding after_step
after_step-running r (ok ws) e h = (step_fits r e, refl)
after_step-running r (raise x) e h = cc

-- A round that leaves the room running could pack, and moved every player.
pub run_round-moved :
    (r : Room)
    → r.task ≡ running
    → (run_round r).0.task ≡ running
    → CanPack r × ((run_round r).0 ≡ moved r)
unfolding step
run_round-moved r going h =
    let e = run_round_running r going in
    let (can, same) = after_step-running r (step r).1 refl (sym (ap (λ t. t.0.task) e) ∙ h) in
    (can, ap (λ t. t.0) e ∙ same)

-- A running room stays running through a round exactly when every player's position after the move
-- fits an i32 and there are fewer than 65536 players.
pub run_round-running_iff :
    (r : Room) → IsRoom r → r.task ≡ running → ((run_round r).0.task ≡ running) ↔ CanPack r
unfolding moved
run_round-running_iff r v going = (
  (λ h. (run_round-moved r going h).0),
  (λ can. ap (λ t. t.0.task) (run_round-broadcast r v going can).1 ∙ going),
)

-- What ran k rounds and one more ran k rounds from the room after the first.
pub running_before : (k : ℕ) (r : Room) → (run k r).0.task ≡ running → r.task ≡ running
running_before k r h = elim (Task-cases r.task) [
  | inl going ↦ going
  | inr ended ↦ cc (ap (λ t. t.0.task) (run-failed k r ended))
]

-- A round does not start a coroutine that has ended.
pub run_round_starts : (r : Room) → (run_round r).0.task ≡ running → r.task ≡ running
run_round_starts r h = elim (Task-cases r.task) [
  | inl going ↦ going
  | inr ended ↦ cc (ap (λ t. t.0.task) (run_round_failed r ended))
]

-- A running room that cannot pack its next snapshot (a position out of the i32 range, or 65536 players)
-- moves its players once more; neither then nor in any later round does it write to anyone.
pub run_after_failure :
    (k : ℕ) (r : Room)
    → r.task ≡ running
    → ¬ CanPack r
    → run (suc k) r ≡ (record (moved r) { task = failed }, [])
unfolding run
run_after_failure k r going h =
    rw (run_round-failed r going h) (ap (λ (t : Room × Writes). (t.0, t.1)) (run-failed k _ refl))
