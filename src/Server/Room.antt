-- ===== src/Server/Room.antt =====
-- servers/python/server.py: `Player` and `Room`. A method is a function to the new room.
pub mod Snapshot
pub mod Protocol
pub mod Members
pub mod Lifetime
pub mod Motion
use game_bench.Common.{
  ◌≡◌, refl, ap, ◌⊎◌, inl, inr, ℕ, zero, suc, ◌+◌, ◌*◌, ◌%◌, ◌^◌, none, some, List, [], ◌∷◌, ◌++◌,
  length, replicate,
}
use game_bench.Py.Int.{ℤ, pos, ◌+ℤ◌}
use game_bench.Py.Dict.{Dict, get, set, pop, values}
use game_bench.Py.Result.{Result, ok, raise, ◌>>=◌}
use game_bench.Py.Struct.{Bytes, pack_u16, pack_u32, pack_i32, pack_into}

abbrev pub msg_join : ℕ
msg_join = 0x01

abbrev pub msg_move : ℕ
msg_move = 0x02

abbrev pub msg_joined : ℕ
msg_joined = 0x81

abbrev pub msg_snapshot : ℕ
msg_snapshot = 0x82

pub record Player : Type 0 where
  pub id : ℕ
  pub x : ℤ
  pub y : ℤ
  pub vx : ℤ
  pub vy : ℤ
  pub last_seq : ℕ

-- Player.__init__
unfoldable pub new_player : ℕ → Player
new_player pid = record { id = pid; x = pos 0; y = pos 0; vx = pos 0; vy = pos 0; last_seq = 0 }

-- The room's coroutine `run` loops for ever; an exception out of `step` ends it.
pub data Task : Type 0 where
  running : Task
  failed : Task

pub Task-cases : (t : Task) → (t ≡ running) ⊎ (t ≡ failed)
Task-cases running = inl refl
Task-cases failed = inr refl

-- A StreamWriter is named by the number of its connection.
abbrev pub Writer : Type 0
Writer = ℕ

pub record Room : Type 0 where
  pub id : ℕ
  pub tick : ℕ
  pub tick_no : ℕ
  pub players : Dict Player
  pub conns : Dict Writer
  pub task : Task

-- Room.__init__; `tick` is the period of the loop.
unfoldable pub new_room : ℕ → ℕ → Room
new_room room_id tick = record {
  id = room_id;
  tick = tick;
  tick_no = 0;
  players = [];
  conns = [];
  task = running;
}

-- Room.join, with the player id that `new_pid` gave.
unfoldable pub join : ℕ → Writer → Room → Room
unfolding new_player
join pid writer r = record r {
  players = set pid (new_player pid) r.players;
  conns = set pid writer r.conns;
}

unfoldable pub steer : ℕ → ℤ → ℤ → Player → Player
steer seq dx dy p = record p { vx = dx; vy = dy; last_seq = seq }

-- `p = self.players.get(pid)`; the player object is changed in place, so its place in the dict stays.
unfoldable pub move : ℕ → ℕ → ℤ → ℤ → Room → Room
unfolding steer
move pid seq dx dy r = elim (get pid r.players) [
  | none ↦ r
  | some p ↦ record r { players = set pid (steer seq dx dy p) r.players }
]

unfoldable pub leave : ℕ → Room → Room
leave pid r = record r { players = pop pid r.players; conns = pop pid r.conns }

unfoldable pub advance : Player → Player
advance p = record p { x = p.x +ℤ p.vx; y = p.y +ℤ p.vy }

-- The first loop of Room.step: every player object is changed in place.
unfoldable pub advance_all : Dict Player → Dict Player
advance_all [] = []
advance_all ((pid, p) ∷ d) = (pid, advance p) ∷ advance_all d

-- struct.pack(">IiiI", …) of one player.
unfoldable pub pack_player : Player → Result Bytes
pack_player p = do
  id ← pack_u32 p.id
  x ← pack_i32 p.x
  y ← pack_i32 p.y
  seq ← pack_u32 p.last_seq
  ok (id ++ (x ++ (y ++ seq)))

-- The second loop of Room.step.
unfoldable pub pack_players : Bytes → ℕ → List Player → Result Bytes
pack_players buf off [] = ok buf
pack_players buf off (p ∷ ps) =
    pack_player p >>= λ entry. pack_into buf off entry >>= λ buf'. pack_players buf' (off + 16) ps

-- struct.pack(">IH", tick_no, n)
unfoldable pub pack_header : ℕ → ℕ → Result Bytes
pack_header tick_no n = do t ← pack_u32 tick_no; c ← pack_u16 n; ok (t ++ c)

-- The payload of a snapshot, as the buffer of Room.step ends.
unfoldable pub snapshot : ℕ → List Player → Result Bytes
snapshot tick_no ps = do
  let n = length ps
  buf ← pack_into (replicate (7 + n * 16) 0) 0 (msg_snapshot ∷ [])
  header ← pack_header tick_no n
  buf' ← pack_into buf 1 header
  pack_players buf' 7 ps

-- struct.pack(">I", len(buf)) + buf
unfoldable pub frame : Bytes → Result Bytes
frame payload = do prefix ← pack_u32 (length payload); ok (prefix ++ payload)

-- What a step writes: one frame to each connection. An exception of `w.write` is dropped in the
-- source, so the writes are attempts.
abbrev pub Writes : Type 0
Writes = List (Writer × Bytes)

abbrev pub broadcast : Bytes → List Writer → Writes
broadcast f [] = []
broadcast f (w ∷ ws) = (w, f) ∷ broadcast f ws

-- Room.step up to the packing: the tick number and the positions.
unfoldable pub moved : Room → Room
moved r = record r { tick_no = (r.tick_no + 1) % 2 ^ 32; players = advance_all r.players }

-- What has changed before an exception stays changed, so the room comes back beside the result.
unfoldable pub step : Room → Room × Result Writes
step r =
    let r' = moved r in
    (
      r',
      (do
        buf ← snapshot r'.tick_no (values r'.players)
        f ← frame buf
        ok (broadcast f (values r'.conns))),
    )

unfoldable pub after_step : Room → Result Writes → Room × Writes
after_step r (ok ws) = (r, ws)
after_step r (raise e) = (record r { task = failed }, [])

round_by : Task → Room → Room × Writes
unfolding after_step
round_by running r = let (r', result) = step r in after_step r' result
round_by failed r = (r, [])

-- One round of Room.run: the step, or nothing where an earlier step has ended the coroutine.
unfoldable pub run_round : Room → Room × Writes
unfolding round_by
run_round r = round_by r.task r

pub run_round_running :
    (r : Room) → r.task ≡ running → run_round r ≡ after_step (step r).0 (step r).1
unfolding run_round
run_round_running r h = ap (λ t. round_by t r) h

pub run_round_failed : (r : Room) → r.task ≡ failed → run_round r ≡ (r, [])
unfolding run_round
run_round_failed r h = ap (λ t. round_by t r) h

-- Room.run for k rounds with nothing in between, and all that it writes.
unfoldable pub run : ℕ → Room → Room × Writes
run zero r = (r, [])
run (suc k) r = let (r', now) = run_round r in let (r'', later) = run k r' in (r'', now ++ later)
