-- ===== src/Server/Tests.antt =====
-- Runs of servers/python/server.py at concrete inputs, and the theorems about it at inputs that meet
-- their hypotheses.
pub mod Rejoin
use mathlib.Core.Option
use game_bench.Common.{
  ℕ, suc, ◌+◌, ◌%◌, ◌^◌, ◌<◌, ◌≡◌, ◌↔◌, refl, inl, true, false, ◌&&◌, some, List, [], ◌∷◌, ◌++◌,
  map, ◌==◌, if◌then◌else◌, arith, length, All,
}
use game_bench.Py.Int.{pos, negsuc, ◌+ℤ◌}
use game_bench.Py.Dict.{get, set, values}
use game_bench.Py.Result.{ok}
use game_bench.Py.Struct.{Bytes, be32}
use game_bench.Server.Room.{
  Player, Room, running, failed, snapshot, moved, run_round, run, broadcast, advance, advance_all,
}
use game_bench.Server.Room.Protocol.{seen, decode_snapshot, decode_snapshot-snapshot}
use game_bench.Server.Room.Members.{IsRoom}
use game_bench.Server.Room.Lifetime.{CanPack, run_round-broadcast, run_round-running_iff}
use game_bench.Server.Room.Motion.{run_overflow}
use game_bench.Server.World.{
  World, Event, fresh, init, receives, accepts, hangs_up, ticks, on_event, serve, handle_payload,
  finish,
}
use game_bench.Server.World.Rooms.{plays, writer_at}
use game_bench.Server.World.Lookups.{player_at}
use game_bench.Server.World.Players.{IsWorld, IsWorld-init}
use game_bench.Server.World.Runs.{serve-IsWorld, on_event-IsWorld}
use game_bench.Server.World.Effects.{Returns, handle_payload-Returns}
use game_bench.Server.World.Connection.{
  join_payload, move_payload, seat, Joins, on_event-join, on_event-move, on_event-hangs_up,
}
use game_bench.Server.Stream.{handle}
use game_bench.Server.Stream.Framing.{wire, messages, handle_total, handle-wire, handle-bad_header}
use game_bench.Server.Pace.{Delay, rounds, OnTime, Started, rounds-OnTime, rounds_starve}

-- A room with one player, who moves by (3, -2) in each tick.
abbrev walker : Player
walker = record { id = 1; x = pos 10; y = pos 0; vx = pos 3; vy = negsuc 1; last_seq = 4 }

abbrev small_room : Room
small_room = record {
  id = 7;
  tick = 33;
  tick_no = 0;
  players = (1, walker) ∷ [];
  conns = (1, 5) ∷ [];
  task = running;
}

small_room-IsRoom : IsRoom small_room
unfolding get
small_room-IsRoom = record {
  players = (refl, tt);
  conns = (refl, tt);
  same = refl;
  each = (record { id = refl; width = omega arith; seq = omega arith }, tt);
  tick = omega arith;
}

small_room-CanPack : CanPack small_room
unfolding moved advance advance_all ◌+ℤ◌
small_room-CanPack = record { positions = omega arith; count = omega arith }

run_round-broadcast_example :
    (buf : Bytes) × (run_round small_room
      ≡ (moved small_room, broadcast (be32 (length buf) ++ buf) (values small_room.conns)))
    × (decode_snapshot buf
        ≡ ok (
          (small_room.tick_no + 1) % 2 ^ 32,
          map (λ p. seen (advance p)) (values small_room.players),
        ))
run_round-broadcast_example =
    run_round-broadcast small_room small_room-IsRoom refl small_room-CanPack

walker_moves : (moved small_room).players ≡ (1, record walker { x = pos 13; y = negsuc 1 }) ∷ []
unfolding moved advance advance_all ◌+ℤ◌
walker_moves = refl

decode_snapshot-snapshot_example :
    (buf : Bytes) × (snapshot 9 (walker ∷ []) ≡ ok buf)
    × (decode_snapshot buf ≡ ok (9, map seen (walker ∷ [])))
decode_snapshot-snapshot_example =
    decode_snapshot-snapshot 9 (walker ∷ []) (omega arith) (omega arith)
      (record { id = omega arith; x = omega arith; y = omega arith; last_seq = omega arith }, tt)

run_round-running_iff_example : ((run_round small_room).0.task ≡ running) ↔ CanPack small_room
run_round-running_iff_example = run_round-running_iff small_room small_room-IsRoom refl

-- A player one step from the edge of the map.
abbrev edge_room : Room
edge_room = record small_room { players = (1, record walker { x = pos 2_147_483_647 }) ∷ [] }

edge_room-cannot : ¬ CanPack edge_room
unfolding moved advance advance_all ◌+ℤ◌
edge_room-cannot can = omega (arith, can.positions.0.0)

-- At 30 steps in a second a player at the speed of 32767 ends its room in 37 minutes.
abbrev sprinter : Player
sprinter = record walker { x = pos 0; vx = pos 32767 }

run_overflow_example :
    (run (suc 65538) (record small_room { players = (1, sprinter) ∷ [] })).0.task ≡ failed
unfolding get
run_overflow_example =
    run_overflow 65538 (record small_room { players = (1, sprinter) ∷ [] }) 1 sprinter 0 32767 refl
      refl refl (omega arith)

-- Two connections; the second one joins the room of the first.
abbrev script : List Event
script =
    accepts 1
    ∷ accepts 2
    ∷ receives 1 (join_payload 7)
    ∷ receives 2 (join_payload 7)
    ∷ ticks 7
    ∷ receives 1 (move_payload 1 (pos 3) (negsuc 1))
    ∷ ticks 7
    ∷ hangs_up 1
    ∷ ticks 7
    ∷ []

serve-IsWorld_example : IsWorld (serve 33 script init)
serve-IsWorld_example = serve-IsWorld 33 script init (omega arith) (omega arith) IsWorld-init

handle_payload-Returns_example :
    Returns 33 1
      (seat 7 1)
      init
      (handle_payload 33 1 (seat 7 1) (move_payload 9 (pos 1) (pos 2)) init)
handle_payload-Returns_example =
    handle_payload-Returns 33 1 (seat 7 1) (move_payload 9 (pos 1) (pos 2)) init (omega arith)
      (omega arith)

abbrev pub accepted : World
accepted = on_event 33 (accepts 1) init

pub accepted-IsWorld : IsWorld accepted
accepted-IsWorld = on_event-IsWorld 33 (accepts 1) init tt (omega arith) IsWorld-init

on_event-join_example :
    Joins 1 7 (accepted.next_pid + 1) accepted (on_event 33 (receives 1 (join_payload 7)) accepted)
unfolding on_event get set
on_event-join_example =
    on_event-join 33 7 1 fresh accepted (omega arith) (omega arith) accepted-IsWorld refl

abbrev one_player : World
one_player = on_event 33 (receives 1 (join_payload 7)) accepted

abbrev pub its_pid : ℕ
its_pid = accepted.next_pid + 1

room_left : accepted.next_pid + 1 < 2 ^ 32
unfolding on_event
room_left = omega arith

one_player-IsWorld : IsWorld one_player
one_player-IsWorld =
    on_event-IsWorld 33 (receives 1 (join_payload 7)) accepted (omega arith) room_left
      accepted-IsWorld

on_event-move_example :
    (player_at (on_event 33 (receives 1 (move_payload 5 (pos 3) (negsuc 1))) one_player) 7 its_pid
      ≡ (if (7 == 7) && (its_pid == its_pid)
          then Option.map
              (λ p. record { id = p.id; x = p.x; y = p.y; vx = pos 3; vy = negsuc 1; last_seq = 5 })
              (player_at one_player 7 its_pid)
          else player_at one_player 7 its_pid))
    × ((on_event 33 (receives 1 (move_payload 5 (pos 3) (negsuc 1))) one_player).sent
        ≡ one_player.sent)
on_event-move_example =
    on_event-move 33 7 its_pid 5 7 its_pid (pos 3) (negsuc 1) 1 one_player (omega arith)
      (omega arith) (omega arith) on_event-join_example.seated.session

on_event-hangs_up_example :
    plays (on_event 33 (hangs_up 1) one_player) 7 its_pid
    ≡ (if (7 == 7) && (its_pid == its_pid) then false else plays one_player 7 its_pid)
on_event-hangs_up_example =
    on_event-hangs_up 33 7 its_pid 7 its_pid 1 one_player (omega arith) one_player-IsWorld
      on_event-join_example.seated

abbrev two_frames : List Bytes
two_frames = join_payload 7 ∷ move_payload 1 (pos 3) (negsuc 1) ∷ []

handle-wire_example :
    handle (length two_frames + 4) 33 1 fresh (wire two_frames ++ (0 ∷ [])) init
    ≡ handle 4 33 1
        (messages 33 1 fresh two_frames init).0
        (0 ∷ [])
        (messages 33 1 fresh two_frames init).1
handle-wire_example = handle-wire two_frames (0 ∷ []) 4 33 1 fresh init (omega arith)

handle-bad_header_example :
    handle (length two_frames + suc 0) 33 1 fresh (wire two_frames ++ (be32 0 ++ (1 ∷ []))) init
    ≡ some
        (finish 1 (messages 33 1 fresh two_frames init).0 (messages 33 1 fresh two_frames init).1)
handle-bad_header_example =
    handle-bad_header two_frames 0 (1 ∷ []) 0 33 1 fresh init (omega arith) (omega arith) (inl refl)

handle_total_example : (w : World) × (handle 4 33 1 fresh (0 ∷ 0 ∷ 1 ∷ []) init ≡ some w)
handle_total_example = handle_total 4 33 1 fresh (0 ∷ 0 ∷ 1 ∷ []) init (omega arith)

abbrev delays : List Delay
delays = record { late = 1; work = 5 } ∷ record { late = 0; work = 8 } ∷ []

rounds-OnTime_example : OnTime 33 (0 + 33) (rounds 33 0 0 delays) delays
rounds-OnTime_example = rounds-OnTime 33 0 0 delays (omega arith) (omega arith)

rounds_starve_example : All (λ (s : Started). s.slept ≡ false) (rounds 5 0 5 delays)
rounds_starve_example = rounds_starve 5 0 5 delays (omega arith) (omega arith)
