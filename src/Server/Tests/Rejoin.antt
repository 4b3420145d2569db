-- ===== src/Server/Tests/Rejoin.antt =====
-- A connection of servers/python/server.py that JOINs two rooms and then ends.
use game_bench.Common.{
  ◌+◌, ◌%◌, ◌^◌, ◌≡◌, refl, true, some, List, [], ◌∷◌, ◌++◌, map, arith, length,
}
use game_bench.Py.Int.{pos, ◌+ℤ◌}
use game_bench.Py.Dict.{get, set, values}
use game_bench.Py.Result.{ok}
use game_bench.Py.Struct.{Bytes, be32, unpack_u32, pack_u32}
use game_bench.Server.Room
use game_bench.Server.Room.{
  Player, Room, Writer, Writes, running, moved, advance, advance_all, frame, new_room,
}
use game_bench.Server.Room.Protocol.{seen, decode_snapshot}
use game_bench.Server.Room.Lifetime.{CanPack}
use game_bench.Server.World.{
  fresh, ticks, on_event, serve, handle_payload, finish, join, new_pid, get_room, in_room,
}
use game_bench.Server.World.Rooms.{plays}
use game_bench.Server.World.Rejoin.{rejoined, rejoin_writes}
use game_bench.Server.Tests.{accepted, accepted-IsWorld, its_pid}

abbrev still : Player
still = record { id = 1; x = pos 0; y = pos 0; vx = pos 0; vy = pos 0; last_seq = 0 }

-- What the first of the two rooms is when the connection has ended.
abbrev left_behind : Room
left_behind = record {
  id = 7;
  tick = 33;
  tick_no = 0;
  players = (1, still) ∷ [];
  conns = (1, 1) ∷ [];
  task = running;
}

left_behind-CanPack : CanPack left_behind
unfolding moved advance advance_all ◌+ℤ◌
left_behind-CanPack = record { positions = omega arith; count = omega arith }

left_behind_there : get 7 (rejoined 33 7 8 1 accepted).rooms ≡ some left_behind
unfolding serve on_event get set handle_payload unpack_u32 pack_u32 join new_pid get_room frame
    in_room finish Room.join new_room
left_behind_there = refl

rejoin_writes_example :
    ((earlier : List Writer) × ((rejoined 33 7 8 1 accepted).closed ≡ earlier ++ 1 ∷ []))
    × (plays (rejoined 33 7 8 1 accepted) 7 its_pid ≡ true)
    × ((buf : Bytes) × (before : Writes) × (after : Writes) × ((on_event 33
            (ticks 7)
            (rejoined 33 7 8 1 accepted)).sent
          ≡ (rejoined 33 7 8 1 accepted).sent ++ (before ++ (1, be32 (length buf) ++ buf) ∷ after))
        × (decode_snapshot buf
            ≡ ok (
              (left_behind.tick_no + 1) % 2 ^ 32,
              map (λ p. seen (advance p)) (values left_behind.players),
            )))
unfolding on_event get set
rejoin_writes_example =
    rejoin_writes 33 7 8 1 fresh accepted left_behind (omega arith) (omega arith) (omega arith)
      accepted-IsWorld refl left_behind_there refl left_behind-CanPack
