-- ===== src/Server/World.antt =====
-- servers/python/server.py: `new_pid`, `get_room`, and what `handle` does with one message. The module
-- globals, the rooms and the local variables of the running coroutines are one state.
pub mod Rooms
pub mod Effects
pub mod Players
pub mod Lookups
pub mod Connection
pub mod Rejoin
pub mod Runs
use game_bench.Common.{
  ℕ, zero, suc, ◌+◌, ◌%◌, ◌^◌, ◌≡◌, refl, Bool, true, false, ◌&&◌, Option, none, some, List, [],
  ◌∷◌, ◌++◌, ◌==◌, leb, if◌then◌else◌, length,
}
use game_bench.Py.Dict.{Dict, get, set, pop}
use game_bench.Py.Result.{Result, ok, raise, index_error, ◌>>=◌}
use game_bench.Py.Struct.{Bytes, pack_u32, unpack_u32, unpack_i16}
use game_bench.Server.Room
use game_bench.Server.Room.{
  Room, Writer, Writes, msg_join, msg_move, msg_joined, new_room, frame, run_round,
}

-- The locals of one `handle`: a room is never taken out of `rooms`, so a reference to it is its id.
pub record Session : Type 0 where
  pub room : Option ℕ
  pub my_pid : ℕ

-- `sent` lists every write to a transport, `closed` every `writer.close()`, in the order of the calls.
pub record World : Type 0 where
  pub next_pid : ℕ
  pub rooms : Dict Room
  pub sessions : Dict Session
  pub sent : Writes
  pub closed : List Writer

abbrev pub init : World
init = record { next_pid = 0; rooms = []; sessions = []; sent = []; closed = [] }

-- `& 0xFFFFFFFF` is the remainder by 2 ^ 32.
unfoldable pub new_pid : World → ℕ × World
new_pid w = let pid = (w.next_pid + 1) % 2 ^ 32 in (pid, record w { next_pid = pid })

unfoldable pub get_room : ℕ → ℕ → World → World
get_room room_id tick w = elim (get room_id w.rooms) [
  | none ↦ record w { rooms = set room_id (new_room room_id tick) w.rooms }
  | some r ↦ w
]

-- A method call on the room object that the id refers to.
unfoldable pub in_room : ℕ → (Room → Room) → World → World
in_room room_id f w = elim (get room_id w.rooms) [
  | none ↦ w
  | some r ↦ record w { rooms = set room_id (f r) w.rooms }
]

-- `room = get_room(room_id, tick)` and `my_pid = room.join(writer)`
unfoldable pub join : ℕ → Writer → ℕ → World → ℕ × World
join tick c room_id w =
    let (pid, w') = new_pid (get_room room_id tick w) in (pid, in_room room_id (Room.join pid c) w')

unfoldable pub first : Bytes → Result ℕ
first [] = raise index_error
first (t ∷ payload) = ok t

unfoldable pub write : Writer → Bytes → World → World
write c bs w = record w { sent = w.sent ++ (c, bs) ∷ [] }

-- The branch of MSG_JOIN. None of its calls raises on bytes, so no state is kept beside a raise.
unfoldable pub on_join : ℕ → Writer → Bytes → World → Result (Session × World)
unfolding write
on_join tick c payload w = do
  room_id ← unpack_u32 payload 1
  let (pid, w') = join tick c room_id w
  a ← pack_u32 pid
  b ← pack_u32 room_id
  f ← frame (msg_joined ∷ a ++ b)
  ok (record { room = some room_id; my_pid = pid }, write c f w')

unfoldable pub move_in : Option ℕ → ℕ → Bytes → World → Result World
move_in none pid payload w = ok w
move_in (some room_id) pid payload w = do
  seq ← unpack_u32 payload 1
  dx ← unpack_i16 payload 5
  dy ← unpack_i16 payload 7
  ok (in_room room_id (Room.move pid seq dx dy) w)

unfoldable pub on_move : Session → Bytes → World → Result (Session × World)
unfolding move_in
on_move s payload w = do w' ← move_in s.room s.my_pid payload w; ok (s, w')

-- What `handle` does with one payload. Other tags, and payloads that are too short, do nothing.
unfoldable pub handle_payload : ℕ → Writer → Session → Bytes → World → Result (Session × World)
unfolding first on_join on_move
handle_payload tick c s payload w = do
  t ← first payload
  if t == msg_join && leb 5 (length payload)
      then on_join tick c payload w
      else if t == msg_move && leb 9 (length payload)
      then on_move s payload w
      else ok (s, w)

-- The `finally` of `handle`: `if room is not None and my_pid`, then the close.
unfoldable pub leave_of : Option ℕ → ℕ → World → World
leave_of none pid w = w
leave_of (some room_id) pid w = if pid == 0 then w else in_room room_id (Room.leave pid) w

unfoldable pub finish : Writer → Session → World → World
unfolding leave_of
finish c s w =
    let w' = leave_of s.room s.my_pid w in
    record w' { sessions = pop c w'.sessions; closed = w'.closed ++ c ∷ [] }

unfoldable pub end_round : ℕ → Room × Writes → World → World
end_round room_id (r, ws) w = record w { rooms = set room_id r w.rooms; sent = w.sent ++ ws }

-- One round of the room's coroutine.
unfoldable pub round : ℕ → World → World
unfolding end_round
round room_id w = elim (get room_id w.rooms) [
  | none ↦ w
  | some r ↦ end_round room_id (run_round r) w
]

-- Between two awaits a coroutine runs alone, so a run of the server is a sequence of these.
pub data Event : Type 0 where
  accepts : Writer → Event
  receives : Writer → Bytes → Event
  hangs_up : Writer → Event
  ticks : ℕ → Event

unfoldable pub fresh : Session
fresh = record { room = none; my_pid = 0 }

-- An exception out of the message leaves the loop by the same `finally`.
unfoldable pub after_message : Writer → Session → World → Result (Session × World) → World
after_message c s w (ok (s', w')) = record w' { sessions = set c s' w'.sessions }
after_message c s w (raise e) = finish c s w

-- A message to a coroutine that has ended is not read.
unfoldable pub received : ℕ → Writer → Bytes → World → Option Session → World
unfolding after_message
received period c payload w none = w
received period c payload w (some s) = after_message c s w (handle_payload period c s payload w)

-- The end of the stream, a broken connection, or a frame of a length that is not accepted.
unfoldable pub ended : Writer → World → Option Session → World
ended c w none = w
ended c w (some s) = finish c s w

unfoldable pub on_event : ℕ → Event → World → World
unfolding fresh received ended
on_event period (accepts c) w = record w { sessions = set c fresh w.sessions }
on_event period (receives c payload) w = received period c payload w (get c w.sessions)
on_event period (hangs_up c) w = ended c w (get c w.sessions)
on_event period (ticks room_id) w = round room_id w

unfoldable pub serve : ℕ → List Event → World → World
serve period [] w = w
serve period (e ∷ es) w = serve period es (on_event period e w)
