-- ===== src/Server/World/Connection.antt =====
-- servers/python/server.py: one connection's JOIN, MOVE and end, as its client and the others see them.
use mathlib.Core.Option
use game_bench.Common.{
  ℕ, ◌+◌, ◌^◌, ◌<◌, ◌≡◌, ap, subst, ◌∙◌, inl, inr, true, false, ◌&&◌, some, [], ◌∷◌, ◌++◌, arith,
  ◌==◌, ==_ne, if◌then◌else◌, Bool-cases, Option-cases,
}
use game_bench.Py.Int.{ℤ}
use game_bench.Py.Dict.{get, set, get-set}
use game_bench.Py.Result.{ok}
use game_bench.Py.Struct.{
  Bytes, be16, be32, bits16, InI16, signed16-bits16, bits16-lt, be32_value, be16_value, unpack_u32,
  unpack_i16,
}
use game_bench.Server.Room
use game_bench.Server.Room.{Player, Room, Writer, new_room, msg_join, msg_move, steer, frame}
use game_bench.Server.Room.Snapshot.{pack_u32_in_range}
use game_bench.Server.World.{
  World, Session, new_pid, get_room, in_room, join, write, finish, handle_payload, receives,
  hangs_up, on_event,
}
use game_bench.Server.World.Rooms.{
  plays, plays_in, writer_at, get_room_found, plays-joined, plays-left, plays-get_room,
}
use game_bench.Server.World.Lookups.{player_at, player-moved, writer-get_room, writer-joined}
use game_bench.Server.World.Effects.{joined_frame, join_pid-lt, frame_joined}
use game_bench.Server.World.Players.{IsWorld, next-get_room}

-- PROTOCOL.md: 0x01 | room_id: u32, and 0x02 | seq: u32 | dx: i16 | dy: i16.
abbrev pub join_payload : ℕ → Bytes
join_payload room_id = msg_join ∷ be32 room_id

abbrev pub move_payload : ℕ → ℤ → ℤ → Bytes
move_payload seq dx dy = msg_move ∷ be32 seq ++ (be16 (bits16 dx) ++ be16 (bits16 dy))

handle_join :
    (t : ℕ) (c : Writer) (s : Session) (room_id : ℕ) (w : World)
    → room_id < 2 ^ 32
    → handle_payload t c s (join_payload room_id) w
      ≡ ok (
        record { room = some room_id; my_pid = (join t c room_id w).0 },
        write c (joined_frame (join t c room_id w).0 room_id) (join t c room_id w).1,
      )
unfolding handle_payload unpack_u32
handle_join t c s room_id w small = rw (
  be32_value room_id small,
  pack_u32_in_range (join t c room_id w).0 (join_pid-lt t c room_id w),
  pack_u32_in_range room_id small,
  frame_joined,
)

handle_move :
    (t : ℕ) (c : Writer) (i pid seq : ℕ) (dx dy : ℤ) (w : World)
    → seq < 2 ^ 32
    → InI16 dx
    → InI16 dy
    → handle_payload t c (record { room = some i; my_pid = pid }) (move_payload seq dx dy) w
      ≡ ok (record { room = some i; my_pid = pid }, in_room i (Room.move pid seq dx dy) w)
unfolding handle_payload unpack_u32 unpack_i16
handle_move t c i pid seq dx dy w small hx hy = rw (
  be32_value seq small,
  be16_value (bits16 dx) (bits16-lt dx hx),
  be16_value (bits16 dy) (bits16-lt dy hy),
  signed16-bits16 dx hx,
  signed16-bits16 dy hy,
)

abbrev pub seat : ℕ → ℕ → Session
seat i pid = record { room = some i; my_pid = pid }

-- The state after a JOIN.
abbrev pub joined_world : ℕ → Writer → ℕ → World → World
joined_world t c i w =
    let (pid, w') = join t c i w in
    record (write c (joined_frame pid i) w') { sessions = set c (seat i pid) w'.sessions }

pub join_event :
    (t : ℕ) (c : Writer) (s : Session) (i : ℕ) (w : World)
    → i < 2 ^ 32
    → get c w.sessions ≡ some s
    → on_event t (receives c (join_payload i)) w ≡ joined_world t c i w
unfolding on_event write
join_event t c s i w small found = rw (found, handle_join t c s i w small)

pub pid-join :
    (t i : ℕ) (c : Writer) (w : World) → w.next_pid + 1 < 2 ^ 32 → (join t c i w).0 ≡ w.next_pid + 1
unfolding join new_pid
pid-join t i c w small = omega (arith, next-get_room i t w)

plays-join :
    (t i j q : ℕ) (c : Writer) (w : World)
    → plays (join t c i w).1 j q
      ≡ (if (i == j) && ((join t c i w).0 == q) then true else plays w j q)
unfolding join new_pid
plays-join t i j q c w =
    let (r, found) = get_room_found i t w in
    rw (plays-joined i j q _ c (new_pid (get_room i t w)).1 r found, plays-get_room i j q t w)

pub writer-join :
    (t i j q : ℕ) (c : Writer) (w : World)
    → writer_at (join t c i w).1 j q
      ≡ (if (i == j) && ((join t c i w).0 == q) then some c else writer_at w j q)
unfolding join new_pid
writer-join t i j q c w =
    let (r, found) = get_room_found i t w in
    rw (writer-joined i j q _ c (new_pid (get_room i t w)).1 r found, writer-get_room i j q t w)

sent-in_room : (i : ℕ) (f : Room → Room) (w : World) → (in_room i f w).sent ≡ w.sent
unfolding in_room
sent-in_room i f w = ground arith

sent-get_room : (i t : ℕ) (w : World) → (get_room i t w).sent ≡ w.sent
unfolding get_room
sent-get_room i t w = ground arith

sent-join : (t i : ℕ) (c : Writer) (w : World) → (join t c i w).1.sent ≡ w.sent
unfolding join new_pid
sent-join t i c w = sent-in_room i _ _ ∙ sent-get_room i t w

-- The connection `c` plays as `pid` in the room `i`, and is what the room writes to for it.
pub record Seated (c : Writer) (i pid : ℕ) (w : World) : Type 0 where
  pub session : get c w.sessions ≡ some (seat i pid)
  pub plays_there : plays w i pid ≡ true
  pub writes_to : writer_at w i pid ≡ some c

pub join-Seated :
    (t i : ℕ) (c : Writer) (w : World) → Seated c i (join t c i w).0 (joined_world t c i w)
unfolding write
join-Seated t i c w = record {
  session = get-set c c _ (join t c i w).1.sessions ∙ ground arith;
  plays_there = plays-join t i i (join t c i w).0 c w ∙ ground arith;
  writes_to = writer-join t i i (join t c i w).0 c w ∙ ground arith;
}

-- What a JOIN of the room `i` does, from `w` to `w'`: the id was in no room, the connection is seated,
-- nobody else comes or goes or changes connection, and the one write is the JOINED frame to this connection.
pub record Joins (c : Writer) (i pid : ℕ) (w w' : World) : Type 0 where
  pub unused : (j : ℕ) → plays w j pid ≡ false
  pub seated : Seated c i pid w'
  pub others : (j q : ℕ) → plays w' j q ≡ (if (i == j) && (pid == q) then true else plays w j q)
  pub writers :
      (j q : ℕ) → writer_at w' j q ≡ (if (i == j) && (pid == q) then some c else writer_at w j q)
  pub reply : w'.sent ≡ w.sent ++ (c, joined_frame pid i) ∷ []

unused_above : (w : World) (j pid : ℕ) → IsWorld w → w.next_pid < pid → plays w j pid ≡ false
unused_above w j pid v h = elim (Bool-cases (plays w j pid)) [
  | inl there ↦ absurd (omega (arith, v.given j pid there))
  | inr away ↦ away
]

pub joined_world-Joins :
    (t i : ℕ) (c : Writer) (w : World)
    → w.next_pid + 1 < 2 ^ 32
    → IsWorld w
    → Joins c i (w.next_pid + 1) w (joined_world t c i w)
unfolding write
joined_world-Joins t i c w small v =
    subst (λ (pid : ℕ). Joins c i pid w (joined_world t c i w)) (pid-join t i c w small)
      (record {
        unused = λ j. unused_above w j (join t c i w).0 v (omega (arith, pid-join t i c w small));
        seated = join-Seated t i c w;
        others = λ j q. plays-join t i j q c w;
        writers = λ j q. writer-join t i j q c w;
        reply = ap (λ ws. ws ++ (c, joined_frame (join t c i w).0 i) ∷ []) (sent-join t i c w);
      })

-- A JOIN on a connection that is served, while an id is left to give out, gives the connection a
-- player with the next id, which no room had, answers with JOINED, and leaves every other player in
-- its room and on its connection.
pub on_event-join :
    (t i : ℕ) (c : Writer) (s : Session) (w : World)
    → i < 2 ^ 32
    → w.next_pid + 1 < 2 ^ 32
    → IsWorld w
    → get c w.sessions ≡ some s
    → Joins c i (w.next_pid + 1) w (on_event t (receives c (join_payload i)) w)
on_event-join t i c s w fits small v found =
    rw (join_event t c s i w fits found) (joined_world-Joins t i c w small v)

-- A MOVE whose fields fit their widths, of a connection that plays, sets vx, vy and last_seq of its own
-- player to the fields of the message, keeps its id and place and every other player of any room, and
-- writes nothing.
pub on_event-move :
    (t i pid seq j q : ℕ) (dx dy : ℤ) (c : Writer) (w : World)
    → seq < 2 ^ 32
    → InI16 dx
    → InI16 dy
    → get c w.sessions ≡ some (seat i pid)
    → (player_at (on_event t (receives c (move_payload seq dx dy)) w) j q ≡ (
        if (i == j) && (pid == q)
        then Option.map
            (λ p. record { id = p.id; x = p.x; y = p.y; vx = dx; vy = dy; last_seq = seq })
            (player_at w j q)
        else player_at w j q))
      × ((on_event t (receives c (move_payload seq dx dy)) w).sent ≡ w.sent)
unfolding on_event steer
on_event-move t i pid seq j q dx dy c w small hx hy found =
    rw (found, handle_move t c i pid seq dx dy w small hx hy)
      (player-moved i j pid q seq dx dy w, sent-in_room i (Room.move pid seq dx dy) w)

room_of : (w : World) (i pid : ℕ) → plays w i pid ≡ true → (r : Room) × (get i w.rooms ≡ some r)
room_of w i pid h = elim (Option-cases (get i w.rooms)) [
  | inl gone ↦ cc (ap (λ o. plays_in o pid) gone)
  | inr found ↦ found
]

-- The end of a seated connection takes its player out of its room, and no other player out of any.
pub on_event-hangs_up :
    (t i pid j q : ℕ) (c : Writer) (w : World)
    → 0 < pid
    → IsWorld w
    → Seated c i pid w
    → plays (on_event t (hangs_up c) w) j q
      ≡ (if (i == j) && (pid == q) then false else plays w j q)
unfolding on_event finish
on_event-hangs_up t i pid j q c w positive v seated =
    let (r, there) = room_of w i pid seated.plays_there in
    rw (seated.session, ==_ne pid 0 (λ e. omega arith))
      (plays-left i j q pid w r there (v.rooms i r there))
