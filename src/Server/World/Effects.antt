-- ===== src/Server/World/Effects.antt =====
-- servers/python/server.py: what one message does to the state of the server, whatever its bytes.
use game_bench.Common.{
  ℕ, ◌^◌, ◌<◌, ◌≤◌, ◌≡◌, refl, ap, ◌∙◌, Bool, true, false, ◌&&◌, Option, none, some, [], ◌∷◌, ◌++◌,
  arith, ◌==◌, leb, leb→le, if◌then◌else◌, length,
}
use game_bench.Py.Int.{ℤ}
use game_bench.Py.Result.{Result, ok, ◌>>=◌}
use game_bench.Py.Struct.{Bytes, IsBytes, be32, pack_u32, unpack_u32_in, unpack_i16_in}
use game_bench.Server.Room
use game_bench.Server.Room.{Writer, msg_join, msg_move, msg_joined, frame}
use game_bench.Server.Room.Snapshot.{pack_u32_in_range}
use game_bench.Server.World.{
  World, Session, new_pid, in_room, join, write, on_join, move_in, on_move, handle_payload,
}

-- JOINED: 0x81 | player_id: u32 | room_id: u32, in its frame.
abbrev pub joined_frame : ℕ → ℕ → Bytes
joined_frame pid room_id = be32 9 ++ (msg_joined ∷ be32 pid ++ be32 room_id)

-- The three things that a message can do.
pub data Effect (tick : ℕ) (c : Writer) (s : Session) (w : World) (r : Session × World)
    : Type 0 where
  ignored : r ≡ (s, w) → Effect tick c s w r
  joined :
      (room_id : ℕ)
      → r ≡ (
        record { room = some room_id; my_pid = (join tick c room_id w).0 },
        write c (joined_frame (join tick c room_id w).0 room_id) (join tick c room_id w).1,
      )
      → Effect tick c s w r
  steered :
      (i seq : ℕ) (dx dy : ℤ)
      → s.room ≡ some i
      → seq < 2 ^ 32
      → r ≡ (s, in_room i (Room.move s.my_pid seq dx dy) w)
      → Effect tick c s w r

-- A result that is no exception, and what it did.
abbrev pub Returns : ℕ → Writer → Session → World → Result (Session × World) → Type 0
Returns tick c s w x = (r : Session × World) × (x ≡ ok r) × Effect tick c s w r

pub join_pid-lt :
    (tick : ℕ) (c : Writer) (room_id : ℕ) (w : World) → (join tick c room_id w).0 < 2 ^ 32
unfolding join new_pid
join_pid-lt tick c room_id w = omega arith

pub frame_joined :
    (pid room_id : ℕ)
    → frame (msg_joined ∷ be32 pid ++ be32 room_id) ≡ ok (joined_frame pid room_id)
unfolding frame pack_u32
frame_joined pid room_id = refl

on_join-Returns :
    (tick : ℕ) (c : Writer) (s : Session) (payload : Bytes) (w : World)
    → IsBytes payload
    → 5 ≤ length payload
    → Returns tick c s w (on_join tick c payload w)
unfolding on_join
on_join-Returns tick c s payload w h l =
    let (room_id, read, small) = unpack_u32_in payload 1 l h in
    (
      (
        record { room = some room_id; my_pid = (join tick c room_id w).0 },
        write c (joined_frame (join tick c room_id w).0 room_id) (join tick c room_id w).1,
      ),
      rw (
        read,
        pack_u32_in_range (join tick c room_id w).0 (join_pid-lt tick c room_id w),
        pack_u32_in_range room_id small,
        frame_joined,
      ),
      joined room_id refl,
    )

on_move-Returns :
    (tick : ℕ) (c : Writer) (s : Session) (payload : Bytes) (w : World)
    → IsBytes payload
    → 9 ≤ length payload
    → (o : Option ℕ) → s.room ≡ o
    → Returns tick c s w (on_move s payload w)
unfolding on_move move_in
on_move-Returns tick c s payload w h l none e =
    ((s, w), ap (λ o. move_in o s.my_pid payload w >>= λ w'. ok (s, w')) e, ignored refl)
on_move-Returns tick c s payload w h l (some i) e =
    let (seq, read, small) = unpack_u32_in payload 1 (omega arith) h in
    let (dx, read_x) = unpack_i16_in payload 5 (omega arith) in
    let (dy, read_y) = unpack_i16_in payload 7 (omega arith) in
    (
      (s, in_room i (Room.move s.my_pid seq dx dy) w),
      ap (λ o. move_in o s.my_pid payload w >>= λ w'. ok (s, w')) e ∙ rw (read, read_x, read_y),
      steered i seq dx dy e small refl,
    )

by_tag :
    (tick : ℕ) (c : Writer) (s : Session) (payload : Bytes) (w : World) (joins moves : Bool)
    → IsBytes payload
    → (joins ≡ true → 5 ≤ length payload)
    → (moves ≡ true → 9 ≤ length payload)
    → Returns tick c s w (
        if joins
        then on_join tick c payload w
        else if moves
        then on_move s payload w
        else ok (s, w))
by_tag tick c s payload w true moves h l m = on_join-Returns tick c s payload w h (l refl)
by_tag tick c s payload w false true h l m =
    on_move-Returns tick c s payload w h (m refl) s.room refl
by_tag tick c s payload w false false h l m = ((s, w), refl, ignored refl)

long_enough : (b : Bool) (k n : ℕ) → (b && leb k n) ≡ true → k ≤ n
long_enough true k n h = leb→le k n h
long_enough false k n h = cc

-- A payload of at least one byte never raises: it joins a room, steers the connection's player, or
-- does nothing.
pub handle_payload-Returns :
    (tick : ℕ) (c : Writer) (s : Session) (payload : Bytes) (w : World)
    → IsBytes payload
    → 1 ≤ length payload
    → Returns tick c s w (handle_payload tick c s payload w)
unfolding handle_payload
handle_payload-Returns tick c s [] w h l = absurd (omega arith)
handle_payload-Returns tick c s (t ∷ payload) w h l =
    by_tag tick c s (t ∷ payload) w (t == msg_join && leb 5 (length (t ∷ payload)))
      (t == msg_move && leb 9 (length (t ∷ payload))) h
      (long_enough (t == msg_join) 5 (length (t ∷ payload)))
      (long_enough (t == msg_move) 9 (length (t ∷ payload)))
