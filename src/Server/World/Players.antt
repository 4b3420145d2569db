-- ===== src/Server/World/Players.antt =====
-- servers/python/server.py: player ids are unique across the rooms, as long as `new_pid` has not wrapped.
use game_bench.Common.{
  ℕ, ◌+◌, ◌%◌, ◌^◌, ◌<◌, ◌≤◌, ◌≡◌, sym, subst, ◌∙◌, inl, inr, true, ◌&&◌, Option, none, some, arith,
  ◌==◌, ==_iff, if◌then◌else◌, Bool-cases, Option-cases,
}
use game_bench.Py.Int.{ℤ}
use game_bench.Py.Dict.{Dict, get, set, get-set}
use game_bench.Py.Struct.{Bytes}
use game_bench.Server.Room
use game_bench.Server.Room.{Room, Writer, new_room, run_round}
use game_bench.Server.Room.Members.{
  IsRoom, new_room-IsRoom, join-IsRoom, move-IsRoom, leave-IsRoom, run_round-IsRoom,
}
use game_bench.Server.World.{
  World, Session, init, new_pid, get_room, in_room, join, write, leave_of, finish, round,
}
use game_bench.Server.World.Rooms.{
  plays, plays-move, plays-get_room, get_room_found, plays-joined, plays-left, plays-round,
}

-- Every room keeps its invariant; every id in use was given out, and stands in one room only.
pub record IsWorld (w : World) : Type 0 where
  pub rooms : (i : ℕ) (r : Room) → get i w.rooms ≡ some r → IsRoom r
  pub given : (i pid : ℕ) → plays w i pid ≡ true → (0 < pid) × (pid ≤ w.next_pid)
  pub owner : (i j pid : ℕ) → plays w i pid ≡ true → plays w j pid ≡ true → i ≡ j

pub IsWorld-init : IsWorld init
unfolding get
IsWorld-init = record { rooms = λ i r h. cc; given = λ i pid h. cc; owner = λ i j pid h k. cc }

-- A change after which nobody plays who did not play before.
pub fewer :
    (w w' : World)
    → IsWorld w
    → w.next_pid ≡ w'.next_pid
    → ((i : ℕ) (r : Room) → get i w'.rooms ≡ some r → IsRoom r)
    → ((i pid : ℕ) → plays w' i pid ≡ true → plays w i pid ≡ true)
    → IsWorld w'
fewer w w' v next rooms sub = record {
  rooms = rooms;
  given = λ i pid h. let (low, high) = v.given i pid (sub i pid h) in (low, omega arith);
  owner = λ i j pid h k. v.owner i j pid (sub i pid h) (sub j pid k);
}

-- Writing one room keeps the invariant of all rooms.
set-IsRoom :
    (i : ℕ) (r : Room) (d : Dict Room)
    → ((j : ℕ) (s : Room) → get j d ≡ some s → IsRoom s)
    → IsRoom r
    → (j : ℕ) (s : Room) → get j (set i r d) ≡ some s
    → IsRoom s
set-IsRoom i r d all v j s h = elim (Bool-cases (i == j)) [
  | inl here ↦ let e : r ≡ s = ground (arith, get-set j i r d) in subst IsRoom e v
  | inr there ↦ all j s (ground (arith, get-set j i r d))
]

in_room-IsRoom :
    (i : ℕ) (f : Room → Room) (w : World)
    → ((j : ℕ) (s : Room) → get j w.rooms ≡ some s → IsRoom s)
    → ((s : Room) → IsRoom s → IsRoom (f s))
    → (j : ℕ) (s : Room) → get j (in_room i f w).rooms ≡ some s
    → IsRoom s
unfolding in_room
in_room-IsRoom i f w all keep j s h = elim (Option-cases (get i w.rooms)) [
  | inl gone ↦ all j s (rw (gone, in_room) at h)
  | inr (r, found) ↦
      set-IsRoom i (f r) w.rooms all (keep r (all i r found)) j s (rw (found, in_room) at h)
]

pub next-in_room : (i : ℕ) (f : Room → Room) (w : World) → (in_room i f w).next_pid ≡ w.next_pid
unfolding in_room
next-in_room i f w = ground arith

pub next-get_room : (i t : ℕ) (w : World) → (get_room i t w).next_pid ≡ w.next_pid
unfolding get_room
next-get_room i t w = ground arith

get_room-IsWorld : (i t : ℕ) (w : World) → IsWorld w → IsWorld (get_room i t w)
unfolding get_room
get_room-IsWorld i t w v =
    fewer w (get_room i t w) v (sym (next-get_room i t w)) rooms
      (λ j q h. sym (plays-get_room i j q t w) ∙ h)
  where
    rooms : (j : ℕ) (s : Room) → get j (get_room i t w).rooms ≡ some s → IsRoom s
    rooms j s h = elim (Option-cases (get i w.rooms)) [
      | inl gone ↦
          set-IsRoom i (new_room i t) w.rooms v.rooms (new_room-IsRoom i t) j s
            (rw (gone, get_room) at h)
      | inr (r, found) ↦ v.rooms j s (rw (found, get_room) at h)
    ]

added :
    (i pid : ℕ) (c : Writer) (g : World) (r : Room)
    → get i g.rooms ≡ some r
    → IsWorld g
    → g.next_pid < pid
    → pid < 2 ^ 32
    → IsWorld (in_room i (Room.join pid c) (record g { next_pid = pid }))
added i pid c g r found v above small = record {
  rooms = in_room-IsRoom i (Room.join pid c) w v.rooms (λ s. join-IsRoom pid c s small);
  given = λ j q h.
      ground (arith, law j q, v.given j q, next-in_room i (Room.join pid c) w, ==_iff pid q);
  owner = λ j k q h h'. ground (
    arith,
    law j q,
    law k q,
    v.given j q,
    v.given k q,
    v.owner j k q,
    ==_iff i j,
    ==_iff i k,
    ==_iff pid q,
  );
}
  where
    w : World
    w = record g { next_pid = pid }

    law :
        (j q : ℕ)
        → plays (in_room i (Room.join pid c) w) j q
          ≡ (if (i == j) && (pid == q) then true else plays g j q)
    law j q = plays-joined i j q pid c w r found

-- Joining, with an id that was not given out before.
pub joined-IsWorld :
    (tick i : ℕ) (c : Writer) (w : World)
    → w.next_pid + 1 < 2 ^ 32
    → IsWorld w
    → IsWorld (join tick c i w).1
unfolding join new_pid
joined-IsWorld tick i c w small v =
    let (r, found) = get_room_found i tick w in
    let next = next-get_room i tick w in
    added i (((get_room i tick w).next_pid + 1) % 2 ^ 32) c (get_room i tick w) r found
      (get_room-IsWorld i tick w v) (omega arith) (omega arith)

pub steered-IsWorld :
    (i pid seq : ℕ) (dx dy : ℤ) (w : World)
    → seq < 2 ^ 32
    → IsWorld w
    → IsWorld (in_room i (Room.move pid seq dx dy) w)
steered-IsWorld i pid seq dx dy w small v =
    fewer w _ v (sym (next-in_room i (Room.move pid seq dx dy) w))
      (in_room-IsRoom i (Room.move pid seq dx dy) w v.rooms
        (λ s. move-IsRoom pid seq dx dy s small))
      (λ j q h. sym (plays-move i j q pid seq dx dy w) ∙ h)

left-IsWorld : (i pid : ℕ) (w : World) → IsWorld w → IsWorld (in_room i (Room.leave pid) w)
unfolding in_room
left-IsWorld i pid w v = elim (Option-cases (get i w.rooms)) [
  | inl gone ↦ rw (gone, in_room) v
  | inr (r, found) ↦
      fewer w (in_room i (Room.leave pid) w) v (sym (next-in_room i (Room.leave pid) w))
        (in_room-IsRoom i (Room.leave pid) w v.rooms (λ s. leave-IsRoom pid s))
        (λ j q h. ground (arith, plays-left i j q pid w r found (v.rooms i r found)))
]

pub round-IsWorld : (i : ℕ) (w : World) → IsWorld w → IsWorld (round i w)
unfolding round
round-IsWorld i w v = fewer w (round i w) v next rooms (λ j q h. sym (plays-round i j q w) ∙ h)
  where
    next : w.next_pid ≡ (round i w).next_pid
    next = elim (Option-cases (get i w.rooms)) [
      | inl gone ↦ rw (gone, round)
      | inr (r, found) ↦ rw (found, round)
    ]

    rooms : (j : ℕ) (s : Room) → get j (round i w).rooms ≡ some s → IsRoom s
    rooms j s h = elim (Option-cases (get i w.rooms)) [
      | inl gone ↦ v.rooms j s (rw (gone, round) at h)
      | inr (r, found) ↦
          set-IsRoom i (run_round r).0 w.rooms v.rooms (run_round-IsRoom r (v.rooms i r found)) j s
            (rw (found, round) at h)
    ]

-- The fields that the invariant does not read.
pub write-IsWorld : (c : Writer) (bs : Bytes) (w : World) → IsWorld w → IsWorld (write c bs w)
unfolding write
write-IsWorld c bs w v = record { rooms = v.rooms; given = v.given; owner = v.owner }

pub seated-IsWorld :
    (d : Dict Session) (w : World) → IsWorld w → IsWorld (record w { sessions = d })
seated-IsWorld d w v = record { rooms = v.rooms; given = v.given; owner = v.owner }

leave_of-IsWorld : (o : Option ℕ) (pid : ℕ) (w : World) → IsWorld w → IsWorld (leave_of o pid w)
unfolding leave_of
leave_of-IsWorld none pid w v = v
leave_of-IsWorld (some i) pid w v = elim (Bool-cases (pid == 0)) [
  | inl zero_id ↦ rw zero_id v
  | inr other ↦ rw other (left-IsWorld i pid w v)
]

pub finish-IsWorld : (c : Writer) (s : Session) (w : World) → IsWorld w → IsWorld (finish c s w)
unfolding finish
finish-IsWorld c s w v =
    let u : IsWorld (leave_of s.room s.my_pid w) = leave_of-IsWorld s.room s.my_pid w v in
    record { rooms = u.rooms; given = u.given; owner = u.owner }
