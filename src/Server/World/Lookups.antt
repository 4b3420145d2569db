-- ===== src/Server/World/Lookups.antt =====
-- servers/python/server.py: a player's state and connection, read after each operation on a room.
use mathlib.Core.Option
use game_bench.Common.{
  ℕ, ◌≡◌, refl, ap, ◌∙◌, inl, inr, Bool, true, false, ◌&&◌, Option, none, some, arith, ◌==◌, ==_iff,
  if◌then◌else◌, Bool-cases, Option-cases,
}
use game_bench.Py.Int.{ℤ}
use game_bench.Py.Dict.{get, get-set, get-pop_ne}
use game_bench.Server.Room
use game_bench.Server.Room.{Player, Room, Writer, new_room, msg_join, msg_move, steer, frame}
use game_bench.Server.World.{World, get_room, in_room}
use game_bench.Server.World.Rooms.{writer_at, writer_in, get-in_room}

abbrev pub player_in : Option Room → ℕ → Option Player
player_in none pid = none
player_in (some r) pid = get pid r.players

abbrev pub player_at : World → ℕ → ℕ → Option Player
player_at w i pid = player_in (get i w.rooms) pid

-- What one reads of a room, after an operation on a room.
at_room {ℓ} :
    {A : Type ℓ} (P : Option Room → A) (i j : ℕ) (f : Room → Room) (w : World)
    → P (get j (in_room i f w).rooms)
      ≡ (if i == j then P (Option.map f (get j w.rooms)) else P (get j w.rooms))
at_room P i j f w =
    ap P (get-in_room i j f w) ∙ both (i == j) (Option.map f (get j w.rooms)) (get j w.rooms)
  where
    both : (b : Bool) (o o' : Option Room) → P (if b then o else o') ≡ (if b then P o else P o')
    both true o o' = refl
    both false o o' = refl

moved_in :
    (pid q seq : ℕ) (dx dy : ℤ) (o : Option Room)
    → player_in (Option.map (Room.move pid seq dx dy) o) q
      ≡ (if pid == q then Option.map (steer seq dx dy) (player_in o q) else player_in o q)
unfolding Room.move
moved_in pid q seq dx dy none = ground arith
moved_in pid q seq dx dy (some r) = elim (Option-cases (get pid r.players)) [
  | inl gone ↦ rw (gone, Room.move) (ground (arith, ==_iff pid q))
  | inr (p, found) ↦
      rw (found, Room.move)
        (rw (get-set q pid (steer seq dx dy p) r.players) (ground (arith, ==_iff pid q)))
]

pub player-moved :
    (i j pid q seq : ℕ) (dx dy : ℤ) (w : World)
    → player_at (in_room i (Room.move pid seq dx dy) w) j q ≡ (
        if (i == j) && (pid == q)
        then Option.map (steer seq dx dy) (player_at w j q)
        else player_at w j q)
player-moved i j pid q seq dx dy w =
    rw
      (
        at_room (λ o. player_in o q) i j (Room.move pid seq dx dy) w,
        moved_in pid q seq dx dy (get j w.rooms),
      )
      (tests (i == j) (pid == q) _ _)
  where
    tests :
        (a b : Bool) (x y : Option Player)
        → (if a then (if b then x else y) else y) ≡ (if a && b then x else y)
    tests true b x y = refl
    tests false b x y = refl

nobody : (i t q : ℕ) → get q (new_room i t).conns ≡ none
unfolding new_room get
nobody i t q = refl

pub writer-get_room : (i j q t : ℕ) (w : World) → writer_at (get_room i t w) j q ≡ writer_at w j q
unfolding get_room
writer-get_room i j q t w = elim (Option-cases (get i w.rooms)) [
  | inl gone ↦
      rw (gone, get_room)
        (rw (get-set j i (new_room i t) w.rooms) (elim (Bool-cases (i == j)) [
          | inl here ↦ rw here (rw (← (==_iff i j).0 here, gone) (nobody i t q))
          | inr there ↦ rw there
        ]))
  | inr (r, found) ↦ rw (found, get_room)
]

pub writer-joined :
    (i j q pid : ℕ) (c : Writer) (w : World) (r : Room)
    → get i w.rooms ≡ some r
    → writer_at (in_room i (Room.join pid c) w) j q
      ≡ (if (i == j) && (pid == q) then some c else writer_at w j q)
unfolding Room.join
writer-joined i j q pid c w r found =
    rw (at_room (λ o. writer_in o q) i j (Room.join pid c) w) (elim (Bool-cases (i == j)) [
      | inl here ↦ rw (here, ← (==_iff i j).0 here, found) (get-set q pid c r.conns ∙ ground arith)
      | inr there ↦ rw there
    ])

kept :
    (pid q : ℕ) (o : Option Room)
    → (pid == q) ≡ false
    → writer_in (Option.map (Room.leave pid) o) q ≡ writer_in o q
unfolding Room.leave
kept pid q none h = refl
kept pid q (some r) h = get-pop_ne q pid r.conns (λ e. ground (arith, ==_iff pid q))

pub writer-left :
    (i j q pid : ℕ) (w : World)
    → ((i == j) && (pid == q)) ≡ false
    → writer_at (in_room i (Room.leave pid) w) j q ≡ writer_at w j q
writer-left i j q pid w h =
    rw (at_room (λ o. writer_in o q) i j (Room.leave pid) w) (elim (Bool-cases (i == j)) [
      | inl here ↦ rw here (kept pid q (get j w.rooms) (other h here))
      | inr there ↦ rw there
    ])
  where
    other : {a b : Bool} → (a && b) ≡ false → a ≡ true → b ≡ false
    other h e = ground arith
