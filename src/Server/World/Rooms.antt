-- ===== src/Server/World/Rooms.antt =====
-- servers/python/server.py: which players are in which room, and what each operation does to that.
use mathlib.Core.Option
use game_bench.Common.{
  ℕ, ◌≡◌, refl, ap, ◌∙◌, ◌⊎◌, inl, inr, Bool, true, false, ◌&&◌, Option, none, some, arith, ◌==◌,
  if◌then◌else◌, Bool-cases, Option-cases, ==_iff,
}
use game_bench.Py.Int.{ℤ}
use game_bench.Py.Dict.{Dict, get, get-set, get-pop_ne, get-pop_self}
use game_bench.Py.Result.{Result, ok, raise}
use game_bench.Server.Room
use game_bench.Server.Room.{
  Player, Room, Writer, Writes, Task, running, failed, Task-cases, new_room, advance_all, moved,
  step, after_step, run_round, run_round_running, run_round_failed,
}
use game_bench.Server.Room.Members.{IsRoom, get-advance_all}
use game_bench.Server.World.{World, in_room, get_room, round, end_round}

abbrev pub is_some {ℓ} : {A : Type ℓ} → Option A → Bool
is_some none = false
is_some (some a) = true

abbrev pub has {ℓ} : {V : Type ℓ} → ℕ → Dict V → Bool
has k d = is_some (get k d)

-- Who plays in one room, and the connection that it writes to for a player.
abbrev pub plays_in : Option Room → ℕ → Bool
plays_in none pid = false
plays_in (some r) pid = has pid r.players

abbrev pub writer_in : Option Room → ℕ → Option Writer
writer_in none pid = none
writer_in (some r) pid = get pid r.conns

-- Player `pid` is in the room `i`.
abbrev pub plays : World → ℕ → ℕ → Bool
plays w i pid = plays_in (get i w.rooms) pid

abbrev pub writer_at : World → ℕ → ℕ → Option Writer
writer_at w i pid = writer_in (get i w.rooms) pid

pub get-in_room :
    (i j : ℕ) (f : Room → Room) (w : World)
    → get j (in_room i f w).rooms ≡ (if i == j then Option.map f (get j w.rooms) else get j w.rooms)
unfolding in_room
get-in_room i j f w = elim (Option-cases (get i w.rooms)) [
  | inl gone ↦ rw (gone, in_room) (ground (arith, ==_iff i j))
  | inr (r, found) ↦
      rw (found, in_room) (rw (get-set j i (f r) w.rooms) (ground (arith, ==_iff i j)))
]

has-join :
    (pid q : ℕ) (c : Writer) (r : Room)
    → has q (Room.join pid c r).players ≡ (if pid == q then true else has q r.players)
unfolding Room.join
has-join pid q c r = ground (arith, get-set q pid (Room.new_player pid) r.players)

has-move :
    (pid q seq : ℕ) (dx dy : ℤ) (r : Room)
    → has q (Room.move pid seq dx dy r).players ≡ has q r.players
unfolding Room.move Room.steer
has-move pid q seq dx dy r = elim (Option-cases (get pid r.players)) [
  | inl gone ↦ rw (gone, Room.move)
  | inr (p, found) ↦
      rw (found, Room.move)
        (rw (get-set q pid (Room.steer seq dx dy p) r.players) (ground (arith, ==_iff pid q)))
]

has-leave :
    (pid q : ℕ) (r : Room)
    → IsRoom r
    → has q (Room.leave pid r).players ≡ (if pid == q then false else has q r.players)
unfolding Room.leave
has-leave pid q r v =
    ground (arith, get-pop_self q r.players v.players, get-pop_ne q pid r.players, ==_iff pid q)

has-moved : (q : ℕ) (r : Room) → has q (moved r).players ≡ has q r.players
unfolding moved
has-moved q r = ground (arith, get-advance_all q r.players)

has-after :
    (q : ℕ) (r : Room) (x : Result Writes)
    → has q (after_step (moved r) x).0.players ≡ has q r.players
unfolding after_step
has-after q r (ok ws) = has-moved q r
has-after q r (raise e) = has-moved q r

has-run_round : (q : ℕ) (r : Room) → has q (run_round r).0.players ≡ has q r.players
unfolding step
has-run_round q r = elim (Task-cases r.task) [
  | inl going ↦ rw (run_round_running r going) (has-after q r (step r).1)
  | inr ended ↦ rw (run_round_failed r ended)
]

-- An operation on one room, by what it does to the players there.
plays-in_room :
    (i j q : ℕ) (f : Room → Room) (w : World)
    → plays (in_room i f w) j q
      ≡ (if i == j then plays_in (Option.map f (get j w.rooms)) q else plays w j q)
plays-in_room i j q f w =
    ap (λ o. plays_in o q) (get-in_room i j f w)
    ∙ plays_in-if (i == j) (Option.map f (get j w.rooms)) (get j w.rooms) q
  where
    plays_in-if :
        (b : Bool) (o o' : Option Room) (q : ℕ)
        → plays_in (if b then o else o') q ≡ (if b then plays_in o q else plays_in o' q)
    plays_in-if true o o' q = refl
    plays_in-if false o o' q = refl

-- A room operation that keeps the players of each room keeps them all.
keeps_players :
    (i j q : ℕ) (f : Room → Room) (w : World)
    → ((r : Room) → has q (f r).players ≡ has q r.players)
    → plays (in_room i f w) j q ≡ plays w j q
keeps_players i j q f w keep = rw (plays-in_room i j q f w) (go (i == j) (get j w.rooms))
  where
    go :
        (b : Bool) (o : Option Room)
        → (if b then plays_in (Option.map f o) q else plays_in o q) ≡ plays_in o q
    go true none = refl
    go true (some r) = keep r
    go false o = refl

pub plays-move :
    (i j q pid seq : ℕ) (dx dy : ℤ) (w : World)
    → plays (in_room i (Room.move pid seq dx dy) w) j q ≡ plays w j q
plays-move i j q pid seq dx dy w =
    keeps_players i j q (Room.move pid seq dx dy) w (λ r. has-move pid q seq dx dy r)

nobody : (i t q : ℕ) → has q (new_room i t).players ≡ false
unfolding new_room get
nobody i t q = refl

pub plays-get_room : (i j q t : ℕ) (w : World) → plays (get_room i t w) j q ≡ plays w j q
unfolding get_room
plays-get_room i j q t w = elim (Option-cases (get i w.rooms)) [
  | inl gone ↦
      rw (gone, get_room)
        (rw (get-set j i (new_room i t) w.rooms) (new_empty (Bool-cases (i == j)) gone))
  | inr (r, found) ↦ rw (found, get_room)
]
  where
    new_empty :
        ((i == j) ≡ true) ⊎ ((i == j) ≡ false)
        → get i w.rooms ≡ none
        → plays_in (if i == j then some (new_room i t) else get j w.rooms) q ≡ plays w j q
    new_empty (inl here) gone = rw here (rw (← (==_iff i j).0 here, gone) (nobody i t q))
    new_empty (inr there) gone = rw there

-- After `get_room` the room is there.
pub get_room_found : (i t : ℕ) (w : World) → (r : Room) × (get i (get_room i t w).rooms ≡ some r)
unfolding get_room
get_room_found i t w = elim (Option-cases (get i w.rooms)) [
  | inl gone ↦ rw (gone, get_room) (new_room i t, get-set i i (new_room i t) w.rooms ∙ ground arith)
  | inr (r, found) ↦ rw (found, get_room) (r, found)
]

pub plays-joined :
    (i j q pid : ℕ) (c : Writer) (w : World) (r : Room)
    → get i w.rooms ≡ some r
    → plays (in_room i (Room.join pid c) w) j q
      ≡ (if (i == j) && (pid == q) then true else plays w j q)
plays-joined i j q pid c w r found =
    rw (plays-in_room i j q (Room.join pid c) w) (elim (Bool-cases (i == j)) [
      | inl here ↦
          let e : i ≡ j = (==_iff i j).0 here in
          rw (here, ← e, found, has-join pid q c r) (ground arith)
      | inr there ↦ rw there
    ])

pub plays-left :
    (i j q pid : ℕ) (w : World) (r : Room)
    → get i w.rooms ≡ some r
    → IsRoom r
    → plays (in_room i (Room.leave pid) w) j q
      ≡ (if (i == j) && (pid == q) then false else plays w j q)
plays-left i j q pid w r found v =
    rw (plays-in_room i j q (Room.leave pid) w) (elim (Bool-cases (i == j)) [
      | inl here ↦
          let e : i ≡ j = (==_iff i j).0 here in
          rw (here, ← e, found, has-leave pid q r v) (ground arith)
      | inr there ↦ rw there
    ])

pub plays-round : (i j q : ℕ) (w : World) → plays (round i w) j q ≡ plays w j q
unfolding round end_round
plays-round i j q w = elim (Option-cases (get i w.rooms)) [
  | inl gone ↦ rw (gone, round)
  | inr (r, found) ↦
      rw (found, round)
        (rw (get-set j i (run_round r).0 w.rooms) (elim (Bool-cases (i == j)) [
          | inl here ↦
              let e : i ≡ j = (==_iff i j).0 here in rw (here, ← e, found) (has-run_round q r)
          | inr there ↦ rw there
        ]))
]
