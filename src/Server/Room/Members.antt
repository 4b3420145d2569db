-- ===== src/Server/Room/Members.antt =====
-- servers/python/server.py: the invariant of a room, which every method of `Room` keeps.
use game_bench.Common.{
  ℕ, ◌^◌, ◌<◌, ◌≡◌, refl, ap, ◌∙◌, inl, inr, some, [], ◌∷◌, map, arith, Option-cases,
}
use mathlib.Core.Option
use game_bench.Py.Int.{ℤ}
use game_bench.Py.Dict.{
  Dict, get, set, keys, values, IsDict, Entries, set-IsDict, pop-IsDict, keys-set_same,
  keys-pop_same, keys-set_old, set-Entries, pop-Entries, Entries_at,
}
use game_bench.Py.Result.{Result, ok, raise}
use game_bench.Server.Room.{
  Player, Room, Writer, Writes, Task-cases, new_player, new_room, join, steer, move, leave, advance,
  advance_all, moved, step, after_step, run_round, run_round_running, run_round_failed,
}

-- A player stands under its own id, and what it echoes fits a u32.
pub record IsPlayer (pid : ℕ) (p : Player) : Type 0 where
  pub id : p.id ≡ pid
  pub width : pid < 2 ^ 32
  pub seq : p.last_seq < 2 ^ 32

-- `players` and `conns` are dicts with the same keys in the same order.
pub record IsRoom (r : Room) : Type 0 where
  pub players : IsDict r.players
  pub conns : IsDict r.conns
  pub same : keys r.players ≡ keys r.conns
  pub each : Entries IsPlayer r.players
  pub tick : r.tick_no < 2 ^ 32

pub new_room-IsRoom : (id tick : ℕ) → IsRoom (new_room id tick)
unfolding new_room
new_room-IsRoom id tick = record {
  players = tt;
  conns = tt;
  same = refl;
  each = tt;
  tick = omega arith;
}

pub join-IsRoom :
    (pid : ℕ) (w : Writer) (r : Room) → pid < 2 ^ 32 → IsRoom r → IsRoom (join pid w r)
unfolding join
join-IsRoom pid w r h v = record {
  players = set-IsDict pid (new_player pid) r.players v.players;
  conns = set-IsDict pid w r.conns v.conns;
  same = keys-set_same pid (new_player pid) w r.players r.conns v.same;
  each =
      set-Entries IsPlayer pid (new_player pid) r.players
        (record { id = refl; width = h; seq = omega arith }) v.each;
  tick = v.tick;
}

steered :
    (pid seq : ℕ) (dx dy : ℤ) (r : Room) (p : Player)
    → seq < 2 ^ 32
    → get pid r.players ≡ some p
    → IsRoom r
    → IsRoom (record r { players = set pid (steer seq dx dy p) r.players })
unfolding steer
steered pid seq dx dy r p h g v =
    let old = Entries_at IsPlayer pid r.players v.each g in
    record {
      players = set-IsDict pid (steer seq dx dy p) r.players v.players;
      conns = v.conns;
      same = keys-set_old pid (steer seq dx dy p) p r.players g ∙ v.same;
      each =
          set-Entries IsPlayer pid (steer seq dx dy p) r.players
            (record { id = old.id; width = old.width; seq = h }) v.each;
      tick = v.tick;
    }

pub move-IsRoom :
    (pid seq : ℕ) (dx dy : ℤ) (r : Room) → seq < 2 ^ 32 → IsRoom r → IsRoom (move pid seq dx dy r)
unfolding move
move-IsRoom pid seq dx dy r h v = elim (Option-cases (get pid r.players)) [
  | inl gone ↦ rw (gone, move) v
  | inr (p, found) ↦ rw (found, move) (steered pid seq dx dy r p h found v)
]

pub leave-IsRoom : (pid : ℕ) (r : Room) → IsRoom r → IsRoom (leave pid r)
unfolding leave
leave-IsRoom pid r v = record {
  players = pop-IsDict pid r.players v.players;
  conns = pop-IsDict pid r.conns v.conns;
  same = keys-pop_same pid r.players r.conns v.same;
  each = pop-Entries IsPlayer pid r.players v.each;
  tick = v.tick;
}

pub get-advance_all :
    (k : ℕ) (d : Dict Player) → get k (advance_all d) ≡ Option.map advance (get k d)
unfolding advance_all get
get-advance_all k [] = refl
get-advance_all k ((i, p) ∷ d) = ground (arith, get-advance_all k d)

pub keys-advance_all : (d : Dict Player) → keys (advance_all d) ≡ keys d
unfolding advance_all
keys-advance_all [] = refl
keys-advance_all ((i, p) ∷ d) = rw (keys-advance_all d)

pub values-advance_all : (d : Dict Player) → values (advance_all d) ≡ map advance (values d)
unfolding advance_all
values-advance_all [] = refl
values-advance_all ((i, p) ∷ d) = rw (values-advance_all d)

advance_all-IsDict : (d : Dict Player) → IsDict d → IsDict (advance_all d)
unfolding advance_all
advance_all-IsDict [] h = tt
advance_all-IsDict ((i, p) ∷ d) h =
    (get-advance_all i d ∙ ap (Option.map advance) h.0, advance_all-IsDict d h.1)

advance_all-Entries : (d : Dict Player) → Entries IsPlayer d → Entries IsPlayer (advance_all d)
unfolding advance_all advance
advance_all-Entries [] h = tt
advance_all-Entries ((i, p) ∷ d) h =
    (record { id = h.0.id; width = h.0.width; seq = h.0.seq }, advance_all-Entries d h.1)

pub moved-IsRoom : (r : Room) → IsRoom r → IsRoom (moved r)
unfolding moved
moved-IsRoom r v = record {
  players = advance_all-IsDict r.players v.players;
  conns = v.conns;
  same = keys-advance_all r.players ∙ v.same;
  each = advance_all-Entries r.players v.each;
  tick = omega arith;
}

after_step-IsRoom : (r : Room) (x : Result Writes) → IsRoom r → IsRoom (after_step r x).0
unfolding after_step
after_step-IsRoom r (ok ws) v = v
after_step-IsRoom r (raise e) v = record {
  players = v.players;
  conns = v.conns;
  same = v.same;
  each = v.each;
  tick = v.tick;
}

-- A round keeps the invariant, whether the step ends or raises.
pub run_round-IsRoom : (r : Room) → IsRoom r → IsRoom (run_round r).0
unfolding step
run_round-IsRoom r v = elim (Task-cases r.task) [
  | inl going ↦
      rw (run_round_running r going) (after_step-IsRoom (moved r) (step r).1 (moved-IsRoom r v))
  | inr ended ↦ rw (run_round_failed r ended) v
]
