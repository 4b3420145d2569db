-- ===== src/Server/World/Rejoin.antt =====
-- servers/python/server.py: a second JOIN on one connection. `handle` overwrites `room` and `my_pid`
-- without leaving the first room, so its `finally` takes out the second player only.
use game_bench.Common.{
  ℕ, ◌+◌, ◌%◌, ◌^◌, ◌<◌, ◌≡◌, refl, sym, ap, ◌∙◌, true, false, ◌&&◌, some, List, [], ◌∷◌, ◌++◌, map,
  length, arith, ◌==◌, ==_ne, Bool-cases, inl, inr,
}
use game_bench.Py.Dict.{Dict, get, values}
use game_bench.Py.Result.{ok}
use game_bench.Py.Struct.{Bytes, be32}
use game_bench.Server.Room.{Writer, Writes, Room, running, broadcast, advance, run_round}
use game_bench.Server.Room.Lifetime.{CanPack, run_round-broadcast}
use game_bench.Server.Room.Protocol.{seen, decode_snapshot}
use game_bench.Server.World.{
  World, Session, finish, leave_of, write, receives, hangs_up, ticks, on_event, serve, round,
  end_round,
}
use game_bench.Server.World.Rooms.{plays, writer_at, writer_in}
use game_bench.Server.World.Lookups.{writer-left}
use game_bench.Server.World.Players.{IsWorld}
use game_bench.Server.World.Runs.{ended-IsWorld, on_event-IsWorld, next-join}
use game_bench.Server.World.Connection.{
  join_payload, seat, join_event, Joins, on_event-join, on_event-hangs_up,
}

next-join_event :
    (t i : ℕ) (c : Writer) (s : Session) (w : World)
    → i < 2 ^ 32
    → w.next_pid + 1 < 2 ^ 32
    → get c w.sessions ≡ some s
    → (on_event t (receives c (join_payload i)) w).next_pid ≡ w.next_pid + 1
unfolding write
next-join_event t i c s w fits small found =
    rw (join_event t c s i w fits found) (omega (arith, next-join t i c w))

join_event-IsWorld :
    (t i : ℕ) (c : Writer) (w : World)
    → i < 2 ^ 32
    → w.next_pid + 1 < 2 ^ 32
    → IsWorld w
    → IsWorld (on_event t (receives c (join_payload i)) w)
join_event-IsWorld t i c w fits small v =
    on_event-IsWorld t (receives c (join_payload i)) w (omega arith) small v

-- The end of a connection takes no other player off its connection.
writer-hangs_up :
    (t i pid j q : ℕ) (c : Writer) (w : World)
    → 0 < pid
    → get c w.sessions ≡ some (seat i pid)
    → ((i == j) && (pid == q)) ≡ false
    → writer_at (on_event t (hangs_up c) w) j q ≡ writer_at w j q
unfolding on_event finish
writer-hangs_up t i pid j q c w positive seated other =
    rw (seated, ==_ne pid 0 (λ e. omega arith)) (writer-left i j q pid w other)

another : (b a p q : ℕ) → q < p → ((b == a) && (p == q)) ≡ false
another b a p q h = ground arith

-- A connection JOINs the rooms a and b (the same or another) and then ends.
abbrev pub rejoined : ℕ → ℕ → ℕ → Writer → World → World
rejoined t a b c w =
    serve t (receives c (join_payload a) ∷ receives c (join_payload b) ∷ hangs_up c ∷ []) w

closed-hangs_up :
    (t : ℕ) (c : Writer) (s : Session) (w : World)
    → get c w.sessions ≡ some s
    → (earlier : List Writer) × ((on_event t (hangs_up c) w).closed ≡ earlier ++ c ∷ [])
unfolding on_event finish
closed-hangs_up t c s w found = ((leave_of s.room s.my_pid w).closed, rw found refl)

hangs_up-IsWorld :
    (t : ℕ) (c : Writer) (w : World) → IsWorld w → IsWorld (on_event t (hangs_up c) w)
unfolding on_event
hangs_up-IsWorld t c w v = ended-IsWorld c w (get c w.sessions) v

-- Then the connection is closed, and the room a still has its first player and the connection for it.
rejoin_stays :
    (t a b : ℕ) (c : Writer) (s : Session) (w : World)
    → a < 2 ^ 32
    → b < 2 ^ 32
    → w.next_pid + 2 < 2 ^ 32
    → IsWorld w
    → get c w.sessions ≡ some s
    → (plays (rejoined t a b c w) a (w.next_pid + 1) ≡ true)
      × (writer_at (rejoined t a b c w) a (w.next_pid + 1) ≡ some c)
      × ((earlier : List Writer) × ((rejoined t a b c w).closed ≡ earlier ++ c ∷ []))
      × IsWorld (rejoined t a b c w)
unfolding serve
rejoin_stays t a b c s w fits_a fits_b small v found = (
  on_event-hangs_up t b pid₂ a (w.next_pid + 1) c w₂ (omega arith) v₂ second.seated
      ∙ rw (apart) (second.others a (w.next_pid + 1) ∙ rw (apart) first.seated.plays_there),
  writer-hangs_up t b pid₂ a (w.next_pid + 1) c w₂ (omega arith) second.seated.session apart
      ∙ (second.writers a (w.next_pid + 1) ∙ rw (apart) first.seated.writes_to),
  closed-hangs_up t c (seat b pid₂) w₂ second.seated.session,
  hangs_up-IsWorld t c w₂ v₂,
)
  where
    w₁ : World
    w₁ = on_event t (receives c (join_payload a)) w

    w₂ : World
    w₂ = on_event t (receives c (join_payload b)) w₁

    next : w₁.next_pid ≡ w.next_pid + 1
    next = next-join_event t a c s w fits_a (omega arith) found

    pid₂ : ℕ
    pid₂ = w₁.next_pid + 1

    v₁ : IsWorld w₁
    v₁ = join_event-IsWorld t a c w fits_a (omega arith) v

    first : Joins c a (w.next_pid + 1) w w₁
    first = on_event-join t a c s w fits_a (omega arith) v found

    v₂ : IsWorld w₂
    v₂ = join_event-IsWorld t b c w₁ fits_b (omega (arith, next)) v₁

    second : Joins c b pid₂ w₁ w₂
    second =
        on_event-join t b c (seat a (w.next_pid + 1)) w₁ fits_b (omega (arith, next)) v₁
          first.seated.session

    apart : ((b == a) && (pid₂ == w.next_pid + 1)) ≡ false
    apart = another b a pid₂ (w.next_pid + 1) (omega (arith, next))

sent-ticks :
    (t a : ℕ) (w : World) (r : Room)
    → get a w.rooms ≡ some r
    → (on_event t (ticks a) w).sent ≡ w.sent ++ (run_round r).1
unfolding on_event round end_round
sent-ticks t a w r here = rw (round, here)

-- A connection that a dict of connections holds is written to.
broadcast-held :
    (pid : ℕ) (c : Writer) (f : Bytes) (conns : Dict Writer)
    → get pid conns ≡ some c
    → (before : Writes) × (after : Writes) × (broadcast f (values conns) ≡ before ++ (c, f) ∷ after)
unfolding get
broadcast-held pid c f [] h = cc
broadcast-held pid c f ((q, d) ∷ conns) h = elim (Bool-cases (q == pid)) [
  | inl same ↦
      let e : d ≡ c = ground arith in
      ([], broadcast f (values conns), ap (λ (u : Writer). (u, f) ∷ broadcast f (values conns)) e)
  | inr other ↦
      let later = broadcast-held pid c f conns (ground arith) in
      ((d, f) ∷ later.0, later.1, ap (λ (ws : Writes). (d, f) ∷ ws) later.2)
]

-- In a state that keeps the invariant, with two ids left, a served connection JOINs the rooms a and b
-- (the same or another) and then ends. Then it is the last connection that was closed, its first player
-- is still in the room a, and if that room runs and can pack its next snapshot, its next round writes
-- a frame to the closed connection, from whose payload a client reads the players after their move.
pub rejoin_writes :
    (t a b : ℕ) (c : Writer) (s : Session) (w : World) (r : Room)
    → a < 2 ^ 32
    → b < 2 ^ 32
    → w.next_pid + 2 < 2 ^ 32
    → IsWorld w
    → get c w.sessions ≡ some s
    → get a (rejoined t a b c w).rooms ≡ some r
    → r.task ≡ running
    → CanPack r
    → ((earlier : List Writer) × ((rejoined t a b c w).closed ≡ earlier ++ c ∷ []))
      × (plays (rejoined t a b c w) a (w.next_pid + 1) ≡ true)
      × ((buf : Bytes) × (before : Writes) × (after : Writes) × ((on_event t
              (ticks a)
              (rejoined t a b c w)).sent
            ≡ (rejoined t a b c w).sent ++ (before ++ (c, be32 (length buf) ++ buf) ∷ after))
          × (decode_snapshot buf
              ≡ ok ((r.tick_no + 1) % 2 ^ 32, map (λ p. seen (advance p)) (values r.players))))
rejoin_writes t a b c s w r fits_a fits_b small v found here going can =
    let after = rejoined t a b c w in
    let stays = rejoin_stays t a b c s w fits_a fits_b small v found in
    let sends = run_round-broadcast r (stays.3.rooms a r here) going can in
    let f = be32 (length sends.0) ++ sends.0 in
    let held =
      broadcast-held (w.next_pid + 1) c f r.conns
        (sym (ap (λ o. writer_in o (w.next_pid + 1)) here) ∙ stays.1) in
    (
      stays.2,
      stays.0,
      (
        sends.0,
        held.0,
        held.1,
        sent-ticks t a after r here
            ∙ ap (λ (x : Room × Writes). after.sent ++ x.1) sends.1
            ∙ ap (λ (ws : Writes). after.sent ++ ws) held.2,
        sends.2,
      ),
    )
