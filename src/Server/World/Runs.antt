-- ===== src/Server/World/Runs.antt =====
-- servers/python/server.py: runs of the server, any number of messages, ends and ticks in any order.
use game_bench.Common.{
  ℕ, ◌+◌, ◌%◌, ◌^◌, ◌<◌, ◌≤◌, ◌≡◌, refl, sym, ap, subst, ◌∙◌, Option, none, some, List, [], ◌∷◌,
  arith, length, All,
}
use game_bench.Py.Dict.{get}
use game_bench.Py.Struct.{Bytes, IsBytes}
use game_bench.Server.Room
use game_bench.Server.Room.{Room, Writer, new_room, run_round}
use game_bench.Server.World.{
  World, Session, new_pid, join, write, leave_of, finish, round, Event, accepts, receives, hangs_up,
  ticks, after_message, received, ended, on_event, serve,
}
use game_bench.Server.World.Effects.{Effect, ignored, joined, steered, handle_payload-Returns}
use game_bench.Server.World.Players.{
  IsWorld, write-IsWorld, seated-IsWorld, finish-IsWorld, joined-IsWorld, steered-IsWorld,
  round-IsWorld, next-in_room, next-get_room,
}

Effect-IsWorld :
    (t : ℕ) (c : Writer) (s : Session) (w : World) (r : Session × World)
    → w.next_pid + 1 < 2 ^ 32
    → IsWorld w
    → Effect t c s w r
    → IsWorld r.1
Effect-IsWorld t c s w r small v (ignored e) =
    subst (λ (x : Session × World). IsWorld x.1) (sym e) v
Effect-IsWorld t c s w r small v (joined i e) =
    subst (λ (x : Session × World). IsWorld x.1) (sym e)
      (write-IsWorld c _ (join t c i w).1 (joined-IsWorld t i c w small v))
Effect-IsWorld t c s w r small v (steered i seq dx dy _ fits e) =
    subst (λ (x : Session × World). IsWorld x.1) (sym e)
      (steered-IsWorld i s.my_pid seq dx dy w fits v)

-- What `reader.readexactly(n)` hands over, n ≥ 1: some bytes.
abbrev pub IsEvent : Event → Type 0
IsEvent (receives c payload) = IsBytes payload × (1 ≤ length payload)
IsEvent _ = Unit

received-IsWorld :
    (t : ℕ) (c : Writer) (payload : Bytes) (w : World) (o : Option Session)
    → IsBytes payload
    → 1 ≤ length payload
    → w.next_pid + 1 < 2 ^ 32
    → IsWorld w
    → IsWorld (received t c payload w o)
unfolding received after_message
received-IsWorld t c payload w none h l small v = v
received-IsWorld t c payload w (some s) h l small v =
    let (r, e, effect) = handle_payload-Returns t c s payload w h l in
    rw e (seated-IsWorld _ r.1 (Effect-IsWorld t c s w r small v effect))

pub ended-IsWorld :
    (c : Writer) (w : World) (o : Option Session) → IsWorld w → IsWorld (ended c w o)
unfolding ended
ended-IsWorld c w none v = v
ended-IsWorld c w (some s) v = finish-IsWorld c s w v

-- Every event keeps the invariant while an id is left to give out.
pub on_event-IsWorld :
    (period : ℕ) (e : Event) (w : World)
    → IsEvent e
    → w.next_pid + 1 < 2 ^ 32
    → IsWorld w
    → IsWorld (on_event period e w)
unfolding on_event
on_event-IsWorld period (accepts c) w is_e small v = seated-IsWorld _ w v
on_event-IsWorld period (receives c payload) w is_e small v =
    received-IsWorld period c payload w (get c w.sessions) is_e.0 is_e.1 small v
on_event-IsWorld period (hangs_up c) w is_e small v = ended-IsWorld c w (get c w.sessions) v
on_event-IsWorld period (ticks i) w is_e small v = round-IsWorld i w v

-- One event gives out one id at most.
pub next-join :
    (t i : ℕ) (c : Writer) (w : World) → (join t c i w).1.next_pid ≡ (w.next_pid + 1) % 2 ^ 32
unfolding join new_pid
next-join t i c w = next-in_room i _ _ ∙ ap (λ n. (n + 1) % 2 ^ 32) (next-get_room i t w)

Effect-next :
    (t : ℕ) (c : Writer) (s : Session) (w : World) (r : Session × World)
    → w.next_pid + 1 < 2 ^ 32
    → Effect t c s w r
    → r.1.next_pid ≤ w.next_pid + 1
unfolding write
Effect-next t c s w r small (ignored e) =
    let same = ap (λ (x : Session × World). x.1.next_pid) e in omega arith
Effect-next t c s w r small (joined i e) =
    let same = ap (λ (x : Session × World). x.1.next_pid) e in omega (arith, next-join t i c w)
Effect-next t c s w r small (steered i seq dx dy _ _ e) =
    let same = ap (λ (x : Session × World). x.1.next_pid) e in
    omega (arith, next-in_room i (Room.move s.my_pid seq dx dy) w)

next-leave_of : (o : Option ℕ) (pid : ℕ) (w : World) → (leave_of o pid w).next_pid ≡ w.next_pid
unfolding leave_of
next-leave_of none pid w = refl
next-leave_of (some i) pid w = ground (arith, next-in_room i (Room.leave pid) w)

next-received :
    (t : ℕ) (c : Writer) (payload : Bytes) (w : World) (o : Option Session)
    → IsBytes payload
    → 1 ≤ length payload
    → w.next_pid + 1 < 2 ^ 32
    → (received t c payload w o).next_pid ≤ w.next_pid + 1
unfolding received after_message
next-received t c payload w none h l small = omega arith
next-received t c payload w (some s) h l small =
    let (r, e, effect) = handle_payload-Returns t c s payload w h l in
    rw e (Effect-next t c s w r small effect)

next-ended : (c : Writer) (w : World) (o : Option Session) → (ended c w o).next_pid ≡ w.next_pid
unfolding ended finish
next-ended c w none = refl
next-ended c w (some s) = next-leave_of s.room s.my_pid w

next-round : (i : ℕ) (w : World) → (round i w).next_pid ≡ w.next_pid
unfolding round
next-round i w = ground arith

next-on_event :
    (period : ℕ) (e : Event) (w : World)
    → IsEvent e
    → w.next_pid + 1 < 2 ^ 32
    → (on_event period e w).next_pid ≤ w.next_pid + 1
unfolding on_event
next-on_event period (accepts c) w is_e small = omega arith
next-on_event period (receives c payload) w is_e small =
    next-received period c payload w (get c w.sessions) is_e.0 is_e.1 small
next-on_event period (hangs_up c) w is_e small = omega (arith, next-ended c w (get c w.sessions))
next-on_event period (ticks i) w is_e small = omega (arith, next-round i w)

-- From a state that keeps the invariant, any run of events, in any order and over any connections,
-- keeps it, if the ids given out and the events are together fewer than 2 ^ 32: every room's players
-- and connections have the same keys, every id in use was given out, and no id is in two rooms.
pub serve-IsWorld :
    (period : ℕ) (es : List Event) (w : World)
    → All IsEvent es
    → w.next_pid + length es < 2 ^ 32
    → IsWorld w
    → IsWorld (serve period es w)
unfolding serve
serve-IsWorld period [] w all small v = v
serve-IsWorld period (e ∷ es) w all small v =
    serve-IsWorld period es (on_event period e w) all.1
      (omega (arith, next-on_event period e w all.0))
      (on_event-IsWorld period e w all.0 (omega arith) v)
