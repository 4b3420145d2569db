-- ===== src/Server/Pace.antt =====
-- servers/python/server.py: when `Room.run` starts its steps. The float clock of the event loop is a
-- clock of whole units here, and `tick` is the period in those units.
use game_bench.Common.{
  ℕ, ◌+◌, ◌<◌, ◌≤◌, ◌≡◌, refl, Bool, true, false, List, [], ◌∷◌, if◌then◌else◌, ltb, arith, All,
}

-- What the environment adds to a round: how late `asyncio.sleep` wakes up, and how long the step and
-- whatever ran before it take.
pub record Delay : Type 0 where
  pub late : ℕ
  pub work : ℕ

pub record Started : Type 0 where
  pub at : ℕ
  pub slept : Bool

-- One round: `nxt += self.tick`, and a sleep only if `nxt` is still to come. A round that does not
-- sleep does not await, so no other coroutine runs.
unfoldable pub start : ℕ → ℕ → ℕ → Started
start nxt now late =
    if ltb now nxt
    then record { at = nxt + late; slept = true }
    else record { at = now; slept = false }

unfoldable pub rounds : ℕ → ℕ → ℕ → List Delay → List Started
unfolding start
rounds tick nxt now [] = []
rounds tick nxt now (d ∷ ds) =
    let s = start (nxt + tick) now d.late in s ∷ rounds tick (nxt + tick) (s.at + d.work) ds

start_ahead :
    (nxt now late : ℕ) → now < nxt → start nxt now late ≡ record { at = nxt + late; slept = true }
unfolding start
start_ahead nxt now late h = ground arith

start_behind :
    (nxt now late : ℕ) → nxt ≤ now → start nxt now late ≡ record { at = now; slept = false }
unfolding start
start_behind nxt now late h = ground arith

-- The steps are not before their times: the k-th is k periods after the start at the earliest.
abbrev pub NotEarly : ℕ → ℕ → List Started → Type 0
NotEarly tick due [] = Unit
NotEarly tick due (s ∷ ss) = (due ≤ s.at) × NotEarly tick (due + tick) ss

pub rounds-NotEarly :
    (tick nxt now : ℕ) (ds : List Delay) → NotEarly tick (nxt + tick) (rounds tick nxt now ds)
unfolding rounds
rounds-NotEarly tick nxt now [] = tt
rounds-NotEarly tick nxt now (d ∷ ds) = (
  ground arith,
  rounds-NotEarly tick (nxt + tick) ((start (nxt + tick) now d.late).at + d.work) ds,
)

-- There is a step for every delay; each starts at its time, later only by its own sleep, and every
-- round has slept.
abbrev pub OnTime : ℕ → ℕ → List Started → List Delay → Type 0
OnTime tick due (s ∷ ss) (d ∷ ds) =
    (s.at ≡ due + d.late) × (s.slept ≡ true) × OnTime tick (due + tick) ss ds
OnTime tick due [] [] = Unit
OnTime tick due [] (d ∷ ds) = ⊥
OnTime tick due (s ∷ ss) [] = ⊥

-- Where every sleep's lateness and the work behind it stay below a period, the times do not drift:
-- there is a step for every delay, and the k-th starts k periods after the start, plus the lateness of
-- its own sleep alone.
pub rounds-OnTime :
    (tick nxt now : ℕ) (ds : List Delay)
    → now < nxt + tick
    → All (λ (d : Delay). d.late + d.work < tick) ds
    → OnTime tick (nxt + tick) (rounds tick nxt now ds) ds
unfolding rounds
rounds-OnTime tick nxt now [] h all = tt
rounds-OnTime tick nxt now (d ∷ ds) h all = rw (start_ahead (nxt + tick) now d.late h) (
  refl,
  refl,
  rounds-OnTime tick (nxt + tick) (nxt + tick + d.late + d.work) ds (omega arith) all.1,
)

-- A room that is a period behind and whose steps each take a period or longer never awaits again: the
-- reads of every connection of the process, and every other room, wait for ever.
pub rounds_starve :
    (tick nxt now : ℕ) (ds : List Delay)
    → nxt + tick ≤ now
    → All (λ (d : Delay). tick ≤ d.work) ds
    → All (λ (s : Started). s.slept ≡ false) (rounds tick nxt now ds)
unfolding rounds
rounds_starve tick nxt now [] h all = tt
rounds_starve tick nxt now (d ∷ ds) h all =
    rw (start_behind (nxt + tick) now d.late h)
      (refl, rounds_starve tick (nxt + tick) (now + d.work) ds (omega arith) all.1)
