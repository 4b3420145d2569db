-- ===== src/Runner/Ready.antt =====
-- runner/run.py: `wait_ready`, over a clock in milliseconds that does not go back. An attempt to connect succeeds or not, and
-- takes some time; a sleep takes at least what it asks for, and `took` holds what it takes beyond it.
use game_bench.Common.{
  ℕ, zero, suc, ◌+◌, ◌*◌, ◌≤◌, ◌<◌, ◌≡◌, Bool, true, false, Option, none, some, ltb, ltb→lt,
  if◌then◌else◌, arith, Bool-cases, inl, inr,
}

pub record Attempt : Type 0 where
  pub connects : Bool
  pub took : ℕ

-- `while time.time() < deadline`, one attempt per fuel, from the attempt `i` on
unfoldable pub wait_until : ℕ → (ℕ → Attempt) → ℕ → ℕ → ℕ → Option Bool
wait_until zero attempts deadline i now = none
wait_until (suc fuel) attempts deadline i now =
    let later = wait_until fuel attempts deadline (suc i) (now + (attempts i).took + 100) in
    if ltb now deadline then if (attempts i).connects then some true else later else some false

unfoldable pub wait_ready : ℕ → (ℕ → Attempt) → ℕ → ℕ → Option Bool
unfolding wait_until
wait_ready fuel attempts timeout now = wait_until fuel attempts (now + timeout) 0 now

-- What the wait ends with: an attempt that begins before the deadline and connects, or none of those
-- that begin before it.
pub data Outcome (attempts : ℕ → Attempt) (deadline : ℕ) : ℕ → ℕ → Bool → Type 0 where
  connected :
      {i now : ℕ}
      → now < deadline
      → (attempts i).connects ≡ true
      → Outcome attempts deadline i now true
  failed :
      {i now : ℕ} {b : Bool}
      → now < deadline
      → (attempts i).connects ≡ false
      → Outcome attempts deadline (suc i) (now + (attempts i).took + 100) b
      → Outcome attempts deadline i now b
  over : {i now : ℕ} → deadline ≤ now → Outcome attempts deadline i now false

wait_until-Outcome :
    (f : ℕ) (attempts : ℕ → Attempt) (deadline i now : ℕ)
    → deadline ≤ now + f * 100
    → (b : Bool) × (wait_until (suc f) attempts deadline i now ≡ some b)
      × Outcome attempts deadline i now b
unfolding wait_until
wait_until-Outcome zero attempts deadline i now enough =
    let late : ltb now deadline ≡ false = ground arith in (false, rw late, over (omega arith))
wait_until-Outcome (suc f) attempts deadline i now enough = elim (Bool-cases (ltb now deadline)) [
  | inl before ↦ elim (Bool-cases (attempts i).connects) [
    | inl up ↦ (true, rw (before, up), connected (ltb→lt now deadline before) up)
    | inr down ↦
        let (b, e, o) =
          wait_until-Outcome f attempts deadline (suc i) (now + (attempts i).took + 100)
            (omega arith) in
        (b, rw (before, down) e, failed (ltb→lt now deadline before) down o)
  ]
  | inr late ↦ (false, rw late, over (ground arith))
]

-- The wait ends within one attempt more than the timeout has tenths of a second: with true at the
-- first attempt that connects and begins before the deadline, and with false where every attempt
-- that begins before the deadline fails.
pub wait_ready-Outcome :
    (f : ℕ) (attempts : ℕ → Attempt) (timeout now : ℕ)
    → timeout ≤ f * 100
    → (b : Bool) × (wait_ready (suc f) attempts timeout now ≡ some b)
      × Outcome attempts (now + timeout) 0 now b
unfolding wait_ready
wait_ready-Outcome f attempts timeout now enough =
    wait_until-Outcome f attempts (now + timeout) 0 now (omega arith)
