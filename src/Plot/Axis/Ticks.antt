-- ===== src/Plot/Axis/Ticks.antt =====
-- runner/plot.py: the ticks of the time axis.
use game_bench.Common.{
  ℕ, zero, suc, ◌+◌, ◌*◌, ◌/◌, ◌<◌, ◌≤◌, ◌≡◌, refl, List, [], ◌∷◌, leb, leb→le, max, arith,
  Bool-cases, inl, inr, length,
}
use game_bench.Plot.Axis.{tick_step, ticks_from, ticks}

-- Ticks that stand a step apart, from t on, up to the last that is in the range.
abbrev pub Every : ℕ → ℕ → ℕ → List ℕ → Type 0
Every max_t step t [] = max_t < t
Every max_t step t (k ∷ ks) = (k ≡ t) × (k ≤ max_t) × Every max_t step (t + step) ks

ticks_from-Every :
    (fuel max_t step t : ℕ)
    → 0 < step
    → max_t + 1 ≤ t + fuel
    → Every max_t step t (ticks_from fuel max_t step t)
unfolding ticks_from
ticks_from-Every zero max_t step t pos enough = omega arith
ticks_from-Every (suc fuel) max_t step t pos enough = elim (Bool-cases (leb t max_t)) [
  | inl more ↦
      rw more
        (refl, leb→le t max_t more, ticks_from-Every fuel max_t step (t + step) pos (omega arith))
  | inr over ↦ rw over (ground arith)
]

step_more : (q step : ℕ) → suc q * step ≡ step + q * step
step_more q step = grind arith

Every-length :
    (q max_t step t : ℕ) (ks : List ℕ)
    → Every max_t step t ks
    → max_t < t + q * step
    → length ks ≤ q
Every-length q max_t step t [] h more = omega arith
Every-length zero max_t step t (k ∷ ks) h more =
    let none : zero * step ≡ 0 = omega arith in absurd (omega (arith, h.1, none))
Every-length (suc q) max_t step t (k ∷ ks) h more =
    let less : max_t < (t + step) + q * step = omega (arith, step_more q step) in
    omega (arith, Every-length q max_t step (t + step) ks h.2 less)

-- The ticks of the time axis begin at 0 and stand one step apart, all those that are in the range
-- are there, and there are at most seven; the fuel is enough, so that the loop ends.
pub ticks-Every :
    (max_t : ℕ) → Every max_t (tick_step max_t) 0 (ticks max_t) × (length (ticks max_t) ≤ 7)
unfolding ticks tick_step
ticks-Every max_t =
    let pos : 0 < max 1 ((max_t + 5) / 6) = omega arith in
    let wide : max_t < 0 + 7 * max 1 ((max_t + 5) / 6) = omega arith in
    let every : Every max_t (max 1 ((max_t + 5) / 6)) 0
        (ticks_from (max_t + 1) max_t (max 1 ((max_t + 5) / 6)) 0) =
      ticks_from-Every (max_t + 1) max_t (max 1 ((max_t + 5) / 6)) 0 pos (omega arith) in
    (every, Every-length 7 max_t _ 0 _ every wide)
