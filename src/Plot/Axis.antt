-- ===== src/Plot/Axis.antt =====
-- runner/plot.py: `nice_max`, and the ticks of `timeline_svg`. A value is counted in units of its last
-- decimal, a power of ten that `nice_max` commutes with; the logarithm is exact, where the source has
-- that of the floats.
pub mod Bounds
pub mod Ticks
use game_bench.Common.{
  ℕ, zero, suc, ◌+◌, ◌-◌, ◌*◌, ◌/◌, ◌^◌, Bool, List, [], ◌∷◌, leb, ltb, if◌then◌else◌, max,
}

-- math.floor(math.log10(v)): the highest power of ten, below `fuel` many, that v reaches
unfoldable pub log10 : ℕ → ℕ → ℕ
log10 zero v = 0
log10 (suc fuel) v = let lower = log10 fuel v in if leb (10 ^ suc fuel) v then suc fuel else lower

-- f ≤ k, for f = v / 10 ** exp
unfoldable pub fits : ℕ → ℕ → ℕ → Bool
fits v exp k = leb v (k * 10 ^ exp)

unfoldable pub nice_factor : ℕ → ℕ → ℕ
unfolding fits
nice_factor v exp =
    if fits v exp 1 then 1 else if fits v exp 2 then 2 else if fits v exp 5 then 5 else 10

-- 1 whole unit, `one` of the units that v is counted in, where v is 0
unfoldable pub nice_max : ℕ → ℕ → ℕ
unfolding nice_factor log10
nice_max one zero = one
nice_max one (suc v) = nice_factor (suc v) (log10 (suc v) (suc v)) * 10 ^ log10 (suc v) (suc v)

-- max(1, -(-maxT // 6)): the quotient rounded up
unfoldable pub tick_step : ℕ → ℕ
tick_step max_t = max 1 ((max_t + 5) / 6)

-- `while t <= maxT`, on fuel
unfoldable pub ticks_from : ℕ → ℕ → ℕ → ℕ → List ℕ
ticks_from zero max_t step t = []
ticks_from (suc fuel) max_t step t =
    let later = ticks_from fuel max_t step (t + step) in if leb t max_t then t ∷ later else []

unfoldable pub ticks : ℕ → List ℕ
unfolding ticks_from tick_step
ticks max_t = ticks_from (max_t + 1) max_t (tick_step max_t) 0
