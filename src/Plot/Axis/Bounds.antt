-- ===== src/Plot/Axis/Bounds.antt =====
-- runner/plot.py: the bound of an axis that `nice_max` picks.
use native.Mathlib.Numerals.{unary_clauses}
use game_bench.Common.{
  ℕ, zero, suc, ◌*◌, ◌^◌, ◌<◌, ◌≤◌, ◌≡◌, leb, leb→le, if◌then◌else◌, arith, Bool-cases, inl, inr,
}
use game_bench.Plot.Axis.{log10, fits, nice_factor, nice_max}

pow_suc : (e : ℕ) → 10 ^ suc e ≡ 10 * 10 ^ e
pow_suc e = simp unary_clauses (omega arith)

pow_positive : (e : ℕ) → 0 < 10 ^ e
pow_positive zero = omega arith
pow_positive (suc e) = omega (arith, pow_suc e, pow_positive e)

-- The power that log10 finds is reached by v, and the next one is not, if the fuel is enough.
log10_low : (fuel v : ℕ) → 0 < v → 10 ^ log10 fuel v ≤ v
unfolding log10
log10_low zero v h = omega arith
log10_low (suc fuel) v h = elim (Bool-cases (leb (10 ^ suc fuel) v)) [
  | inl reached ↦ rw reached (leb→le _ _ reached)
  | inr not_reached ↦ rw not_reached (log10_low fuel v h)
]

log10_high : (fuel v : ℕ) → v < 10 ^ suc fuel → v < 10 ^ suc (log10 fuel v)
unfolding log10
log10_high zero v h = h
log10_high (suc fuel) v h = elim (Bool-cases (leb (10 ^ suc fuel) v)) [
  | inl reached ↦ rw reached h
  | inr not_reached ↦ rw not_reached (log10_high fuel v (ground arith))
]

lt_pow : (v : ℕ) → v < 10 ^ v
lt_pow zero = omega arith
lt_pow (suc v) = omega (arith, pow_suc v, lt_pow v)

-- The bounds that the chain of tests gives, for a power p of ten with p ≤ v < 10 p.
abbrev pub Covers : ℕ → ℕ → Type 0
Covers v top = (v ≤ top) × (2 * top < 5 * v)

factor-Covers :
    (v p : ℕ)
    → 0 < p
    → p ≤ v
    → v < 10 * p
    → Covers v (
        (if leb v (1 * p) then 1 else if leb v (2 * p) then 2 else if leb v (5 * p) then 5 else 10)
        * p)
factor-Covers v p pos low high = ground arith

-- The bound of an axis is at least the value, and less than two and a half times the value, which is
-- not 0.
pub nice_max-Covers : (one v : ℕ) → Covers (suc v) (nice_max one (suc v))
unfolding nice_max nice_factor fits
nice_max-Covers one v =
    let high : suc v < 10 * 10 ^ log10 (suc v) (suc v) = omega (
      arith,
      pow_suc (log10 (suc v) (suc v)),
      log10_high (suc v) (suc v) (omega (arith, pow_suc (suc v), lt_pow (suc v))),
    ) in
    factor-Covers (suc v) (10 ^ log10 (suc v) (suc v)) (pow_positive _)
      (log10_low (suc v) (suc v) (omega arith)) high
