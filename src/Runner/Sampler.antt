-- ===== src/Runner/Sampler.antt =====
-- runner/run.py: the thread `Sampler`. A View is what /proc holds at the reads of one round; the
-- views that the thread sees are those before the stop flag is seen.
use game_bench.Common.{
  ℕ, ◌≡◌, refl, ap, ◌∙◌, Option, none, some, List, [], ◌∷◌, max, map, if◌then◌else◌, arith, All,
}
use game_bench.Py.Int.{ℤ, pos, leb_ℤ}
use game_bench.Py.Result.{Result, ok, raise}
use game_bench.Runner.Proc.{Proc, pids_in_groups, sample_cpu_ticks, sample_rss_kb}

pub record View : Type 0 where
  pub listed : Proc
  pub at_rss : Proc
  pub at_cpu : Proc

pub record Sampler : Type 0 where
  pub pgids : List ℤ
  pub rss_peak_kb : ℤ
  pub rss_first_kb : ℤ
  pub cpu_start : Option ℤ
  pub cpu_end : Option ℤ

-- Sampler.__init__
unfoldable pub new_sampler : List ℤ → Sampler
new_sampler pgids = record {
  pgids = pgids;
  rss_peak_kb = pos 0;
  rss_first_kb = pos 0;
  cpu_start = none;
  cpu_end = none;
}

unfoldable pub rss_in : List ℤ → View → Result ℤ
rss_in pgids v = sample_rss_kb v.at_rss (pids_in_groups pgids v.listed)

unfoldable pub ticks_in : List ℤ → View → ℤ
ticks_in pgids v = sample_cpu_ticks v.at_cpu (pids_in_groups pgids v.listed)

-- `if rss > self.rss_peak_kb: self.rss_peak_kb = rss`
unfoldable pub raise_peak : ℤ → ℤ → ℤ
raise_peak rss peak = if leb_ℤ rss peak then peak else rss

sampled : View → Sampler → ℤ → Sampler
unfolding raise_peak ticks_in
sampled v s rss = record s {
  rss_peak_kb = raise_peak rss s.rss_peak_kb;
  cpu_end = some (ticks_in s.pgids v);
}

-- The loop of Sampler.run: an exception of a round ends the thread, and leaves what was sampled.
next_round : View → Sampler → (Sampler → Sampler) → Result ℤ → Sampler
unfolding sampled
next_round v s later (raise e) = s
next_round v s later (ok rss) = later (sampled v s rss)

unfoldable pub rounds : List View → Sampler → Sampler
unfolding next_round rss_in
rounds [] s = s
rounds (v ∷ vs) s = next_round v s (rounds vs) (rss_in s.pgids v)

first_rss : List View → Sampler → Result ℤ → Sampler
unfolding rounds
first_rss vs s (raise e) = s
first_rss vs s (ok kb) = rounds vs (record s { rss_first_kb = kb })

-- Sampler.run: the reads before the loop, which see the first view, then the loop.
unfoldable pub run : View → List View → Sampler → Sampler
unfolding first_rss ticks_in rss_in
run v vs s = first_rss vs (record s { cpu_start = some (ticks_in s.pgids v) }) (rss_in s.pgids v)

-- A view and the memory that is read in it.
abbrev pub Reads : List ℤ → View × ℕ → Type 0
Reads pgids (v, kb) = rss_in pgids v ≡ ok (pos kb)

abbrev pub highest : List (View × ℕ) → ℕ → ℕ
highest [] peak = peak
highest ((v, kb) ∷ qs) peak = highest qs (max kb peak)

abbrev pub last_ticks : List ℤ → List (View × ℕ) → Option ℤ → Option ℤ
last_ticks pgids [] t = t
last_ticks pgids ((v, kb) ∷ qs) t = last_ticks pgids qs (some (ticks_in pgids v))

raise_peak-max : (a b : ℕ) → raise_peak (pos a) (pos b) ≡ pos (max a b)
unfolding raise_peak
raise_peak-max a b = ground arith

rounds-highest :
    (qs : List (View × ℕ)) (s : Sampler) (peak : ℕ)
    → s.rss_peak_kb ≡ pos peak
    → All (Reads s.pgids) qs
    → rounds (map (λ q. q.0) qs) s
      ≡ record s { rss_peak_kb = pos (highest qs peak); cpu_end = last_ticks s.pgids qs s.cpu_end }
unfolding rounds next_round sampled
rounds-highest [] s peak e h = ap (λ k. record s { rss_peak_kb = k }) e
rounds-highest ((v, kb) ∷ qs) s peak e h =
    ap (next_round v s (rounds (map (λ (q : View × ℕ). q.0) qs))) h.0
    ∙ rounds-highest qs (sampled v s (pos kb)) (max kb peak)
        (ap (raise_peak (pos kb)) e ∙ raise_peak-max kb peak) h.1

-- If the memory of the processes is read in the first view and in every round, the sampler ends
-- with the memory of the first view, the highest memory of the rounds, the ticks of the first view
-- and the ticks of the last round, or none where there was no round.
pub run-highest :
    (pgids : List ℤ) (v : View) (kb : ℕ) (qs : List (View × ℕ))
    → All (Reads pgids) ((v, kb) ∷ qs)
    → run v (map (λ q. q.0) qs) (new_sampler pgids) ≡ record {
      pgids = pgids;
      rss_peak_kb = pos (highest qs 0);
      rss_first_kb = pos kb;
      cpu_start = some (ticks_in pgids v);
      cpu_end = last_ticks pgids qs none;
    }
unfolding run new_sampler first_rss
run-highest pgids v kb qs h =
    ap
      (first_rss (map (λ (q : View × ℕ). q.0) qs)
        (record (new_sampler pgids) { cpu_start = some (ticks_in pgids v) }))
      h.0
    ∙ rounds-highest qs _ 0 refl h.1
