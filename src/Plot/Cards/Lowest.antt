-- ===== src/Plot/Cards/Lowest.antt =====
-- runner/plot.py: the trial that a card of `timeline_body` shows.
use game_bench.Common.{
  Bool, true, false, not, ◌&&◌, ◌||◌, leb, ltb, ==_refl, le→leb, ℕ, ◌≡◌, refl, sym, ap, ◌∙◌, Option,
  none, some, List, [], ◌∷◌, ◌++◌, ◌==◌, ==_iff, if◌then◌else◌, Bool-cases, inl, inr, arith,
}
use game_bench.Py.Text.{Text}
use game_bench.Py.Assoc.{find, modify, map_values, find-modify, find-map_values}
use game_bench.Plot.Timeline.{
  TlRow, Trials, Runs, same_run, append_row, load_rows, sort_rows, load_timeline,
}
use game_bench.Plot.Timeline.Ordered.{chosen, same_run_sound, rows_of-load_timeline}
use game_bench.Plot.Cards.{lower, min_trial, rows_at, card_of}

-- The least trial number among the rows of a run.
abbrev pub lowest : Text × ℕ → List TlRow → Option ℕ
lowest k [] = none
lowest k (r ∷ rs) =
    let rest = lowest k rs in if same_run (r.server, r.conns) k then lower r.trial rest else rest

lower_swap : (a b : ℕ) (o : Option ℕ) → lower a (lower b o) ≡ lower b (lower a o)
unfolding lower
lower_swap a b none = ground arith
lower_swap a b (some u) = ground arith

lower_twice : (a : ℕ) (o : Option ℕ) → lower a (lower a o) ≡ lower a o
unfolding lower
lower_twice a none = ground arith
lower_twice a (some u) = ground arith

min_trial-modify :
    (t : ℕ) (f : List TlRow → List TlRow) (g : Trials)
    → min_trial (modify ◌==◌ [] t f g) ≡ lower t (min_trial g)
unfolding min_trial modify
min_trial-modify t f [] = refl
min_trial-modify t f ((u, rows) ∷ g) = elim (Bool-cases (u == t)) [
  | inl same ↦ rw same (
      sym (lower_twice u (min_trial g))
      ∙ ap (λ v. lower v (lower u (min_trial g))) ((==_iff u t).0 same))
  | inr other ↦ rw other (ap (lower u) (min_trial-modify t f g) ∙ lower_swap u t (min_trial g))
]

min_trial-map_values :
    (f : List TlRow → List TlRow) (g : Trials) → min_trial (map_values ◌==◌ [] f g) ≡ min_trial g
unfolding min_trial map_values
min_trial-map_values f [] = refl
min_trial-map_values f ((u, rows) ∷ g) = ap (lower u) (min_trial-map_values f g)

-- The lower of two trials that may be missing.
merge : Option ℕ → Option ℕ → Option ℕ
merge none o = o
merge (some t) o = lower t o

merge-none : (o : Option ℕ) → merge o none ≡ o
unfolding merge lower
merge-none none = refl
merge-none (some t) = refl

merge-lower : (t : ℕ) (o p : Option ℕ) → merge (lower t o) p ≡ merge o (lower t p)
unfolding merge lower
merge-lower t none p = refl
merge-lower t (some u) none = ground arith
merge-lower t (some u) (some v) = ground arith

min_trial-append_row :
    (k : Text × ℕ) (r : TlRow) (g : Runs)
    → min_trial (find same_run [] k (append_row r g)) ≡ (
        if same_run (r.server, r.conns) k
        then lower r.trial (min_trial (find same_run [] k g))
        else min_trial (find same_run [] k g))
unfolding append_row
min_trial-append_row k r g =
    ap min_trial (
      find-modify same_run [] same_run_sound k (r.server, r.conns)
        (modify ◌==◌ [] r.trial (λ (rows : List TlRow). rows ++ r ∷ [])) g)
    ∙ elim (Bool-cases (same_run (r.server, r.conns) k)) [
      | inl same ↦ rw same (min_trial-modify r.trial _ (find same_run [] k g))
      | inr other ↦ rw other
    ]

min_trial-load_rows :
    (k : Text × ℕ) (rs : List TlRow) (g : Runs)
    → min_trial (find same_run [] k (load_rows rs g))
      ≡ merge (min_trial (find same_run [] k g)) (lowest k rs)
unfolding load_rows
min_trial-load_rows k [] g = sym (merge-none (min_trial (find same_run [] k g)))
min_trial-load_rows k (r ∷ rs) g =
    min_trial-load_rows k rs (append_row r g)
    ∙ ap (λ o. merge o (lowest k rs)) (min_trial-append_row k r g)
    ∙ elim (Bool-cases (same_run (r.server, r.conns) k)) [
      | inl same ↦ rw same (merge-lower r.trial (min_trial (find same_run [] k g)) (lowest k rs))
      | inr other ↦ rw other
    ]

min_trial-load_timeline :
    (k : Text × ℕ) (rs : List TlRow)
    → min_trial (find same_run [] k (load_timeline rs)) ≡ lowest k rs
unfolding load_timeline find map_values min_trial merge
min_trial-load_timeline k rs =
    ap min_trial
      (find-map_values same_run [] (map_values ◌==◌ [] sort_rows) refl k (load_rows rs []))
    ∙ min_trial-map_values sort_rows (find same_run [] k (load_rows rs []))
    ∙ min_trial-load_rows k rs []

-- What a card is to show: a trial, with its rows by their seconds.
abbrev pub trial_rows : Text × ℕ → List TlRow → Option ℕ → Option (ℕ × List TlRow)
trial_rows k rs none = none
trial_rows k rs (some t) = some (t, sort_rows (chosen k t rs))

card_of-lowest :
    (k : Text × ℕ) (rs : List TlRow) → card_of k (load_timeline rs) ≡ trial_rows k rs (lowest k rs)
unfolding card_of
card_of-lowest k rs =
    ap (rows_at k (load_timeline rs)) (min_trial-load_timeline k rs) ∙ each (lowest k rs)
  where
    each : (o : Option ℕ) → rows_at k (load_timeline rs) o ≡ trial_rows k rs o
    each none = refl
    each (some t) = ap (λ rows. some (t, rows)) (rows_of-load_timeline k t rs)

-- A row of the run with the trial number.
abbrev pub has_trial : Text × ℕ → ℕ → List TlRow → Bool
has_trial k t [] = false
has_trial k t (r ∷ rs) = (same_run (r.server, r.conns) k && (r.trial == t)) || has_trial k t rs

-- No row of the run has a lower trial number.
abbrev pub none_below : Text × ℕ → ℕ → List TlRow → Bool
none_below k t [] = true
none_below k t (r ∷ rs) =
    (not (same_run (r.server, r.conns) k) || leb t r.trial) && none_below k t rs

abbrev pub no_row : Text × ℕ → List TlRow → Bool
no_row k [] = true
no_row k (r ∷ rs) = not (same_run (r.server, r.conns) k) && no_row k rs

-- The least trial number that the file has for the run, or none where it has no row of it.
abbrev pub IsLeast : Text × ℕ → List TlRow → Option ℕ → Type 0
IsLeast k rs none = no_row k rs ≡ true
IsLeast k rs (some t) = (has_trial k t rs ≡ true) × (none_below k t rs ≡ true)

none_below_mono :
    (k : Text × ℕ) (t u : ℕ) (rs : List TlRow)
    → leb t u ≡ true
    → none_below k u rs ≡ true
    → none_below k t rs ≡ true
none_below_mono k t u [] h b = refl
none_below_mono k t u (r ∷ rs) h b = ground (arith, none_below_mono k t u rs h)

none_below_empty :
    (k : Text × ℕ) (t : ℕ) (rs : List TlRow) → no_row k rs ≡ true → none_below k t rs ≡ true
none_below_empty k t [] h = refl
none_below_empty k t (r ∷ rs) h = ground (arith, none_below_empty k t rs)

IsLeast-lower :
    (k : Text × ℕ) (r : TlRow) (rs : List TlRow) (o : Option ℕ)
    → same_run (r.server, r.conns) k ≡ true
    → IsLeast k rs o
    → IsLeast k (r ∷ rs) (lower r.trial o)
unfolding lower
IsLeast-lower k r rs none same h = rw same (
  rw (==_refl r.trial) refl,
  rw (le→leb r.trial r.trial (omega arith)) (none_below_empty k r.trial rs h),
)
IsLeast-lower k r rs (some u) same h = elim (Bool-cases (ltb u r.trial)) [
  | inl less ↦ rw less (rw same (ground (arith, h.0)), ground (arith, same, less, h.1))
  | inr more ↦
      rw more
        (rw same (ground arith), ground (arith, none_below_mono k r.trial u rs (ground arith) h.1))
]

IsLeast-other :
    (k : Text × ℕ) (r : TlRow) (rs : List TlRow) (o : Option ℕ)
    → same_run (r.server, r.conns) k ≡ false
    → IsLeast k rs o
    → IsLeast k (r ∷ rs) o
IsLeast-other k r rs none other h = rw other h
IsLeast-other k r rs (some t) other h = rw other h

lowest-IsLeast : (k : Text × ℕ) (rs : List TlRow) → IsLeast k rs (lowest k rs)
lowest-IsLeast k [] = refl
lowest-IsLeast k (r ∷ rs) = elim (Bool-cases (same_run (r.server, r.conns) k)) [
  | inl same ↦ rw same (IsLeast-lower k r rs (lowest k rs) same (lowest-IsLeast k rs))
  | inr other ↦ rw other (IsLeast-other k r rs (lowest k rs) other (lowest-IsLeast k rs))
]

-- The card of a run shows the trial with the least number that the file has for it, and all the rows
-- of that trial, sorted; a run with no row has no card.
pub card_of-IsLeast :
    (k : Text × ℕ) (rs : List TlRow)
    → (o : Option ℕ) × IsLeast k rs o × (card_of k (load_timeline rs) ≡ trial_rows k rs o)
card_of-IsLeast k rs = (lowest k rs, lowest-IsLeast k rs, card_of-lowest k rs)
