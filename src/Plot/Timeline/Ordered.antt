-- ===== src/Plot/Timeline/Ordered.antt =====
-- runner/plot.py: what `load_timeline` gathers of one trial, and in which order.
use game_bench.Common.{
  ℕ, ◌≤◌, ◌<◌, ◌≡◌, refl, sym, ap, subst, ◌∙◌, Bool, true, false, ◌&&◌, List, [], ◌∷◌, ◌++◌,
  append-nil, append_assoc, ◌==◌, ==_iff, ltb, ltb→lt, if◌then◌else◌, All, Bool-cases, inl, inr,
  arith,
}
use game_bench.Py.Text.{Text, text_eq_sound}
use game_bench.Py.Assoc.{find, modify, map_values, find-modify, find-map_values}
use game_bench.Plot.Timeline.{
  TlRow, Runs, same_run, append_row, load_rows, insert_row, sort_rows, load_timeline, rows_of,
}

abbrev pub IsSorted : List TlRow → Type 0
IsSorted [] = Unit
IsSorted (r ∷ rs) = All (λ (u : TlRow). r.t_s ≤ u.t_s) rs × IsSorted rs

-- The rows of one second.
abbrev pub at_time : ℕ → List TlRow → List TlRow
at_time t [] = []
at_time t (r ∷ rs) = let rest = at_time t rs in if r.t_s == t then r ∷ rest else rest

-- The rows of one trial of one run, in the order of the file.
abbrev pub chosen : Text × ℕ → ℕ → List TlRow → List TlRow
chosen k trial [] = []
chosen k trial (r ∷ rs) =
    let rest = chosen k trial rs in
    if same_run (r.server, r.conns) k && (r.trial == trial) then r ∷ rest else rest

later_all :
    (t : ℕ) (r : TlRow) (us : List TlRow)
    → t ≤ r.t_s
    → All (λ (u : TlRow). t ≤ u.t_s) us
    → All (λ (u : TlRow). t ≤ u.t_s) (insert_row r us)
unfolding insert_row
later_all t r [] h k = (h, tt)
later_all t r (u ∷ us) h k = elim (Bool-cases (ltb u.t_s r.t_s)) [
  | inl lower ↦ rw lower (k.0, later_all t r us h k.1)
  | inr upper ↦ rw upper (h, k)
]

raise_all :
    (a b : ℕ) (us : List TlRow)
    → a ≤ b
    → All (λ (u : TlRow). b ≤ u.t_s) us
    → All (λ (u : TlRow). a ≤ u.t_s) us
raise_all a b [] le h = tt
raise_all a b (u ∷ us) le h = (omega (arith, h.0), raise_all a b us le h.1)

insert_row-IsSorted : (r : TlRow) (us : List TlRow) → IsSorted us → IsSorted (insert_row r us)
unfolding insert_row
insert_row-IsSorted r [] h = (tt, tt)
insert_row-IsSorted r (u ∷ us) h = elim (Bool-cases (ltb u.t_s r.t_s)) [
  | inl lower ↦
      let less : u.t_s < r.t_s = ltb→lt u.t_s r.t_s lower in
      rw lower (later_all u.t_s r us (omega arith) h.0, insert_row-IsSorted r us h.1)
  | inr upper ↦
      let le : r.t_s ≤ u.t_s = ground arith in rw upper ((le, raise_all r.t_s u.t_s us le h.0), h)
]

pub sort_rows-IsSorted : (rs : List TlRow) → IsSorted (sort_rows rs)
unfolding sort_rows
sort_rows-IsSorted [] = tt
sort_rows-IsSorted (r ∷ rs) = insert_row-IsSorted r (sort_rows rs) (sort_rows-IsSorted rs)

at_time-insert_row :
    (t : ℕ) (r : TlRow) (us : List TlRow) → at_time t (insert_row r us) ≡ at_time t (r ∷ us)
unfolding insert_row
at_time-insert_row t r [] = refl
at_time-insert_row t r (u ∷ us) = elim (Bool-cases (ltb u.t_s r.t_s)) [
  | inl lower ↦ elim (Bool-cases (u.t_s == t)) [
    | inl now ↦
        let off : (r.t_s == t) ≡ false = ground arith in
        rw (lower, now, off) (ap (λ (vs : List TlRow). u ∷ vs) (at_time-insert_row t r us ∙ rw off))
    | inr other ↦ rw (lower, other) (at_time-insert_row t r us)
  ]
  | inr upper ↦ rw upper
]

at_time-sort_rows : (t : ℕ) (rs : List TlRow) → at_time t (sort_rows rs) ≡ at_time t rs
unfolding sort_rows
at_time-sort_rows t [] = refl
at_time-sort_rows t (r ∷ rs) =
    at_time-insert_row t r (sort_rows rs)
    ∙ ap (λ (vs : List TlRow). if r.t_s == t then r ∷ vs else vs) (at_time-sort_rows t rs)

pub same_run_sound : (j k : Text × ℕ) → same_run j k ≡ true → j ≡ k
unfolding same_run
same_run_sound (s, c) (t, d) h =
    ap (λ (u : Text). (u, c)) (text_eq_sound s t (ground arith))
    ∙ ap (λ (e : ℕ). (t, e)) ((==_iff c d).0 (ground arith))

pub num_sound : (a b : ℕ) → (a == b) ≡ true → a ≡ b
num_sound a b = (==_iff a b).0

rows_of-append_row :
    (k : Text × ℕ) (trial : ℕ) (r : TlRow) (g : Runs)
    → rows_of k trial (append_row r g) ≡ (
        if same_run (r.server, r.conns) k && (r.trial == trial)
        then rows_of k trial g ++ r ∷ []
        else rows_of k trial g)
unfolding rows_of append_row
rows_of-append_row k trial r g =
    ap (find ◌==◌ [] trial) (
      find-modify same_run [] same_run_sound k (r.server, r.conns)
        (modify ◌==◌ [] r.trial (λ (rows : List TlRow). rows ++ r ∷ [])) g)
    ∙ elim (Bool-cases (same_run (r.server, r.conns) k)) [
      | inl same ↦ rw same (
          find-modify ◌==◌ [] num_sound trial r.trial (λ (rows : List TlRow). rows ++ r ∷ [])
            (find same_run [] k g))
      | inr other ↦ rw other
    ]

gather :
    (b : Bool) (r : TlRow) (vs us : List TlRow)
    → (if b then vs ++ r ∷ [] else vs) ++ us ≡ vs ++ (if b then r ∷ us else us)
gather true r vs us = append_assoc vs (r ∷ []) us
gather false r vs us = refl

pub rows_of-load_rows :
    (k : Text × ℕ) (trial : ℕ) (rs : List TlRow) (g : Runs)
    → rows_of k trial (load_rows rs g) ≡ rows_of k trial g ++ chosen k trial rs
unfolding load_rows
rows_of-load_rows k trial [] g = sym (append-nil (rows_of k trial g))
rows_of-load_rows k trial (r ∷ rs) g =
    rows_of-load_rows k trial rs (append_row r g)
    ∙ ap (λ (vs : List TlRow). vs ++ chosen k trial rs) (rows_of-append_row k trial r g)
    ∙ gather (same_run (r.server, r.conns) k && (r.trial == trial)) r (rows_of k trial g)
        (chosen k trial rs)

-- What is found in the loaded file is the sorted list of the rows of the trial.
pub rows_of-load_timeline :
    (k : Text × ℕ) (trial : ℕ) (rs : List TlRow)
    → rows_of k trial (load_timeline rs) ≡ sort_rows (chosen k trial rs)
unfolding rows_of load_timeline sort_rows find map_values
rows_of-load_timeline k trial rs =
    ap (find ◌==◌ [] trial)
      (find-map_values same_run [] (map_values ◌==◌ [] sort_rows) refl k (load_rows rs []))
    ∙ find-map_values ◌==◌ [] sort_rows refl trial (find same_run [] k (load_rows rs []))
    ∙ ap sort_rows (rows_of-load_rows k trial rs [])

-- The rows that are loaded for a trial are in the order of their seconds, and those of any one second
-- are exactly those of the file, in the order of the file.
pub load_timeline-IsSorted :
    (k : Text × ℕ) (trial : ℕ) (rs : List TlRow)
    → IsSorted (rows_of k trial (load_timeline rs))
      × ((t : ℕ) → at_time t (rows_of k trial (load_timeline rs)) ≡ at_time t (chosen k trial rs))
load_timeline-IsSorted k trial rs = (
  subst IsSorted (sym (rows_of-load_timeline k trial rs)) (sort_rows-IsSorted (chosen k trial rs)),
  λ t. ap (at_time t) (rows_of-load_timeline k trial rs) ∙ at_time-sort_rows t (chosen k trial rs),
)
