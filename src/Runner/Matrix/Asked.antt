-- ===== src/Runner/Matrix/Asked.antt =====
-- runner/run.py: the runs that the options of `main` ask for, and those of its two inner loops.
use game_bench.Common.{
  ℕ, zero, suc, ◌-◌, arith, ◌+◌, map, ◌≡◌, refl, ap, ◌∙◌, inl, inr, Bool-cases, Bool, true, false,
  Option, none, some, List, [], ◌∷◌, ◌++◌, if◌then◌else◌,
}
use game_bench.Py.Text.{Text, text_eq}
use game_bench.Runner.Cores.{range, range_from}
use game_bench.Runner.Servers.{Server, name_of, servers, search_names, lookup, build_of}
use game_bench.Runner.Report.{Run}
use game_bench.Runner.Matrix.{Config, Machine, runs_of}

-- Of every server that is known and can be built, by `can`.
abbrev pub buildable : (List Text × Text → Bool) → Option (List Text × Text) → Bool
buildable can none = true
buildable can (some cmd) = can cmd

abbrev pub usable : (List Text × Text → Bool) → Option Server → Bool
usable can none = false
usable can (some s) = buildable can (build_of s)

-- The same by the name: is there a server of that name that can be built?
abbrev pub offered : (List Text × Text → Bool) → Text → List Server → Bool
offered can name [] = false
offered can name (s ∷ ss) =
    if text_eq (name_of s) name then buildable can (build_of s) else offered can name ss

offered-search_names :
    (can : List Text × Text → Bool) (name : Text) (ss : List Server)
    → usable can (search_names name ss) ≡ offered can name ss
unfolding search_names
offered-search_names can name [] = refl
offered-search_names can name (s ∷ ss) = elim (Bool-cases (text_eq (name_of s) name)) [
  | inl this ↦ rw this
  | inr other ↦ rw other (offered-search_names can name ss)
]

pub offered-lookup :
    (can : List Text × Text → Bool) (name : Text)
    → usable can (lookup name) ≡ offered can name servers
unfolding lookup
offered-lookup can name = offered-search_names can name servers

-- The trials 1 … n of a server at a load.
abbrev pub trials_to : Text → ℕ → ℕ → List Run
trials_to name c zero = []
trials_to name c (suc n) =
    trials_to name c n ++ record { server = name; conns = c; trial = suc n } ∷ []

abbrev pub runs_at : ℕ → Text → List ℕ → List Run
runs_at n name [] = []
runs_at n name (c ∷ cs) = trials_to name c n ++ runs_at n name cs

-- The runs that are asked for: servers, then loads, then trials.
abbrev pub asked : Config → (List Text × Text → Bool) → List Text → List Run
asked cfg can [] = []
asked cfg can (name ∷ names) =
    (if offered can name servers then runs_at cfg.trials name cfg.conns_list else [])
    ++ asked cfg can names

range_from-snoc : (lo n : ℕ) → range_from lo (suc n) ≡ range_from lo n ++ (lo + n) ∷ []
unfolding range_from
range_from-snoc lo zero = ap (λ (k : ℕ). k ∷ []) (let e : lo ≡ lo + 0 = omega arith in e)
range_from-snoc lo (suc n) =
    ap (λ (ks : List ℕ). lo ∷ ks)
      (range_from-snoc (lo + 1) n
        ∙ ap (λ (k : ℕ). range_from (lo + 1) n ++ k ∷ [])
            (let e : lo + 1 + n ≡ lo + suc n = omega arith in e))

pub map-append {ℓ κ} :
    {A : Type ℓ} {B : Type κ} (f : A → B) (xs ys : List A) → map f (xs ++ ys) ≡ map f xs ++ map f ys
map-append f [] ys = refl
map-append f (x ∷ xs) ys = ap (λ t. f x ∷ t) (map-append f xs ys)

trials_to-range_from :
    (name : Text) (c n : ℕ)
    → map (λ k. record { server = name; conns = c; trial = k }) (range_from 1 n)
      ≡ trials_to name c n
unfolding range_from
trials_to-range_from name c zero = refl
trials_to-range_from name c (suc n) =
    let run = λ (k : ℕ). let r : Run = record { server = name; conns = c; trial = k } in r in
    ap (map run) (range_from-snoc 1 n)
    ∙ map-append run (range_from 1 n) ((1 + n) ∷ [])
    ∙ ap (λ (rs : List Run). rs ++ run (1 + n) ∷ []) (trials_to-range_from name c n)
    ∙ ap (λ (k : ℕ). trials_to name c n ++ run k ∷ []) (let e : 1 + n ≡ suc n = omega arith in e)

module _ {ℓ κ} {V : Type ℓ} {W : Type κ} (m : Machine V W) (cfg : Config) where
  pub runs_of-runs_at :
      (name : Text) (cs : List ℕ) → runs_of m cfg name cs ≡ runs_at cfg.trials name cs
  unfolding runs_of range
  runs_of-runs_at name [] = refl
  runs_of-runs_at name (c ∷ cs) =
      let run = λ (k : ℕ). let r : Run = record { server = name; conns = c; trial = k } in r in
      ap (λ (k : ℕ). map run (range_from 1 k) ++ runs_of m cfg name cs)
        (let e : cfg.trials + 1 - 1 ≡ cfg.trials = omega arith in e)
      ∙ ap (λ (t : List Run). t ++ runs_of m cfg name cs) (trials_to-range_from name c cfg.trials)
      ∙ ap (λ (t : List Run). trials_to name c cfg.trials ++ t) (runs_of-runs_at name cs)
