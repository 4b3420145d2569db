-- ===== src/Py/Assoc.antt =====
-- `defaultdict`, as an association list over a test that compares keys.
use game_bench.Common.{
  ◌≡◌, refl, sym, ap, ◌∙◌, Bool, true, false, List, [], ◌∷◌, if◌then◌else◌, Bool-cases, inl, inr,
  All,
}

module _ {ℓ κ} {K : Type ℓ} {V : Type κ} (same : K → K → Bool) (init : V) where
  -- The value of a key, or the default.
  unfoldable pub find : K → List (K × V) → V
  find k [] = init
  find k ((j, v) ∷ g) = let rest = find k g in if same j k then v else rest

  -- Change the value of a key in place; a key that is missing is put behind the others first.
  unfoldable pub modify : K → (V → V) → List (K × V) → List (K × V)
  modify k f [] = (k, f init) ∷ []
  modify k f ((j, v) ∷ g) =
      let rest = modify k f g in if same j k then (j, f v) ∷ g else (j, v) ∷ rest

  module _ (sound : (j k : K) → same j k ≡ true → j ≡ k) where
    pub same_other : (i j k : K) → same i k ≡ true → same i j ≡ false → same j k ≡ false
    same_other i j k one other = elim (Bool-cases (same j k)) [
      | inl equal ↦
          let e : i ≡ j = sound i k one ∙ sym (sound j k equal) in
          ap (same j) (sym (sound j k equal)) ∙ ap (λ l. same l j) (sym e) ∙ other
      | inr differ ↦ differ
    ]

    -- What a change does to the value of any key.
    pub find-modify :
        (k j : K) (f : V → V) (g : List (K × V))
        → find k (modify j f g) ≡ (if same j k then f (find k g) else find k g)
    unfolding find modify
    find-modify k j f [] = refl
    find-modify k j f ((i, v) ∷ g) = elim (Bool-cases (same i j)) [
      | inl equal ↦
          let e : same j k ≡ same i k = ap (λ l. same l k) (sym (sound i j equal)) in
          elim (Bool-cases (same i k)) [
            | inl here ↦ rw (equal, e, here)
            | inr off ↦ rw (equal, e, off)
          ]
      | inr differ ↦ elim (Bool-cases (same i k)) [
        | inl here ↦ rw (differ, same_other i j k here differ, here)
        | inr off ↦ rw (differ, off) (find-modify k j f g)
      ]
    ]

  -- A function on every value, which keeps the default.
  unfoldable pub map_values : (V → V) → List (K × V) → List (K × V)
  map_values f [] = []
  map_values f ((k, v) ∷ g) = (k, f v) ∷ map_values f g

  pub find-map_values :
      (f : V → V) (keeps : f init ≡ init) (k : K) (g : List (K × V))
      → find k (map_values f g) ≡ f (find k g)
  unfolding find map_values
  find-map_values f keeps k [] = sym keeps
  find-map_values f keeps k ((j, v) ∷ g) = elim (Bool-cases (same j k)) [
    | inl equal ↦ rw equal
    | inr differ ↦ rw differ (find-map_values f keeps k g)
  ]

-- What is found is the default or one of the values.
pub find-All {ℓ κ μ} :
    {K : Type ℓ} {V : Type κ} (same : K → K → Bool) (P : V → Type μ) (init : V)
    → P init
    → (k : K) (es : List (K × V)) → All (λ (e : K × V). P e.1) es
    → P (find same init k es)
unfolding find
find-All same P init h k [] all = h
find-All same P init h k ((j, v) ∷ es) all = elim (Bool-cases (same j k)) [
  | inl equal ↦ rw equal all.0
  | inr other ↦ rw other (find-All same P init h k es all.1)
]
