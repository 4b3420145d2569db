-- ===== src/Py/Dict.antt =====
-- Python's `dict` with integer keys. A dict iterates in the order of insertion, and the code
-- iterates over its dicts, so the order is part of the model.
use game_bench.Common.{
  ℕ, suc, ◌≡◌, refl, sym, subst, ◌≢◌, ap, inl, inr, Option, none, some, List, [], ◌∷◌, arith, ◌==◌,
  ==_iff, if◌then◌else◌, length, Bool-cases,
}

abbrev pub Dict {ℓ} : Type ℓ → Type ℓ
Dict V = List (ℕ × V)

module _ {ℓ} {V : Type ℓ} where
  -- d.get(k)
  unfoldable pub get : ℕ → Dict V → Option V
  get k [] = none
  get k ((j, v) ∷ d) = if j == k then some v else get k d

  -- d[k] = v: an old key keeps its place, a new key goes last
  unfoldable pub set : ℕ → V → Dict V → Dict V
  set k v [] = (k, v) ∷ []
  set k v ((j, w) ∷ d) = if j == k then (j, v) ∷ d else (j, w) ∷ set k v d

  -- d.pop(k, None)
  unfoldable pub pop : ℕ → Dict V → Dict V
  pop k [] = []
  pop k ((j, w) ∷ d) = if j == k then d else (j, w) ∷ pop k d

  abbrev pub keys : Dict V → List ℕ
  keys [] = []
  keys ((k, v) ∷ d) = k ∷ keys d

  abbrev pub values : Dict V → List V
  values [] = []
  values ((k, v) ∷ d) = v ∷ values d

  -- No key stands twice.
  abbrev pub IsDict : Dict V → Type ℓ
  IsDict [] = Unit
  IsDict ((k, v) ∷ d) = (get k d ≡ none) × IsDict d

module _ {ℓ} {V : Type ℓ} where
  pub get-set :
      (j k : ℕ) (v : V) (d : Dict V) → get j (set k v d) ≡ (if k == j then some v else get j d)
  unfolding get set
  get-set j k v [] = refl
  get-set j k v ((i, w) ∷ d) = ground (arith, get-set j k v d)

  pub get-pop_ne : (j k : ℕ) (d : Dict V) → k ≢ j → get j (pop k d) ≡ get j d
  unfolding get pop
  get-pop_ne j k [] h = refl
  get-pop_ne j k ((i, w) ∷ d) h = ground (arith, get-pop_ne j k d)

  pub get-pop_self : (k : ℕ) (d : Dict V) → IsDict d → get k (pop k d) ≡ none
  unfolding get pop
  get-pop_self k [] h = refl
  get-pop_self k ((i, w) ∷ d) h = ground (arith, get-pop_self k d h.1, h.0)

  pub set-IsDict : (k : ℕ) (v : V) (d : Dict V) → IsDict d → IsDict (set k v d)
  unfolding get set
  set-IsDict k v [] h = (refl, tt)
  set-IsDict k v ((i, w) ∷ d) h = ground (arith, set-IsDict k v d h.1, get-set i k v d, h.0)

  get-pop-none : (j k : ℕ) (d : Dict V) → get j d ≡ none → get j (pop k d) ≡ none
  unfolding get pop
  get-pop-none j k [] h = refl
  get-pop-none j k ((i, w) ∷ d) h = ground (arith, get-pop-none j k d)

  pub pop-IsDict : (k : ℕ) (d : Dict V) → IsDict d → IsDict (pop k d)
  unfolding pop
  pop-IsDict k [] h = tt
  pop-IsDict k ((i, w) ∷ d) h = ground (arith, pop-IsDict k d h.1, get-pop-none i k d h.0, h.0)

  pub length-values : (d : Dict V) → length (values d) ≡ length d
  length-values [] = refl
  length-values ((k, v) ∷ d) = ap suc (length-values d)

abbrev insert_key : ℕ → List ℕ → List ℕ
insert_key k [] = k ∷ []
insert_key k (j ∷ js) = if j == k then j ∷ js else j ∷ insert_key k js

abbrev remove_key : ℕ → List ℕ → List ℕ
remove_key k [] = []
remove_key k (j ∷ js) = if j == k then js else j ∷ remove_key k js

module _ {ℓ} {V : Type ℓ} where
  keys-set : (k : ℕ) (v : V) (d : Dict V) → keys (set k v d) ≡ insert_key k (keys d)
  unfolding set
  keys-set k v [] = refl
  keys-set k v ((i, w) ∷ d) = ground (arith, keys-set k v d)

  keys-pop : (k : ℕ) (d : Dict V) → keys (pop k d) ≡ remove_key k (keys d)
  unfolding pop
  keys-pop k [] = refl
  keys-pop k ((i, w) ∷ d) = ground (arith, keys-pop k d)

  -- Writing at an old key keeps the keys.
  pub keys-set_old : (k : ℕ) (v u : V) (d : Dict V) → get k d ≡ some u → keys (set k v d) ≡ keys d
  unfolding get set
  keys-set_old k v u [] g = cc
  keys-set_old k v u ((i, w) ∷ d) g = ground (arith, keys-set_old k v u d)

module _ {ℓ κ} {V : Type ℓ} {W : Type κ} where
  -- Two dicts with the same keys keep the same keys.
  pub keys-set_same :
      (k : ℕ) (v : V) (w : W) (d : Dict V) (e : Dict W)
      → keys d ≡ keys e
      → keys (set k v d) ≡ keys (set k w e)
  keys-set_same k v w d e h = rw (keys-set, keys-set, h)

  pub keys-pop_same :
      (k : ℕ) (d : Dict V) (e : Dict W) → keys d ≡ keys e → keys (pop k d) ≡ keys (pop k e)
  keys-pop_same k d e h = rw (keys-pop, keys-pop, h)

-- A statement about every entry.
abbrev pub Entries {ℓ κ} : {V : Type ℓ} → (ℕ → V → Type κ) → Dict V → Type κ
Entries P [] = Unit
Entries P ((k, v) ∷ d) = P k v × Entries P d

module _ {ℓ κ} {V : Type ℓ} (P : ℕ → V → Type κ) where
  pub set-Entries : (k : ℕ) (v : V) (d : Dict V) → P k v → Entries P d → Entries P (set k v d)
  unfolding set
  set-Entries k v [] p h = (p, tt)
  set-Entries k v ((i, w) ∷ d) p h = elim (Bool-cases (i == k)) [
    | inl same ↦ rw same (subst (λ (j : ℕ). P j v) (sym ((==_iff i k).0 same)) p, h.1)
    | inr other ↦ rw other (h.0, set-Entries k v d p h.1)
  ]

  pub pop-Entries : (k : ℕ) (d : Dict V) → Entries P d → Entries P (pop k d)
  unfolding pop
  pop-Entries k [] h = tt
  pop-Entries k ((i, w) ∷ d) h = elim (Bool-cases (i == k)) [
    | inl same ↦ rw same h.1
    | inr other ↦ rw other (h.0, pop-Entries k d h.1)
  ]

  pub Entries_at : (k : ℕ) (d : Dict V) {v : V} → Entries P d → get k d ≡ some v → P k v
  unfolding get
  Entries_at k [] h g = cc
  Entries_at k ((i, w) ∷ d) {v} h g = elim (Bool-cases (i == k)) [
    | inl same ↦
        let e : w ≡ v = ground arith in
        subst (λ (u : V). P k u) e (subst (λ (j : ℕ). P j w) ((==_iff i k).0 same) h.0)
    | inr other ↦ Entries_at k d h.1 (ground arith)
  ]
