-- ===== src/Py/Result.antt =====
-- Exceptions as values.
use game_bench.Common.{◌≡◌, refl, Bool, true, false, Option, none, some}

pub data Exception : Type 0 where
  struct_error index_error value_error key_error zero_division os_error system_exit : Exception

pub data Result {ℓ} (A : Type ℓ) : Type ℓ where
  ok : A → Result A
  raise : Exception → Result A

module _ {ℓ κ} {A : Type ℓ} {B : Type κ} where
  infixl 5 ◌>>=◌
  -- An exception passes over what follows.
  abbrev pub ◌>>=◌ : Result A → (A → Result B) → Result B
  raise e >>= next = raise e
  ok a >>= next = next a

  -- What a chain that did not raise is made of.
  pub bind-ok :
      {b : B} (r : Result A) (next : A → Result B)
      → r >>= next ≡ ok b
      → (a : A) × (r ≡ ok a) × (next a ≡ ok b)
  bind-ok (raise e) next h = cc
  bind-ok (ok a) next h = (a, refl, h)

infixl 5 ◌>>◌
abbrev pub ◌>>◌ {ℓ} : {B : Type ℓ} → Result (Unit {0}) → Result B → Result B
raise e >> next = raise e
ok _ >> next = next

-- Stop with the exception unless the test holds.
abbrev pub require : Exception → Bool → Result (Unit {0})
require e false = raise e
require e true = ok tt

abbrev pub or_raise {ℓ} : {A : Type ℓ} → Option A → Exception → Result A
or_raise none e = raise e
or_raise (some a) e = ok a
