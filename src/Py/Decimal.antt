-- ===== src/Py/Decimal.antt =====
-- `str(n)` and `int(s)`.
use game_bench.Common.{
  ℕ, zero, suc, ◌+◌, ◌-◌, ◌*◌, ◌/◌, ◌%◌, ◌<◌, ◌≡◌, ◌≢◌, refl, ap, ◌∙◌, inl, inr, Bool, true, false,
  ◌&&◌, Option, none, some, [], ◌∷◌, ◌==◌, leb, ltb, if◌then◌else◌, arith, Bool-cases, All,
  All-mono,
}
use game_bench.Py.Int.{ℤ, pos, negsuc}
use game_bench.Py.Text.{Text, is_space, NoSpace, strip, strip_id}

abbrev pub is_digit : ℕ → Bool
is_digit c = leb 48 c && leb c 57

-- One digit per fuel, the last one first.
digits : ℕ → ℕ → Text → Text
digits zero n out = out
digits (suc fuel) n out =
    let more = digits fuel (n / 10) ((48 + n % 10) ∷ out) in
    if ltb n 10 then (48 + n) ∷ out else more

-- str(n) of n ≥ 0; the fuel is above the number of digits.
unfoldable pub str : ℕ → Text
unfolding digits
str n = digits (suc n) n []

-- Digits with single underscores between them; `after` says that the last character was a digit.
scan : ℕ → Bool → Text → Option ℕ
scan n after [] = if after then some n else none
scan n after (c ∷ s) = elim (is_digit c) [
  | true ↦ scan (n * 10 + (c - 48)) true s
  | false ↦ elim ((c == b'_') && after) [ true ↦ scan n false s | false ↦ none ]
]

unfoldable pub unsigned : Text → Option ℕ
unfolding scan
unsigned s = scan 0 false s

plain : Option ℕ → Option ℤ
plain none = none
plain (some n) = some (pos n)

negated : Option ℕ → Option ℤ
negated none = none
negated (some zero) = some (pos 0)
negated (some (suc n)) = some (negsuc n)

signed : Text → Option ℤ
unfolding plain negated
signed [] = none
signed (c ∷ s) =
    if c == b'-'
    then negated (unsigned s)
    else if c == b'+'
    then plain (unsigned s)
    else plain (unsigned (c ∷ s))

-- int(s); `none` is ValueError.
unfoldable pub int : Text → Option ℤ
unfolding signed unsigned
int s = signed (strip s)

abbrev pub IsDigits : Text → Type 0
IsDigits = All (λ c. is_digit c ≡ true)

digits-IsDigits : (fuel n : ℕ) (out : Text) → IsDigits out → IsDigits (digits fuel n out)
unfolding digits
digits-IsDigits zero n out h = h
digits-IsDigits (suc fuel) n out h = elim (Bool-cases (ltb n 10)) [
  | inl last ↦ rw last (ground arith, h)
  | inr more ↦ rw more (digits-IsDigits fuel (n / 10) ((48 + n % 10) ∷ out) (ground arith, h))
]

pub str-IsDigits : (n : ℕ) → IsDigits (str n)
unfolding str
str-IsDigits n = digits-IsDigits (suc n) n [] tt

digit_of : (d : ℕ) → d < 10 → is_digit (48 + d) ≡ true
digit_of d h = ground arith

scan_digit :
    (m d : ℕ) (after : Bool) (out : Text)
    → d < 10
    → scan m after ((48 + d) ∷ out) ≡ scan (m * 10 + d) true out
unfolding scan
scan_digit m d after out h = rw (digit_of d h, scan) (ap (λ k. scan k true out) (omega arith))

-- Reading on from the digits of n.
scan-digits :
    (fuel n : ℕ) (out : Text) → n < fuel → scan 0 false (digits fuel n out) ≡ scan n true out
unfolding digits scan
scan-digits zero n out h = absurd (omega arith)
scan-digits (suc fuel) n out h = elim (Bool-cases (ltb n 10)) [
  | inl last ↦
      rw last (scan_digit 0 n false out (ground arith) ∙ ap (λ k. scan k true out) (omega arith))
  | inr more ↦ rw more (
      scan-digits fuel (n / 10) ((48 + n % 10) ∷ out) (ground arith)
      ∙ scan_digit (n / 10) (n % 10) true out (omega arith)
      ∙ ap (λ k. scan k true out) (omega arith))
]

pub unsigned-str : (n : ℕ) → unsigned (str n) ≡ some n
unfolding str unsigned
unsigned-str n = scan-digits (suc n) n [] (omega arith)

digits-ne-nil : (fuel n : ℕ) (out : Text) → out ≢ [] → digits fuel n out ≢ []
unfolding digits
digits-ne-nil zero n out h = h
digits-ne-nil (suc fuel) n out h = elim (Bool-cases (ltb n 10)) [
  | inl last ↦ rw last (λ e. cc)
  | inr more ↦ rw more (digits-ne-nil fuel (n / 10) ((48 + n % 10) ∷ out) (λ e. cc))
]

pub str-ne-nil : (n : ℕ) → str n ≢ []
unfolding str digits
str-ne-nil n = elim (Bool-cases (ltb n 10)) [
  | inl last ↦ rw last (λ e. cc)
  | inr more ↦ rw more (digits-ne-nil n (n / 10) ((48 + n % 10) ∷ []) (λ e. cc))
]

pub no_space_of_digit : (c : ℕ) → is_digit c ≡ true → is_space c ≡ false
no_space_of_digit c h = ground arith

pub str-NoSpace : (n : ℕ) → NoSpace (str n)
str-NoSpace n = All-mono no_space_of_digit (str n) (str-IsDigits n)

no_sign : (c : ℕ) → is_digit c ≡ true → ((c == b'-') ≡ false) × ((c == b'+') ≡ false)
no_sign c h = ground arith

signed_digits :
    (s : Text) (n : ℕ) → s ≢ [] → IsDigits s → unsigned s ≡ some n → signed s ≡ some (pos n)
unfolding signed
signed_digits [] n full h e = absurd (full refl)
signed_digits (c ∷ s) n full h e = rw ((no_sign c h.0).0, (no_sign c h.0).1, e)

-- int(str(n)) is n.
pub int-str : (n : ℕ) → int (str n) ≡ some (pos n)
unfolding int
int-str n =
    ap signed (strip_id (str n) (str-NoSpace n))
    ∙ signed_digits (str n) n (str-ne-nil n) (str-IsDigits n) (unsigned-str n)
