-- ===== src/Py/Struct.antt =====
-- `struct.pack`, `struct.pack_into` and `struct.unpack_from`, big-endian. A text of bytes is a list of
-- numbers below 256.
use game_bench.Common.{
  ap, ◌∙◌, zero, suc, refl, length-drop, ℕ, ◌+◌, ◌-◌, ◌*◌, ◌/◌, ◌%◌, ◌^◌, ◌<◌, ◌≤◌, ◌≡◌, List, [],
  ◌∷◌, ◌++◌, arith, ltb, leb, if◌then◌else◌, length, take, drop, All, length-append, take-append,
  drop-append, drop-append_add, le→leb,
}
use game_bench.Py.Int.{ℤ, pos, negsuc}
use game_bench.Py.Result.{Result, ok, raise, struct_error}

abbrev pub Bytes : Type 0
Bytes = List ℕ

abbrev pub IsBytes : Bytes → Type 0
IsBytes = All (λ b. b < 256)

abbrev pub be16 : ℕ → Bytes
be16 n = (n / 256) % 256 ∷ n % 256 ∷ []

abbrev pub be32 : ℕ → Bytes
be32 n = (n / 2 ^ 24) % 256 ∷ (n / 2 ^ 16) % 256 ∷ (n / 2 ^ 8) % 256 ∷ n % 256 ∷ []

-- The bit pattern of a signed 32-bit number.
abbrev pub bits32 : ℤ → ℕ
bits32 (pos n) = n
bits32 (negsuc n) = 2 ^ 32 - 1 - n

-- struct.pack(">H", n), (">I", n) and (">i", x): a value out of range raises.
unfoldable pub pack_u16 : ℕ → Result Bytes
pack_u16 n = if ltb n (2 ^ 16) then ok (be16 n) else raise struct_error

unfoldable pub pack_u32 : ℕ → Result Bytes
pack_u32 n = if ltb n (2 ^ 32) then ok (be32 n) else raise struct_error

abbrev pub InI32 : ℤ → Type 0
InI32 (pos n) = n < 2 ^ 31
InI32 (negsuc n) = n < 2 ^ 31

unfoldable pub pack_i32 : ℤ → Result Bytes
pack_i32 (pos n) = if ltb n (2 ^ 31) then ok (be32 (bits32 (pos n))) else raise struct_error
pack_i32 (negsuc n) = if ltb n (2 ^ 31) then ok (be32 (bits32 (negsuc n))) else raise struct_error

-- The number that a bit pattern stands for, of two bytes and of four.
abbrev pub signed16 : ℕ → ℤ
signed16 bits = if leb (2 ^ 15) bits then negsuc (2 ^ 16 - 1 - bits) else pos bits

abbrev pub signed32 : ℕ → ℤ
signed32 bits = if leb (2 ^ 31) bits then negsuc (2 ^ 32 - 1 - bits) else pos bits

abbrev pub read_u32 : Bytes → Result ℕ
read_u32 (a ∷ b ∷ c ∷ d ∷ rest) = ok (a * 2 ^ 24 + b * 2 ^ 16 + c * 2 ^ 8 + d)
read_u32 _ = raise struct_error

abbrev pub read_u16 : Bytes → Result ℕ
read_u16 (a ∷ b ∷ rest) = ok (a * 2 ^ 8 + b)
read_u16 _ = raise struct_error

abbrev pub map_ok : (ℕ → ℤ) → Result ℕ → Result ℤ
map_ok f (ok n) = ok (f n)
map_ok f (raise e) = raise e

-- struct.unpack_from(">I", bs, off), and so on: too few bytes raise.
unfoldable pub unpack_u32 : Bytes → ℕ → Result ℕ
unpack_u32 bs off = read_u32 (drop off bs)

unfoldable pub unpack_u16 : Bytes → ℕ → Result ℕ
unpack_u16 bs off = read_u16 (drop off bs)

unfoldable pub unpack_i16 : Bytes → ℕ → Result ℤ
unpack_i16 bs off = map_ok signed16 (read_u16 (drop off bs))

unfoldable pub unpack_i32 : Bytes → ℕ → Result ℤ
unpack_i32 bs off = map_ok signed32 (read_u32 (drop off bs))

-- struct.pack_into: the packed bytes overwrite the buffer from `off` on, and have to fit.
unfoldable pub pack_into : Bytes → ℕ → Bytes → Result Bytes
pack_into buf off bs =
    if leb (off + length bs) (length buf)
    then ok (take off buf ++ (bs ++ drop (off + length bs) buf))
    else raise struct_error

-- The bytes of a buffer behind a prefix are overwritten, the others stay.
pub pack_into-append :
    (done bs rest : Bytes)
    → length bs ≤ length rest
    → pack_into (done ++ rest) (length done) bs ≡ ok (done ++ (bs ++ drop (length bs) rest))
unfolding pack_into
pack_into-append done bs rest h = rw (
  le→leb (length done + length bs) (length (done ++ rest)) (omega (arith, length-append done rest)),
  take-append,
  drop-append_add,
)

pub be32-IsBytes : (n : ℕ) → IsBytes (be32 n)
be32-IsBytes n = omega arith

-- The bytes of a number add up to it.
pub be32_value :
    (n : ℕ)
    → n < 2 ^ 32
    → (n / 2 ^ 24) % 256 * 2 ^ 24
        + (n / 2 ^ 16) % 256 * 2 ^ 16
        + (n / 2 ^ 8) % 256 * 2 ^ 8
        + n % 256
      ≡ n
be32_value n h = omega arith

pub be16_value : (n : ℕ) → n < 2 ^ 16 → (n / 256) % 256 * 2 ^ 8 + n % 256 ≡ n
be16_value n h = omega arith

pub read_u32-be32 : (n : ℕ) (rest : Bytes) → n < 2 ^ 32 → read_u32 (be32 n ++ rest) ≡ ok n
read_u32-be32 n rest h = ap (λ (k : ℕ). ok k) (omega arith)

pub read_u16-be16 : (n : ℕ) (rest : Bytes) → n < 2 ^ 16 → read_u16 (be16 n ++ rest) ≡ ok n
read_u16-be16 n rest h = ap (λ (k : ℕ). ok k) (omega arith)

-- What was packed is read back.
pub unpack_u32-be32 :
    (done rest : Bytes) (n : ℕ)
    → n < 2 ^ 32
    → unpack_u32 (done ++ (be32 n ++ rest)) (length done) ≡ ok n
unfolding unpack_u32
unpack_u32-be32 done rest n h =
    ap read_u32 (drop-append done (be32 n ++ rest)) ∙ read_u32-be32 n rest h

pub signed32-bits32 : (x : ℤ) → InI32 x → signed32 (bits32 x) ≡ x
signed32-bits32 (pos n) h = ground arith
signed32-bits32 (negsuc n) h = ground arith

pub bits32-lt : (x : ℤ) → InI32 x → bits32 x < 2 ^ 32
bits32-lt (pos n) h = omega arith
bits32-lt (negsuc n) h = omega arith

pub pack_i32_in_range : (x : ℤ) → InI32 x → pack_i32 x ≡ ok (be32 (bits32 x))
unfolding pack_i32
pack_i32_in_range (pos n) h = ground arith
pack_i32_in_range (negsuc n) h = ground arith

pub pack_i32_out_of_range : (x : ℤ) → ¬ InI32 x → pack_i32 x ≡ raise struct_error
unfolding pack_i32
pack_i32_out_of_range (pos n) h = ground arith
pack_i32_out_of_range (negsuc n) h = ground arith

-- Reading inside the bytes does not raise.
All-drop : (n : ℕ) (bs : Bytes) → IsBytes bs → IsBytes (drop n bs)
All-drop zero bs h = h
All-drop (suc n) [] h = tt
All-drop (suc n) (b ∷ bs) h = All-drop n bs h.1

read_u32_in :
    (bs : Bytes) → 4 ≤ length bs → IsBytes bs → (n : ℕ) × (read_u32 bs ≡ ok n) × (n < 2 ^ 32)
read_u32_in (a ∷ b ∷ c ∷ d ∷ bs) l h = (a * 2 ^ 24 + b * 2 ^ 16 + c * 2 ^ 8 + d, refl, omega arith)
read_u32_in (a ∷ b ∷ c ∷ []) l h = absurd (omega arith)
read_u32_in (a ∷ b ∷ []) l h = absurd (omega arith)
read_u32_in (a ∷ []) l h = absurd (omega arith)
read_u32_in [] l h = absurd (omega arith)

read_u16_in : (bs : Bytes) → 2 ≤ length bs → (n : ℕ) × (read_u16 bs ≡ ok n)
read_u16_in (a ∷ b ∷ bs) l = (a * 2 ^ 8 + b, refl)
read_u16_in (a ∷ []) l = absurd (omega arith)
read_u16_in [] l = absurd (omega arith)

pub unpack_u32_in :
    (bs : Bytes) (off : ℕ)
    → off + 4 ≤ length bs
    → IsBytes bs
    → (n : ℕ) × (unpack_u32 bs off ≡ ok n) × (n < 2 ^ 32)
unfolding unpack_u32
unpack_u32_in bs off l h =
    read_u32_in (drop off bs) (omega (arith, length-drop off bs)) (All-drop off bs h)

pub unpack_i16_in :
    (bs : Bytes) (off : ℕ) → off + 2 ≤ length bs → (x : ℤ) × (unpack_i16 bs off ≡ ok x)
unfolding unpack_i16
unpack_i16_in bs off l =
    let (n, e) = read_u16_in (drop off bs) (omega (arith, length-drop off bs)) in
    (signed16 n, ap (map_ok signed16) e)

-- A signed 16-bit number as its bit pattern, and back.
abbrev pub bits16 : ℤ → ℕ
bits16 (pos n) = n
bits16 (negsuc n) = 2 ^ 16 - 1 - n

abbrev pub InI16 : ℤ → Type 0
InI16 (pos n) = n < 2 ^ 15
InI16 (negsuc n) = n < 2 ^ 15

pub signed16-bits16 : (x : ℤ) → InI16 x → signed16 (bits16 x) ≡ x
signed16-bits16 (pos n) h = ground arith
signed16-bits16 (negsuc n) h = ground arith

pub bits16-lt : (x : ℤ) → InI16 x → bits16 x < 2 ^ 16
bits16-lt (pos n) h = omega arith
bits16-lt (negsuc n) h = omega arith
