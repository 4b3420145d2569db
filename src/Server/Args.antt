-- ===== src/Server/Args.antt =====
-- servers/python/server.py: `parse_args`.
use game_bench.Common.{
  ℕ, ◌≡◌, ◌≢◌, Bool, true, ◌||◌, some, List, [], ◌∷◌, if◌then◌else◌, arith, All-mono,
}
use game_bench.Py.Int.{ℤ, pos}
use game_bench.Py.Result.{Result, ok, value_error, ◌>>=◌, or_raise}
use game_bench.Py.Text.{Text, codes, text_eq, split, split_one}
use game_bench.Py.Decimal.{str, int, int-str, is_digit, str-IsDigits}

-- port and tick
abbrev pub Args : Type 0
Args = ℤ × ℤ

abbrev is_addr : Text → Bool
is_addr a = text_eq a (codes "-addr") || text_eq a (codes "--addr")

abbrev is_tick : Text → Bool
is_tick a = text_eq a (codes "-tick") || text_eq a (codes "--tick")

last_of : Text → List Text → Text
last_of p [] = p
last_of p (q ∷ ps) = last_of q ps

-- a.split(":")[-1]
after_colon : List Text → Text
unfolding last_of
after_colon [] = []
after_colon (p ∷ ps) = last_of p ps

-- The loop over the arguments. A flag is only a flag where a value follows it.
unfoldable pub parse_from : List Text → ℤ → ℤ → Result Args
unfolding after_colon
parse_from [] port tick = ok (port, tick)
parse_from (a ∷ []) port tick = ok (port, tick)
parse_from (a ∷ v ∷ rest) port tick =
    let addr =
      or_raise (int (after_colon (split b':' v))) value_error >>= λ p. parse_from rest p tick in
    let hz = or_raise (int v) value_error >>= λ t. parse_from rest port t in
    let skip = parse_from (v ∷ rest) port tick in
    if is_addr a then addr else if is_tick a then hz else skip

unfoldable pub parse_args : List Text → Result Args
unfolding parse_from
parse_args a = parse_from a (pos 9000) (pos 30)

not_colon : (c : ℕ) → is_digit c ≡ true → c ≢ b':'
not_colon c h = ground arith

-- `:port`, as the runner writes it.
port_text : (n : ℕ) → int (after_colon (split b':' (b':' ∷ str n))) ≡ some (pos n)
unfolding after_colon split
port_text n = rw (split_one b':' (str n) (All-mono not_colon (str n) (str-IsDigits n))) (int-str n)

-- The arguments that the runner gives are read as the port and the tick that it means.
pub parse_args_runner :
    (port tick : ℕ)
    → parse_args (codes "-addr" ∷ (b':' ∷ str port) ∷ codes "-tick" ∷ str tick ∷ [])
      ≡ ok (pos port, pos tick)
unfolding parse_args text_eq
parse_args_runner port tick = rw (port_text port, int-str tick)
