-- ===== src/Runner/Cores.antt =====
-- runner/run.py: `cpuspec`, `parse_cores`, and the core lists that `main` takes from them.
pub mod Parsing
use game_bench.Common.{
  ℕ, zero, suc, ◌+◌, ◌-◌, ◌/◌, Bool, true, false, ◌||◌, Option, none, some, List, [], ◌∷◌, ◌++◌,
  map, ◌==◌, if◌then◌else◌,
}
use game_bench.Py.Int.{ℤ, pos, negsuc}
use game_bench.Py.Result.{Result, ok, raise, value_error, ◌>>=◌}
use game_bench.Py.Text.{Text, split, join}
use game_bench.Py.Decimal.{str, int}

unfoldable pub cpuspec : List ℕ → Text
cpuspec cores = join b',' (map str cores)

-- The numbers lo, lo + 1, …, n of them.
unfoldable pub range_from : ℕ → ℕ → List ℕ
range_from lo zero = []
range_from lo (suc n) = lo ∷ range_from (lo + 1) n

-- range(lo, hi)
unfoldable pub range : ℕ → ℕ → List ℕ
range lo hi = range_from lo (hi - lo)

-- `c in s`
unfoldable pub has_char : ℕ → Text → Bool
has_char c [] = false
has_char c (d ∷ s) = (d == c) || has_char c s

-- int(s) of a text with no minus sign, which is never negative.
unfoldable pub core_of : Option ℤ → Result ℕ
core_of none = raise value_error
core_of (some (pos n)) = ok n
core_of (some (negsuc n)) = raise value_error

unfoldable pub int_core : Text → Result ℕ
unfolding core_of
int_core s = core_of (int s)

-- `a, b = part.split("-")` raises unless there are two pieces.
unfoldable pub span_of : List Text → Result (List ℕ)
span_of (a ∷ b ∷ []) = do lo ← int_core a; hi ← int_core b; ok (range lo (hi + 1))
span_of _ = raise value_error

unfoldable pub parse_part : Text → Result (List ℕ)
unfolding span_of
parse_part part =
    if has_char b'-' part then span_of (split b'-' part) else (do c ← int_core part; ok (c ∷ []))

unfoldable pub parse_parts : List Text → Result (List ℕ)
parse_parts [] = ok []
parse_parts (part ∷ parts) = parse_part part >>= λ cs. parse_parts parts >>= λ rest. ok (cs ++ rest)

-- `if not s: return default`
unfoldable pub parse_cores : Text → List ℕ → Result (List ℕ)
unfolding parse_parts
parse_cores [] default = ok default
parse_cores (c ∷ s) default = parse_parts (split b',' (c ∷ s))

-- The defaults of `main`: the first half of the cores for the server, the rest for the client.
unfoldable pub default_server_cores : ℕ → List ℕ
default_server_cores ncpu = range 0 (ncpu / 2)

unfoldable pub default_client_cores : ℕ → List ℕ
default_client_cores ncpu = range (ncpu / 2) ncpu

unfoldable pub contains : ℕ → List ℕ → Bool
contains c [] = false
contains c (d ∷ ds) = (d == c) || contains c ds

-- `set(server_cores) & set(client_cores)`, as a test
unfoldable pub overlap : List ℕ → List ℕ → Bool
overlap [] ds = false
overlap (c ∷ cs) ds = contains c ds || overlap cs ds
