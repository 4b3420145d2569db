-- ===== src/Plot/Load.antt =====
-- runner/plot.py: the servers that `load` finds and their order. The set of names is a list, to which
-- a name is added once.
pub mod Present
pub mod Distinct
use game_bench.Common.{
  ℕ, zero, suc, ◌+◌, ◌*◌, ◌/◌, ◌%◌, ◌==◌, Bool, true, false, ◌&&◌, ◌||◌, not, Option, none, some,
  List, [], ◌∷◌, ◌++◌, leb, ltb, if◌then◌else◌, map, length, get_elem?,
}
use game_bench.Py.Text.{Text, codes, text_eq}

abbrev pub order : List Text
order =
    codes "go"
    ∷ codes "go-pool"
    ∷ codes "go-epoll"
    ∷ codes "rust"
    ∷ codes "ocaml"
    ∷ codes "elixir"
    ∷ codes "python"
    ∷ []

unfoldable pub member : Text → List Text → Bool
member s [] = false
member s (t ∷ ts) = text_eq t s || member s ts

-- servers.add(s)
unfoldable pub add : Text → List Text → List Text
add s ts = if member s ts then ts else s ∷ ts

unfoldable pub server_set : List Text → List Text
server_set [] = []
server_set (s ∷ rows) = add s (server_set rows)

-- a < b of strings, by code points
unfoldable pub before : Text → Text → Bool
before [] [] = false
before [] (d ∷ t) = true
before (c ∷ s) [] = false
before (c ∷ s) (d ∷ t) = let rest = before s t in if c == d then rest else ltb c d

unfoldable pub insert : Text → List Text → List Text
insert s [] = s ∷ []
insert s (t ∷ ts) = let rest = insert s ts in if before t s then t ∷ rest else s ∷ t ∷ ts

-- sorted(…) of texts
unfoldable pub sorted : List Text → List Text
sorted [] = []
sorted (s ∷ ts) = insert s (sorted ts)

unfoldable pub keep : (Text → Bool) → List Text → List Text
keep p [] = []
keep p (s ∷ ts) = let rest = keep p ts in if p s then s ∷ rest else rest

-- `[s for s in ORDER if s in servers] + sorted(servers - set(ORDER))`
unfoldable pub present_of : List Text → List Text
present_of servers =
    keep (λ s. member s servers) order ++ sorted (keep (λ s. not (member s order)) servers)

-- The servers of the report, from the server column of the rows.
unfoldable pub present : List Text → List Text
present rows = present_of (server_set rows)
