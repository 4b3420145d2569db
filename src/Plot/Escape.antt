-- ===== src/Plot/Escape.antt =====
-- runner/plot.py: `esc`, three calls of str.replace for one character each.
pub mod Entities
pub mod Attributes
use game_bench.Common.{ℕ, List, [], ◌∷◌, ◌++◌, ◌==◌, if◌then◌else◌}
use game_bench.Py.Text.{Text, codes}

-- s.replace(c, by), for one character
unfoldable pub replace : ℕ → Text → Text → Text
replace c by [] = []
replace c by (d ∷ s) = let rest = replace c by s in if d == c then by ++ rest else d ∷ rest

unfoldable pub esc : Text → Text
esc s = replace b'>' (codes "&gt;") (replace b'<' (codes "&lt;") (replace b'&' (codes "&amp;") s))
