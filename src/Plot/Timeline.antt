-- ===== src/Plot/Timeline.antt =====
-- runner/plot.py: `load_timeline`. A row of timeline.csv is its key, its second and
-- its other cells: a number of thousandths, or none where `float` raises.
pub mod Ordered
use game_bench.Common.{ℕ, Option, Bool, ◌&&◌, List, [], ◌∷◌, ◌++◌, ◌==◌, ltb, if◌then◌else◌}
use game_bench.Py.Text.{Text, text_eq}
use game_bench.Py.Assoc.{find, modify, map_values}

pub record TlRow : Type 0 where
  pub server : Text
  pub conns : ℕ
  pub trial : ℕ
  pub t_s : ℕ
  pub cells : List (Text × Option ℕ)

-- trial -> rows, and (server, conns) -> trial -> rows
abbrev pub Trials : Type 0
Trials = List (ℕ × List TlRow)

abbrev pub Runs : Type 0
Runs = List ((Text × ℕ) × Trials)

unfoldable pub same_run : Text × ℕ → Text × ℕ → Bool
same_run (s, c) (t, d) = text_eq s t && (c == d)

-- data[(server, conns)][trial].append(row)
unfoldable pub append_row : TlRow → Runs → Runs
append_row r =
    modify same_run [] (r.server, r.conns) (modify ◌==◌ [] r.trial (λ rows. rows ++ r ∷ []))

unfoldable pub load_rows : List TlRow → Runs → Runs
unfolding append_row
load_rows [] g = g
load_rows (r ∷ rs) g = load_rows rs (append_row r g)

unfoldable pub insert_row : TlRow → List TlRow → List TlRow
insert_row r [] = r ∷ []
insert_row r (u ∷ us) =
    let rest = insert_row r us in if ltb u.t_s r.t_s then u ∷ rest else r ∷ u ∷ us

-- rows.sort(key=lambda r: int(r["t_s"])), which is stable
unfoldable pub sort_rows : List TlRow → List TlRow
sort_rows [] = []
sort_rows (r ∷ rs) = insert_row r (sort_rows rs)

unfoldable pub load_timeline : List TlRow → Runs
unfolding load_rows sort_rows
load_timeline rs = map_values same_run [] (map_values ◌==◌ [] sort_rows) (load_rows rs [])

-- data[(server, conns)][trial]
unfoldable pub rows_of : Text × ℕ → ℕ → Runs → List TlRow
rows_of k trial g = find ◌==◌ [] trial (find same_run [] k g)
