-- ===== src/Plot/Client.antt =====
-- runner/plot.py: the state of the script JS, which is the set of the hidden servers, and what a click on
-- the legend makes of it.
pub mod Shown
use game_bench.Common.{Bool, true, false, not, List, [], ◌∷◌, ◌++◌, map, if◌then◌else◌}
use game_bench.Py.Text.{Text, text_eq}
use game_bench.Plot.Load.{member}
use game_bench.Plot.Charts.{Format}
use game_bench.Plot.Page.{Config, is_empty}
use game_bench.Plot.Render.{render}

-- Where a click lands: on the button `show-all`, on one with a data-server, or on neither.
pub data Click : Type 0 where
  show_all : Click
  button : Text → Click
  elsewhere : Click

-- delete hidden[s]
unfoldable pub delete : Text → List Text → List Text
delete s [] = []
delete s (t ∷ ts) = let rest = delete s ts in if text_eq t s then rest else t ∷ rest

-- `if(hidden[s]) delete hidden[s]; else hidden[s] = true;`
unfoldable pub toggle : Text → List Text → List Text
unfolding delete
toggle s hidden = if member s hidden then delete s hidden else hidden ++ s ∷ []

-- The listener; `if(!s) return` passes over an empty name.
unfoldable pub click : Click → List Text → List Text
unfolding toggle
click show_all hidden = []
click (button []) hidden = hidden
click (button (c ∷ s)) hidden = toggle (c ∷ s) hidden
click elsewhere hidden = hidden

unfoldable pub clicks : List Click → List Text → List Text
unfolding click
clicks [] hidden = hidden
clicks (k ∷ ks) hidden = clicks ks (click k hidden)

-- What `refresh` sets: the charts, the class `dim` of the rows and `aria-pressed` of the buttons, by their
-- servers, and whether the button `show-all` is hidden.
pub record View : Type 0 where
  pub drawn : List Text
  pub dim : List (Text × Bool)
  pub pressed : List (Text × Bool)
  pub show_all_hidden : Bool

unfoldable pub refresh : Format → Config → List Text → List Text → List Text → View
unfolding is_empty
refresh fmt cfg rows buttons hidden = record {
  drawn = map (render fmt cfg hidden) cfg.charts;
  dim = map (λ s. (s, member s hidden)) rows;
  pressed = map (λ s. (s, not (member s hidden))) buttons;
  show_all_hidden = is_empty hidden;
}

-- TAB_JS: a tab with its panel, and the tab that is selected.
pub record Tab : Type 0 where
  pub id : Text
  pub controls : Text
  pub selected : Bool
  pub panel_hidden : Bool

unfoldable pub sel : Text → List Tab → List Tab
sel id [] = []
sel id (t ∷ ts) =
    let on = text_eq t.id id in record t { selected = on; panel_hidden = not on } ∷ sel id ts
