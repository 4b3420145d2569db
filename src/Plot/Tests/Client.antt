-- ===== src/Plot/Tests/Client.antt =====
-- The script of the page at concrete rows and clicks.
use game_bench.Common.{◌≡◌, refl, true, false, not, ◌&&◌, List, [], ◌∷◌, All}
use game_bench.Py.Text.{codes, text_eq}
use game_bench.Py.Assoc.{find}
use game_bench.Plot.Load.{member}
use game_bench.Plot.Markup.{IsBalanced}
use game_bench.Plot.Charts.{Chart}
use game_bench.Plot.Page.{is_empty, cfg_of, load_data, load_servers, load_conns}
use game_bench.Plot.Render.{Series, visible, y_top, render}
use game_bench.Plot.Render.Balanced.{render-IsBalanced}
use game_bench.Plot.Render.Frame.{InChart, render-InChart}
use game_bench.Plot.Client.{
  Click, show_all, button, elsewhere, click, clicks, toggle, delete, Tab, sel,
}
use game_bench.Plot.Client.Shown.{shows, off_after, visible-clicks}
use game_bench.Plot.Tests.Page.{whole, whole-IsPlain, csv}

abbrev latency : Chart
latency = record {
  field = codes "p99_ms";
  title = codes "Latency p99";
  ylabel = codes "ms";
  digits = 1;
  comma = false;
}

abbrev some_clicks : List Click
some_clicks =
    button (codes "go")
    ∷ show_all
    ∷ elsewhere
    ∷ button (codes "zig")
    ∷ button (codes "go")
    ∷ button (codes "zig")
    ∷ []

clicks_run : clicks some_clicks [] ≡ codes "go" ∷ []
unfolding clicks click toggle delete member text_eq
clicks_run = refl

abbrev tabs : List Tab
tabs =
    record {
      id = codes "tab-sat";
      controls = codes "panel-sat";
      selected = true;
      panel_hidden = false;
    }
    ∷ record {
      id = codes "tab-tl";
      controls = codes "panel-tl";
      selected = false;
      panel_hidden = true;
    }
    ∷ []

sel_run : sel (codes "tab-sat") (sel (codes "tab-tl") tabs) ≡ tabs
unfolding sel text_eq
sel_run = refl

render-IsBalanced_example : IsBalanced (
    render whole
      (cfg_of (load_data csv) (load_servers csv) (load_conns csv))
      (codes "go" ∷ [])
      latency)
render-IsBalanced_example =
    render-IsBalanced whole whole-IsPlain
      (cfg_of (load_data csv) (load_servers csv) (load_conns csv)) (codes "go" ∷ []) latency

render-InChart_example :
    All
      (λ (e : Series).
        All
          (InChart (load_conns csv) (
            y_top (
              visible
                (cfg_of (load_data csv) (load_servers csv) (load_conns csv))
                (codes "go" ∷ [])
                latency)))
          e.1)
      (visible
        (cfg_of (load_data csv) (load_servers csv) (load_conns csv))
        (codes "go" ∷ [])
        latency)
render-InChart_example =
    render-InChart (load_data csv) (load_servers csv) (load_conns csv) (codes "go" ∷ []) latency

visible-clicks_example :
    shows (codes "zig") (
      visible
        (cfg_of (load_data csv) (load_servers csv) (load_conns csv))
        (clicks some_clicks [])
        latency)
    ≡ (member (codes "zig") (cfg_of (load_data csv) (load_servers csv) (load_conns csv)).servers
        && (not (off_after (codes "zig") false some_clicks)
            && not (
                is_empty (
                  find text_eq [] (codes "zig") (
                    find text_eq []
                      (codes "p99_ms")
                      (cfg_of (load_data csv) (load_servers csv) (load_conns csv)).series)))))
visible-clicks_example =
    visible-clicks (cfg_of (load_data csv) (load_servers csv) (load_conns csv)) latency some_clicks
      (codes "zig")
