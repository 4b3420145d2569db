-- ===== src/Plot/Page.antt =====
-- runner/plot.py: `load`, and the pages that `saturation_body` and `build_html` put together. The style
-- sheet and the scripts are texts that the page is given.
pub mod Balanced
pub mod Complete
use game_bench.Common.{
  ℕ, zero, suc, ◌+◌, Bool, true, false, ◌||◌, Option, none, some, List, [], ◌∷◌, ◌++◌, map, ◌==◌,
  if◌then◌else◌, length,
}
use game_bench.Py.Text.{Text, codes, text_eq}
use game_bench.Py.Assoc.{find}
use game_bench.Py.Decimal.{str}
use game_bench.Plot.Escape.{esc}
use game_bench.Plot.Load.{present}
use game_bench.Plot.Series.{Row, load_field, sort_numbers, points}
use game_bench.Plot.Timeline.{Runs}
use game_bench.Plot.Charts.{Chart, charts, slot, Format}
use game_bench.Plot.Table.{Loaded, join_all, table_html, legend_html}
use game_bench.Plot.Cards.{basename, timeline_body}

-- A row of the CSV: a column is a number of thousandths, or none where `float` raises.
pub record CsvRow : Type 0 where
  pub server : Text
  pub conns : ℕ
  pub columns : List (Text × Option ℕ)

-- float(row[field]), none also for a missing column
unfoldable pub column : Text → CsvRow → Option ℕ
column field r = find text_eq none field r.columns

unfoldable pub row_for : Text → CsvRow → Row
unfolding column
row_for field r = record { server = r.server; conns = r.conns; value = column field r }

unfoldable pub contains : ℕ → List ℕ → Bool
contains c [] = false
contains c (d ∷ ds) = (d == c) || contains c ds

unfoldable pub is_empty {ℓ} : {A : Type ℓ} → List A → Bool
is_empty [] = true
is_empty (x ∷ xs) = false

-- The set of the loads: conns.add(c)
unfoldable pub conns_set : List CsvRow → List ℕ
conns_set [] = []
conns_set (r ∷ rs) =
    let rest = conns_set rs in if contains r.conns rest then rest else r.conns ∷ rest

-- The three results of load: data, present, sorted(conns).
unfoldable pub load_data : List CsvRow → Loaded
unfolding row_for
load_data rows field = load_field (map (row_for field) rows) []

unfoldable pub load_servers : List CsvRow → List Text
load_servers rows = present (map (λ r. r.server) rows)

unfoldable pub load_conns : List CsvRow → List ℕ
unfolding conns_set
load_conns rows = sort_numbers (conns_set rows)

-- The empty cards that the script fills: chart-0, chart-1, …
unfoldable pub chart_cards : ℕ → List Chart → Text
chart_cards i [] = []
chart_cards i (c ∷ cs) =
    codes "<div class=\"card\"><div id=\"chart-"
    ++ (str i ++ (codes "\"></div></div>" ++ chart_cards (i + 1) cs))

-- by_server of series_json: a server with no point is left out.
unfoldable pub add_series :
    Text → List (ℕ × ℕ) → List (Text × List (ℕ × ℕ)) → List (Text × List (ℕ × ℕ))
add_series s [] rest = rest
add_series s (p ∷ ps) rest = (s, p ∷ ps) ∷ rest

unfoldable pub by_server : Loaded → Text → List ℕ → List Text → List (Text × List (ℕ × ℕ))
unfolding add_series
by_server g field conns [] = []
by_server g field conns (s ∷ ss) =
    add_series s (points s conns (g field)) (by_server g field conns ss)

-- field -> server -> points
unfoldable pub series_json :
    Loaded → List Text → List ℕ → List Chart → List (Text × List (Text × List (ℕ × ℕ)))
unfolding by_server
series_json g servers conns [] = []
series_json g servers conns (c ∷ cs) =
    (c.field, by_server g c.field conns servers) ∷ series_json g servers conns cs

-- The dict `cfg`, but for the geometry, which is the same for every page.
pub record Config : Type 0 where
  pub conns : List ℕ
  pub servers : List Text
  pub slots : List (Text × ℕ)
  pub series : List (Text × List (Text × List (ℕ × ℕ)))
  pub charts : List Chart

unfoldable pub cfg_of : Loaded → List Text → List ℕ → Config
unfolding series_json
cfg_of g servers conns = record {
  conns = conns;
  servers = servers;
  slots = map (λ s. (s, slot s)) servers;
  series = series_json g servers conns charts;
  charts = charts;
}

-- The texts CSS and TAB_JS, JS with `__CFG__` replaced by an object, and json.dumps.
pub record Assets : Type 0 where
  pub css : Text
  pub tab_js : Text
  pub js : Text → Text
  pub dumps : Config → Text

-- The page between <body> and its scripts.
unfoldable pub panels : Text → Text → Text
panels sat tl =
    codes
      "<div class=\"wrap\">\n<h1>game-bench</h1>\n<div class=\"tabs\" role=\"tablist\" aria-label=\"Views\">\n<button class=\"tab\" role=\"tab\" id=\"tab-sat\" aria-controls=\"panel-sat\" aria-selected=\"true\">Saturation curves</button>\n<button class=\"tab\" role=\"tab\" id=\"tab-tl\" aria-controls=\"panel-tl\" aria-selected=\"false\">Latency over time</button>\n</div>\n<section id=\"panel-sat\" role=\"tabpanel\" aria-labelledby=\"tab-sat\">"
    ++ (sat
        ++ (codes
              "</section>\n<section id=\"panel-tl\" role=\"tabpanel\" aria-labelledby=\"tab-tl\" hidden>"
            ++ (tl ++ codes "</section>\n</div>")))

module _ (fmt : Format) where
  unfoldable pub saturation_body : Loaded → List Text → List ℕ → Text → Text
  unfolding chart_cards
  saturation_body g servers conns src =
      codes "<p class=\"sub\">median over trials · x = offered load (connections) · source: "
      ++ (esc (basename src)
          ++ (codes
                "</p><p class=\"sub\" style=\"margin-top:-16px\">Click a server to hide it — the axes rescale to what's left.</p><noscript><p class=\"noscript\">This tab needs JavaScript to draw the charts. The data table below is complete.</p></noscript>"
              ++ (legend_html servers
                  ++ (chart_cards 0 charts
                      ++ (codes "<details open><summary>Data table</summary><div class=\"card\">"
                          ++ (table_html fmt g servers conns ++ codes "</div></details>"))))))

  unfoldable pub body_of : Loaded → List Text → List ℕ → Text → Runs → Text → Text
  unfolding panels saturation_body
  body_of g servers conns src tl_data tl_src =
      panels (saturation_body g servers conns src) (timeline_body fmt tl_data tl_src)

  unfoldable pub build_html : Assets → Loaded → List Text → List ℕ → Text → Runs → Text → Text
  unfolding body_of cfg_of
  build_html a g servers conns src tl_data tl_src =
      codes
        "<!doctype html><html lang=\"en\"><head><meta charset=\"utf-8\">\n<meta name=\"viewport\" content=\"width=device-width,initial-scale=1\">\n<title>game-bench — report</title><style>"
      ++ (a.css
          ++ (codes "</style></head>\n<body>"
              ++ (body_of g servers conns src tl_data tl_src
                  ++ (codes "\n<script>"
                      ++ (a.js (a.dumps (cfg_of g servers conns))
                          ++ (codes "</script>\n<script>"
                              ++ (a.tab_js ++ codes "</script>\n</body></html>")))))))

  -- main, from the rows of the two files: `none` is the exit with `no data`, and an empty timeline
  -- stands also for a missing file.
  page_unless : Bool → Text → Option Text
  page_unless true page = none
  page_unless false page = some page

  unfoldable pub main : Assets → List CsvRow → Text → Runs → Text → Option Text
  unfolding page_unless is_empty build_html load_data load_servers load_conns
  main a rows src tl_data tl_src =
      let servers = load_servers rows in
      let conns = load_conns rows in
      page_unless (is_empty servers || is_empty conns)
        (build_html a (load_data rows) servers conns src tl_data tl_src)
