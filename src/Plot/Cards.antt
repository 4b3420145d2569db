-- ===== src/Plot/Cards.antt =====
-- runner/plot.py: `timeline_body`, with the order of its cards and the trial that each shows.
pub mod Balanced
pub mod Lowest
pub mod Sorted
pub mod Turns
pub mod Ranks
pub mod InTurn
pub mod Order
use game_bench.Common.{
  ℕ, zero, suc, ◌+◌, Bool, true, false, ◌&&◌, ◌||◌, not, Option, none, some, List, [], ◌∷◌, ◌++◌,
  map, drop, ◌==◌, ltb, if◌then◌else◌,
}
use game_bench.Py.Text.{Text, codes, text_eq, rfind}
use game_bench.Py.Assoc.{find}
use game_bench.Py.Decimal.{str}
use game_bench.Plot.Escape.{esc}
use game_bench.Plot.Load.{order, member, server_set, sorted, keep}
use game_bench.Plot.Timeline.{TlRow, Trials, Runs, same_run, rows_of}
use game_bench.Plot.Charts.{Line, tl_series, Format}
use game_bench.Plot.Table.{join_all}
use game_bench.Plot.Svg.{timeline_svg}

-- ORDER + sorted({k[0] for k in tl_data} - set(ORDER))
unfoldable pub order_of : List (Text × ℕ) → List Text
order_of keys =
    order ++ sorted (keep (λ s. not (member s order)) (server_set (map (λ k. k.0) keys)))

-- order.index(s) if s in order else 999
unfoldable pub rank : Text → List Text → ℕ
rank s [] = 999
rank s (t ∷ ts) =
    let later = rank s ts in if text_eq t s then 0 else if member s ts then suc later else 999

-- Is the sort key of the first less than that of the second?
unfoldable pub key_before : List Text → Text × ℕ → Text × ℕ → Bool
key_before ord (s, c) (t, d) =
    ltb (rank s ord) (rank t ord) || ((rank s ord == rank t ord) && ltb c d)

unfoldable pub insert_key : List Text → Text × ℕ → List (Text × ℕ) → List (Text × ℕ)
insert_key ord k [] = k ∷ []
insert_key ord k (j ∷ js) =
    let rest = insert_key ord k js in if key_before ord j k then j ∷ rest else k ∷ j ∷ js

unfoldable pub sort_keys : List Text → List (Text × ℕ) → List (Text × ℕ)
sort_keys ord [] = []
sort_keys ord (k ∷ ks) = insert_key ord k (sort_keys ord ks)

unfoldable pub keys_of : Runs → List (Text × ℕ)
keys_of [] = []
keys_of ((k, trials) ∷ g) = k ∷ keys_of g

-- The keys of the cards, in order.
unfoldable pub card_keys : Runs → List (Text × ℕ)
unfolding keys_of
card_keys g = sort_keys (order_of (keys_of g)) (keys_of g)

unfoldable pub lower : ℕ → Option ℕ → Option ℕ
lower t none = some t
lower t (some u) = if ltb u t then some u else some t

-- min(trials); every run of the file has a trial.
unfoldable pub min_trial : Trials → Option ℕ
min_trial [] = none
min_trial ((t, rows) ∷ g) = lower t (min_trial g)

-- The trial of a card and its rows.
unfoldable pub rows_at : Text × ℕ → Runs → Option ℕ → Option (ℕ × List TlRow)
rows_at k g none = none
rows_at k g (some t) = some (t, rows_of k t g)

unfoldable pub card_of : Text × ℕ → Runs → Option (ℕ × List TlRow)
unfolding rows_at
card_of k g = rows_at k g (min_trial (find same_run [] k g))

-- os.path.basename
after_slash : Option ℕ → Text → Text
after_slash none s = s
after_slash (some i) s = drop (i + 1) s

unfoldable pub basename : Text → Text
unfolding after_slash
basename s = after_slash (rfind b'/' s) s

unfoldable pub legend_line : Line → Text
legend_line l =
    codes "<span class=\"pleg\"><span class=\"sw\" style=\"background:"
    ++ (l.color ++ (codes "\"></span>" ++ (esc l.label ++ codes "</span>")))

module _ (fmt : Format) where
  -- A card, or nothing where there are no rows.
  unfoldable pub card_text : Text × ℕ → Option (ℕ × List TlRow) → Text
  card_text k none = []
  card_text k (some (t, [])) = []
  card_text (server, conns) (some (t, r ∷ rows)) =
      codes "<div class=\"card\"><div class=\"card-meta\">trial "
      ++ (str t ++ (codes "</div>" ++ (timeline_svg fmt server conns (r ∷ rows) ++ codes "</div>")))

  unfoldable pub timeline_body : Runs → Text → Text
  timeline_body [] src =
      codes
        "<p class=\"sub\">No timeline data yet. Run <code>runner/run.py</code> to generate <code>timeline.csv</code> next to the results CSV.</p>"
  timeline_body (e ∷ g) src =
      codes
        "<p class=\"sub\">one card per server × load level · x = seconds into the measured phase · 1 s windows · source: "
      ++ (esc (basename src)
          ++ (codes "</p><div class=\"plegend\">"
              ++ (join_all legend_line tl_series
                  ++ (codes "</div>"
                      ++ join_all (λ k. card_text k (card_of k (e ∷ g))) (card_keys (e ∷ g))))))
