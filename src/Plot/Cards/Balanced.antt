-- ===== src/Plot/Cards/Balanced.antt =====
-- runner/plot.py: the tags of `timeline_body`.
use game_bench.Common.{ℕ, refl, ◌∙◌, Option, none, some, List, [], ◌∷◌, All}
use game_bench.Py.Text.{Text, codes, text_eq}
use game_bench.Py.Decimal.{str}
use game_bench.Plot.Escape.{esc}
use game_bench.Plot.Escape.Entities.{IsSafe}
use game_bench.Plot.Markup.{
  read, IsBalanced, skip, quoted, nil-IsBalanced, append-IsBalanced, safe-IsBalanced,
}
use game_bench.Plot.Timeline.{TlRow, Runs}
use game_bench.Plot.Charts.{Line, tl_series, Format}
use game_bench.Plot.Table.{join_all}
use game_bench.Plot.Table.Balanced.{IsPlain, str-IsSafe, esc-IsBalanced, join_all-IsBalanced}
use game_bench.Plot.Svg.{timeline_svg}
use game_bench.Plot.Svg.Balanced.{colors-IsSafe, timeline_svg-IsBalanced}
use game_bench.Plot.Cards.{basename, legend_line, card_text, card_of, card_keys, timeline_body}

legend_line-IsBalanced : (l : Line) → IsSafe l.color → IsBalanced (legend_line l)
unfolding legend_line read text_eq
legend_line-IsBalanced l safe st =
    quoted l.color b'"' _ safe.1 refl (codes "span" ∷ st) (codes "span") b':'
    ∙ skip (esc l.label) (codes "</span>") (esc-IsBalanced l.label) (codes "span" ∷ st)

legend_lines-IsBalanced :
    (ls : List Line) → All (λ (l : Line). IsSafe l.color) ls → IsBalanced (join_all legend_line ls)
unfolding join_all
legend_lines-IsBalanced [] h = nil-IsBalanced
legend_lines-IsBalanced (l ∷ ls) h =
    append-IsBalanced (legend_line l) _ (legend_line-IsBalanced l h.0)
      (legend_lines-IsBalanced ls h.1)

module _ (fmt : Format) (plain : IsPlain fmt) where
  card_text-IsBalanced :
      (k : Text × ℕ) (o : Option (ℕ × List TlRow)) → IsBalanced (card_text fmt k o)
  unfolding card_text read text_eq
  card_text-IsBalanced k none st = refl
  card_text-IsBalanced k (some (t, [])) st = refl
  card_text-IsBalanced (server, conns) (some (t, r ∷ rows)) st =
      skip (str t) _ (safe-IsBalanced (str t) (str-IsSafe t)) (codes "div" ∷ codes "div" ∷ st)
      ∙ skip (timeline_svg fmt server conns (r ∷ rows)) (codes "</div>")
          (timeline_svg-IsBalanced fmt plain server conns (r ∷ rows)) (codes "div" ∷ st)

  pub timeline_body-IsBalanced : (g : Runs) (src : Text) → IsBalanced (timeline_body fmt g src)
  unfolding timeline_body read text_eq
  timeline_body-IsBalanced [] src st = refl
  timeline_body-IsBalanced (e ∷ g) src st =
      skip (esc (basename src)) _ (esc-IsBalanced (basename src)) (codes "p" ∷ st)
      ∙ skip (join_all legend_line tl_series) _ (legend_lines-IsBalanced tl_series colors-IsSafe)
          (codes "div" ∷ st)
      ∙ join_all-IsBalanced (λ k. card_text fmt k (card_of k (e ∷ g))) (card_keys (e ∷ g))
          (λ k. card_text-IsBalanced k (card_of k (e ∷ g))) st
