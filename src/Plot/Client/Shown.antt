-- ===== src/Plot/Client/Shown.antt =====
-- runner/plot.py: which servers the charts show after some clicks.
use game_bench.Common.{
  ◌≡◌, refl, sym, ap, subst, ◌∙◌, Bool, true, false, not, ◌&&◌, ◌||◌, Bool-cases, inl, inr, List,
  [], ◌∷◌, ◌++◌, if◌then◌else◌, arith, ℕ,
}
use game_bench.Py.Text.{Text, text_eq, text_eq_sound}
use game_bench.Py.Assoc.{find}
use game_bench.Plot.Load.{member}
use game_bench.Plot.Charts.{Chart}
use game_bench.Plot.Page.{Config, is_empty}
use game_bench.Plot.Render.{Series, visible_one, visible_in, visible}
use game_bench.Plot.Client.{Click, show_all, button, elsewhere, delete, toggle, clicks}

-- Is the server off after the clicks, if `off` tells whether it was before?
abbrev pub off_after : Text → Bool → List Click → Bool
off_after s off [] = off
off_after s off (show_all ∷ ks) = off_after s false ks
off_after s off (button [] ∷ ks) = off_after s off ks
off_after s off (button (c ∷ t) ∷ ks) = off_after s (if text_eq (c ∷ t) s then not off else off) ks
off_after s off (elsewhere ∷ ks) = off_after s off ks

member-append :
    (s t : Text) (ts : List Text) → member s (ts ++ t ∷ []) ≡ (member s ts || text_eq t s)
unfolding member
member-append s t [] = ground arith
member-append s t (u ∷ ts) = rw (member-append s t ts) (ground arith)

apart :
    (s t u : Text) (m : Bool)
    → text_eq u t ≡ false
    → (text_eq u s || (m && not (text_eq t s))) ≡ ((text_eq u s || m) && not (text_eq t s))
apart s t u m other = elim (Bool-cases (text_eq t s)) [
  | inl same ↦
      let off : text_eq u s ≡ false = ap (text_eq u) (sym (text_eq_sound t s same)) ∙ other in
      rw (same, off) (ground arith)
  | inr differ ↦ rw differ (ground arith)
]

member-delete :
    (s t : Text) (ts : List Text) → member s (delete t ts) ≡ (member s ts && not (text_eq t s))
unfolding member delete
member-delete s t [] = refl
member-delete s t (u ∷ ts) = elim (Bool-cases (text_eq u t)) [
  | inl same ↦ rw same (
      member-delete s t ts
      ∙ subst
          (λ v.
            (member s ts && not (text_eq v s))
            ≡ ((text_eq u s || member s ts) && not (text_eq v s)))
          (text_eq_sound u t same) (ground arith))
  | inr other ↦ rw other (rw (member-delete s t ts) (apart s t u (member s ts) other))
]

member-toggle :
    (s t : Text) (hidden : List Text)
    → member s (toggle t hidden) ≡ (if text_eq t s then not (member s hidden) else member s hidden)
unfolding toggle
member-toggle s t hidden = elim (Bool-cases (member t hidden)) [
  | inl there ↦ rw there (
      member-delete s t hidden ∙ elim (Bool-cases (text_eq t s)) [
        | inl same ↦
            let own : member s hidden ≡ true =
              subst (λ v. member v hidden ≡ true) (text_eq_sound t s same) there in
            rw (same, own) refl
        | inr differ ↦ rw differ (ground arith)
      ])
  | inr absent ↦ rw absent (
      member-append s t hidden ∙ elim (Bool-cases (text_eq t s)) [
        | inl same ↦
            let own : member s hidden ≡ false =
              subst (λ v. member v hidden ≡ false) (text_eq_sound t s same) absent in
            rw (same, own) refl
        | inr differ ↦ rw differ (ground arith)
      ])
]

member-clicks :
    (s : Text) (ks : List Click) (hidden : List Text)
    → member s (clicks ks hidden) ≡ off_after s (member s hidden) ks
unfolding clicks member
member-clicks s [] hidden = refl
member-clicks s (show_all ∷ ks) hidden = member-clicks s ks []
member-clicks s (button [] ∷ ks) hidden = member-clicks s ks hidden
member-clicks s (button (c ∷ t) ∷ ks) hidden =
    member-clicks s ks (toggle (c ∷ t) hidden)
    ∙ ap (λ b. off_after s b ks) (member-toggle s (c ∷ t) hidden)
member-clicks s (elsewhere ∷ ks) hidden = member-clicks s ks hidden

-- Is the server among those that a chart shows?
abbrev pub shows : Text → List Series → Bool
shows s [] = false
shows s ((t, ps) ∷ ss) = text_eq t s || shows s ss

shows-visible_one :
    (s t : Text) (b : Bool) (ps : List (ℕ × ℕ)) (rest : List Series)
    → shows s (visible_one b t ps rest)
      ≡ ((text_eq t s && (not b && not (is_empty ps))) || shows s rest)
unfolding visible_one is_empty
shows-visible_one s t true ps rest = ground arith
shows-visible_one s t false [] rest = ground arith
shows-visible_one s t false (p ∷ ps) rest = ground arith

shows-visible_in :
    (s : Text) (hidden servers : List Text) (by : List Series)
    → shows s (visible_in hidden servers by)
      ≡ (member s servers && (not (member s hidden) && not (is_empty (find text_eq [] s by))))
unfolding visible_in member
shows-visible_in s hidden [] by = refl
shows-visible_in s hidden (t ∷ servers) by =
    shows-visible_one s t (member t hidden) (find text_eq [] t by) (visible_in hidden servers by)
    ∙ rw (shows-visible_in s hidden servers by) (elim (Bool-cases (text_eq t s)) [
      | inl same ↦
          subst
            (λ u.
              ((text_eq t s && (not (member u hidden) && not (is_empty (find text_eq [] u by))))
                || (member s servers
                    && (not (member s hidden) && not (is_empty (find text_eq [] s by)))))
              ≡ ((text_eq t s || member s servers)
                  && (not (member s hidden) && not (is_empty (find text_eq [] s by)))))
            (sym (text_eq_sound t s same)) (rw same (ground arith))
      | inr differ ↦ rw differ refl
    ])

-- After any clicks a chart shows exactly the servers of the page that have a point for it and that are not
-- off: a click on the button of a server turns it off or on again, and one on `show-all` turns all on.
pub visible-clicks :
    (cfg : Config) (c : Chart) (ks : List Click) (s : Text)
    → shows s (visible cfg (clicks ks []) c) ≡ (
        member s cfg.servers
        && (not (off_after s false ks)
            && not (is_empty (find text_eq [] s (find text_eq [] c.field cfg.series)))))
unfolding visible member
visible-clicks cfg c ks s =
    shows-visible_in s (clicks ks []) cfg.servers (find text_eq [] c.field cfg.series)
    ∙ ap
        (λ b.
          member s cfg.servers
          && (not b && not (is_empty (find text_eq [] s (find text_eq [] c.field cfg.series)))))
        (member-clicks s ks [])
