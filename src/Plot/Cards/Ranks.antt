-- ===== src/Plot/Cards/Ranks.antt =====
-- runner/plot.py: the list of servers that `timeline_body` sorts by, which has every server of the keys
-- and ascends.
use game_bench.Common.{
  ℕ, ◌<◌, ◌≡◌, refl, sym, ap, subst, ◌∙◌, Bool, true, false, ◌&&◌, ◌||◌, not, List, [], ◌∷◌, ◌++◌,
  map, length, All, All-mono, Bool-cases, inl, inr, arith,
}
use game_bench.Py.Text.{Text, text_eq, text_eq_refl, text_eq_sound}
use game_bench.Plot.Load.{order, member, server_set, sorted, keep}
use game_bench.Plot.Load.Present.{
  member-append, member-sorted, member-keep, member-server_set, keep-Unique, server_set-Unique,
}
use game_bench.Plot.Cards.{order_of}
use game_bench.Plot.Cards.Turns.{less, standing, earlier, Ascends, All-member, sorted-Ascends}

order-Ascends : Ascends earlier order
unfolding text_eq
order-Ascends = (
  (refl, (refl, (refl, (refl, (refl, (refl, tt)))))),
  (
    (refl, (refl, (refl, (refl, (refl, tt))))),
    (
      (refl, (refl, (refl, (refl, tt)))),
      ((refl, (refl, (refl, tt))), ((refl, (refl, tt)), ((refl, tt), (tt, tt)))),
    ),
  ),
)

standing-absent : (s : Text) (ts : List Text) → member s ts ≡ false → standing s ts ≡ length ts
unfolding member
standing-absent s [] h = refl
standing-absent s (t ∷ ts) h = ground (arith, standing-absent s ts)

standing-present : (s : Text) (ts : List Text) → member s ts ≡ true → standing s ts < length ts
unfolding member
standing-present s [] h = cc
standing-present s (t ∷ ts) h = ground (arith, standing-present s ts)

earlier-listed : (s t : Text) → member s order ≡ true → member t order ≡ false → earlier s t ≡ true
earlier-listed s t h k =
    let a = standing-present s order h in let b = standing-absent t order k in ground arith

earlier-unlisted :
    (s t : Text)
    → member s order ≡ false
    → member t order ≡ false
    → less s t ≡ true
    → earlier s t ≡ true
earlier-unlisted s t h k up =
    let a = standing-absent s order h in let b = standing-absent t order k in ground arith

unlisted-Ascends :
    (ts : List Text) → All (λ t. member t order ≡ false) ts → Ascends less ts → Ascends earlier ts
unlisted-Ascends [] h up = tt
unlisted-Ascends (s ∷ ts) h up = (go ts h.1 up.0, unlisted-Ascends ts h.1 up.1)
  where
    go :
        (us : List Text)
        → All (λ t. member t order ≡ false) us
        → All (λ t. less s t ≡ true) us
        → All (λ t. earlier s t ≡ true) us
    go [] k l = tt
    go (u ∷ us) k l = (earlier-unlisted s u h.0 k.0 l.0, go us k.1 l.1)

All-append : (P : Text → Type 0) (ts us : List Text) → All P ts → All P us → All P (ts ++ us)
All-append P [] us h k = k
All-append P (t ∷ ts) us h k = (h.0, All-append P ts us h.1 k)

append-Ascends :
    (ts us : List Text)
    → Ascends earlier ts
    → Ascends earlier us
    → ((t : Text) → member t ts ≡ true → All (λ u. earlier t u ≡ true) us)
    → Ascends earlier (ts ++ us)
unfolding member
append-Ascends [] us h k cross = k
append-Ascends (t ∷ ts) us h k cross = (
  All-append (λ u. earlier t u ≡ true) ts us h.0
      (cross t (ap (λ b. b || member t ts) (text_eq_refl t))),
  append-Ascends ts us h.1 k (λ u m. cross u (ground (arith, ap (λ b. text_eq t u || b) m))),
)

pub member-All :
    (P : Text → Type 0) (ts : List Text) (t : Text) → member t ts ≡ true → All P ts → P t
unfolding member
member-All P [] t m h = cc
member-All P (u ∷ ts) t m h = elim (Bool-cases (text_eq u t)) [
  | inl same ↦ subst P (text_eq_sound u t same) h.0
  | inr other ↦ member-All P ts t (ground arith) h.1
]

-- The servers that a list names and ORDER does not.
abbrev others : List Text → List Text
others names = keep (λ s. not (member s order)) (server_set names)

unlisted : (b c : Bool) → (b && not c) ≡ true → c ≡ false
unlisted b c h = ground arith

others-unlisted : (names : List Text) → All (λ t. member t order ≡ false) (sorted (others names))
others-unlisted names =
    All-member (λ t. member t order ≡ false) (sorted (others names))
      (λ t m. unlisted (member t (server_set names)) (member t order) (
        sym (member-keep (λ s. not (member s order)) t (server_set names))
        ∙ sym (member-sorted t (others names))
        ∙ m))

pub order_of-Ascends : (keys : List (Text × ℕ)) → Ascends earlier (order_of keys)
unfolding order_of
order_of-Ascends keys =
    let names = map (λ (k : Text × ℕ). k.0) keys in
    let apart = others-unlisted names in
    append-Ascends order (sorted (others names)) order-Ascends
      (unlisted-Ascends (sorted (others names)) apart (
        sorted-Ascends (others names)
          (keep-Unique (λ s. not (member s order)) (server_set names) (server_set-Unique names))))
      (λ t m. All-mono (λ u h. earlier-listed t u m h) (sorted (others names)) apart)

either : (b c : Bool) → b ≡ true → (c || (b && not c)) ≡ true
either b c h = ground arith

pub member-order_of :
    (s : Text) (keys : List (Text × ℕ))
    → member s (map (λ k. k.0) keys) ≡ true
    → member s (order_of keys) ≡ true
unfolding order_of
member-order_of s keys h =
    let names = map (λ (k : Text × ℕ). k.0) keys in
    member-append s order (sorted (others names))
    ∙ ap (λ b. member s order || b)
        (member-sorted s (others names)
          ∙ member-keep (λ t. not (member t order)) s (server_set names)
          ∙ ap (λ b. b && not (member s order)) (member-server_set s names))
    ∙ either (member s names) (member s order) h
