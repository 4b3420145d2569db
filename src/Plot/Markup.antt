-- ===== src/Plot/Markup.antt =====
-- A reader of the tags of a page, against which the texts of runner/plot.py are read: a stack of the
-- names that are open, a tag that ends in a slash opens nothing, and a closing tag has to fit.
use game_bench.Common.{
  ℕ, ◌≡◌, refl, ap, ◌∙◌, false, Option, none, some, List, [], ◌∷◌, ◌++◌, ◌==◌, ==_ne, if◌then◌else◌,
  Lacks,
}
use game_bench.Py.Text.{Text, text_eq}
use game_bench.Plot.Escape.Entities.{IsSafe}

-- Between tags, in the name of one, or behind it with the last character that was read.
pub data Mode : Type 0 where
  content : Mode
  naming : Text → Mode
  inside : Text → ℕ → Mode

abbrev pub close : Text → List Text → Option (List Text × Mode)
close name [] = none
close name (open_name ∷ st) = if text_eq open_name name then some (st, content) else none

-- The end of a tag that has no slash before it.
abbrev pub finish : List Text → Text → Option (List Text × Mode)
finish st [] = none
finish st (c ∷ name) = if c == b'/' then close name st else some ((c ∷ name) ∷ st, content)

abbrev pub step : List Text → Mode → ℕ → Option (List Text × Mode)
step st content c = if c == b'<' then some (st, naming []) else some (st, content)
step st (naming name) c =
    if c == b'>'
    then finish st name
    else if c == 32
    then some (st, inside name c)
    else some (st, naming (name ++ c ∷ []))
step st (inside name last) c =
    if c == b'>'
    then (if last == b'/' then some (st, content) else finish st name)
    else some (st, inside name c)

abbrev next {ℓ} :
    {A : Type ℓ} → Option (List Text × Mode) → (List Text → Mode → Option A) → Option A
next none k = none
next (some (st, m)) k = k st m

unfoldable pub read : List Text → Mode → Text → Option (List Text × Mode)
read st m [] = some (st, m)
read st m (c ∷ s) = next (step st m c) (λ st' m'. read st' m' s)

-- A text that leaves the open tags as they are, whichever those are.
abbrev pub IsBalanced : Text → Type 0
IsBalanced s = (st : List Text) → read st content s ≡ some (st, content)

go_on : Option (List Text × Mode) → Text → Option (List Text × Mode)
go_on none t = none
go_on (some (st, m)) t = read st m t

next-go_on :
    (o : Option (List Text × Mode)) (t : Text) (k k' : List Text → Mode → Option (List Text × Mode))
    → (same : (st : List Text) (m : Mode) → k st m ≡ go_on (k' st m) t)
    → next o k ≡ go_on (next o k') t
unfolding go_on
next-go_on none t k k' same = refl
next-go_on (some (st, m)) t k k' same = same st m

read-append : (st : List Text) (m : Mode) (s t : Text) → read st m (s ++ t) ≡ go_on (read st m s) t
unfolding read go_on
read-append st m [] t = refl
read-append st m (c ∷ s) t =
    next-go_on (step st m c) t (λ st' m'. read st' m' (s ++ t)) (λ st' m'. read st' m' s)
      (λ st' m'. read-append st' m' s t)

-- Behind a balanced text the reader stands where it stood.
pub skip :
    (s t : Text) → IsBalanced s → (st : List Text) → read st content (s ++ t) ≡ read st content t
unfolding go_on
skip s t h st = read-append st content s t ∙ ap (λ o. go_on o t) (h st)

-- A part of an attribute's value and the character behind it.
pub quoted :
    (s : Text) (d : ℕ) (t : Text)
    → Lacks b'>' s
    → (d == b'>') ≡ false
    → (st : List Text) (name : Text) (last : ℕ)
    → read st (inside name last) (s ++ d ∷ t) ≡ read st (inside name d) t
unfolding read
quoted [] d t h e st name last = rw (e, read)
quoted (c ∷ s) d t h e st name last = rw (==_ne c b'>' h.0, read) (quoted s d t h.1 e st name c)

pub nil-IsBalanced : IsBalanced []
unfolding read
nil-IsBalanced st = refl

pub append-IsBalanced : (s t : Text) → IsBalanced s → IsBalanced t → IsBalanced (s ++ t)
append-IsBalanced s t h k st = skip s t h st ∙ k st

pub safe-IsBalanced : (s : Text) → IsSafe s → IsBalanced s
unfolding read
safe-IsBalanced [] h st = refl
safe-IsBalanced (c ∷ s) h st = rw (==_ne c b'<' h.0.0, read) (safe-IsBalanced s (h.0.1, h.1.1) st)
