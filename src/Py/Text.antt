-- ===== src/Py/Text.antt =====
-- `str` methods, over the code points of a text: `==`, `strip`, `split`, `join`, `rfind`.
-- The program's texts are ASCII.
use Prim.Native.Char.{code}
use game_bench.Common.{
  ℕ, suc, ◌≡◌, ◌≢◌, refl, sym, ap, ◌∙◌, Bool, true, false, ◌&&◌, ◌||◌, Option, none, some, List, [],
  ◌∷◌, ◌++◌, String, ◌==◌, ==_ne, ==_refl, leb, if◌then◌else◌, arith, length, All, Lacks,
  append-nil, append_assoc,
}

abbrev pub Text : Type 0
Text = List ℕ

-- The code points of a literal. `String` has its own `[]` and `∷`.
abbrev pub codes : String → Text
codes String.[] = []
codes (String.◌∷◌ c s) = code c ∷ codes s

unfoldable pub text_eq : Text → Text → Bool
text_eq [] [] = true
text_eq [] (d ∷ t) = false
text_eq (c ∷ s) [] = false
text_eq (c ∷ s) (d ∷ t) = (c == d) && text_eq s t

pub text_eq_refl : (s : Text) → text_eq s s ≡ true
unfolding text_eq
text_eq_refl [] = refl
text_eq_refl (c ∷ s) = ground (arith, text_eq_refl s)

pub text_eq_sound : (s t : Text) → text_eq s t ≡ true → s ≡ t
unfolding text_eq
text_eq_sound [] [] h = refl
text_eq_sound [] (d ∷ t) h = cc
text_eq_sound (c ∷ s) [] h = cc
text_eq_sound (c ∷ s) (d ∷ t) h = ground (arith, text_eq_sound s t)

-- What `strip` and `split` take for white space among the ASCII characters.
abbrev pub is_space : ℕ → Bool
is_space c = (leb 9 c && leb c 13) || (leb 28 c && leb c 32)

abbrev pub NoSpace : Text → Type 0
NoSpace = All (λ c. is_space c ≡ false)

unfoldable pub lstrip : Text → Text
lstrip [] = []
lstrip (c ∷ s) = let rest = lstrip s in if is_space c then rest else c ∷ s

unfoldable pub rstrip_cons : ℕ → Text → Text
rstrip_cons c [] = if is_space c then [] else c ∷ []
rstrip_cons c (d ∷ s) = c ∷ d ∷ s

unfoldable pub rstrip : Text → Text
unfolding rstrip_cons
rstrip [] = []
rstrip (c ∷ s) = rstrip_cons c (rstrip s)

-- s.strip()
unfoldable pub strip : Text → Text
unfolding lstrip rstrip
strip s = rstrip (lstrip s)

lstrip_id : (s : Text) → NoSpace s → lstrip s ≡ s
unfolding lstrip
lstrip_id [] h = refl
lstrip_id (c ∷ s) h = rw h.0

rstrip_id : (s : Text) → NoSpace s → rstrip s ≡ s
unfolding rstrip
rstrip_id [] h = refl
rstrip_id (c ∷ []) h = rw h.0
rstrip_id (c ∷ d ∷ s) h = ap (rstrip_cons c) (rstrip_id (d ∷ s) h.1)

pub strip_id : (s : Text) → NoSpace s → strip s ≡ s
unfolding strip
strip_id s h = ap rstrip (lstrip_id s h) ∙ rstrip_id s h

cons_head : ℕ → List Text → List Text
cons_head c [] = (c ∷ []) ∷ []
cons_head c (p ∷ ps) = (c ∷ p) ∷ ps

-- s.split(sep), for one character: never empty.
unfoldable pub split : ℕ → Text → List Text
unfolding cons_head
split sep [] = [] ∷ []
split sep (c ∷ s) = let rest = split sep s in if c == sep then [] ∷ rest else cons_head c rest

-- sep.join(parts)
unfoldable pub join : ℕ → List Text → Text
join sep [] = []
join sep (p ∷ []) = p
join sep (p ∷ q ∷ ps) = p ++ sep ∷ join sep (q ∷ ps)

pub split_one : (sep : ℕ) (p : Text) → Lacks sep p → split sep p ≡ p ∷ []
unfolding split
split_one sep [] h = refl
split_one sep (c ∷ p) h = rw (==_ne c sep h.0, split_one sep p h.1)

split_at_sep :
    (sep : ℕ) (p rest : Text) → Lacks sep p → split sep (p ++ sep ∷ rest) ≡ p ∷ split sep rest
unfolding split
split_at_sep sep [] rest h = rw (==_refl sep)
split_at_sep sep (c ∷ p) rest h = rw (==_ne c sep h.0, split_at_sep sep p rest h.1)

-- Splitting a join gives the parts back, if there is a part and none holds the separator.
pub split-join :
    (sep : ℕ) (p : Text) (ps : List Text)
    → All (Lacks sep) (p ∷ ps)
    → split sep (join sep (p ∷ ps)) ≡ p ∷ ps
unfolding join
split-join sep p [] h = split_one sep p h.0
split-join sep p (q ∷ ps) h =
    split_at_sep sep p (join sep (q ∷ ps)) h.0
    ∙ ap (λ (r : List Text). p ∷ r) (split-join sep q ps h.1)

-- s.split(): the runs of characters that are no white space.
flush : Text → List Text
flush [] = []
flush (c ∷ cur) = (c ∷ cur) ∷ []

words_from : Text → Text → List Text
unfolding flush
words_from cur [] = flush cur
words_from cur (c ∷ s) = elim (is_space c) [
  | true ↦ flush cur ++ words_from [] s
  | false ↦ words_from (cur ++ c ∷ []) s
]

unfoldable pub words : Text → List Text
unfolding words_from
words s = words_from [] s

words_from-append :
    (cur p rest : Text) → NoSpace p → words_from cur (p ++ rest) ≡ words_from (cur ++ p) rest
unfolding words_from
words_from-append cur [] rest h = ap (λ t. words_from t rest) (sym (append-nil cur))
words_from-append cur (c ∷ p) rest h =
    rw (h.0, words_from)
      (words_from-append (cur ++ c ∷ []) p rest h.1
        ∙ ap (λ t. words_from t rest) (append_assoc cur (c ∷ []) p))

-- A word: some characters, none of them white space.
abbrev pub IsWord : Text → Type 0
IsWord p = (p ≢ []) × NoSpace p

flush_word : (p : Text) → p ≢ [] → flush p ≡ p ∷ []
unfolding flush
flush_word [] h = absurd (h refl)
flush_word (c ∷ p) h = refl

-- Words with one space between them are read back.
pub words-join : (ps : List Text) → All IsWord ps → words (join 32 ps) ≡ ps
unfolding words join words_from
words-join [] h = refl
words-join (p ∷ []) h =
    ap (words_from []) (sym (append-nil p)) ∙ words_from-append [] p [] h.0.1 ∙ flush_word p h.0.0
words-join (p ∷ q ∷ ps) h =
    words_from-append [] p (32 ∷ join 32 (q ∷ ps)) h.0.1
    ∙ ap (λ (r : List Text). r ++ words_from [] (join 32 (q ∷ ps))) (flush_word p h.0.0)
    ∙ ap (λ (r : List Text). p ∷ r) (words-join (q ∷ ps) h.1)

-- So they are where a line feed ends the text.
pub words-join_feed : (ps : List Text) → All IsWord ps → words (join 32 ps ++ 10 ∷ []) ≡ ps
unfolding words join words_from flush
words-join_feed [] h = refl
words-join_feed (p ∷ []) h =
    words_from-append [] p (10 ∷ []) h.0.1 ∙ ap (λ (r : List Text). r ++ []) (flush_word p h.0.0)
words-join_feed (p ∷ q ∷ ps) h =
    ap (words_from []) (append_assoc p (32 ∷ join 32 (q ∷ ps)) (10 ∷ []))
    ∙ words_from-append [] p (32 ∷ (join 32 (q ∷ ps) ++ 10 ∷ [])) h.0.1
    ∙ ap (λ (r : List Text). r ++ words_from [] (join 32 (q ∷ ps) ++ 10 ∷ [])) (flush_word p h.0.0)
    ∙ ap (λ (r : List Text). p ∷ r) (words-join_feed (q ∷ ps) h.1)

words_from_skip :
    (gap rest : Text)
    → All (λ c. is_space c ≡ true) gap
    → words_from [] (gap ++ rest) ≡ words_from [] rest
unfolding words_from flush
words_from_skip [] rest h = refl
words_from_skip (c ∷ gap) rest h = rw (h.0, words_from) (words_from_skip gap rest h.1)

-- A word, then any white space, then more.
pub words_gap :
    (p : Text) (c : ℕ) (gap rest : Text)
    → IsWord p
    → All (λ d. is_space d ≡ true) (c ∷ gap)
    → words (p ++ c ∷ (gap ++ rest)) ≡ p ∷ words rest
unfolding words words_from
words_gap p c gap rest h k =
    words_from-append [] p (c ∷ (gap ++ rest)) h.1
    ∙ rw (k.0, words_from)
        (ap (λ (r : List Text). r ++ words_from [] (gap ++ rest)) (flush_word p h.0)
          ∙ ap (λ (r : List Text). p ∷ r) (words_from_skip gap rest k.1))

-- s.rfind(c)
unfoldable pub rfind : ℕ → Text → Option ℕ
rfind c [] = none
rfind c (d ∷ s) = elim (rfind c s) [
  | some i ↦ some (suc i)
  | none ↦ if d == c then some 0 else none
]

rfind-none : (c : ℕ) (s : Text) → Lacks c s → rfind c s ≡ none
unfolding rfind
rfind-none c [] h = refl
rfind-none c (d ∷ s) h = rw (rfind-none c s h.1, ==_ne d c h.0)

-- The last occurrence is the one with none behind it.
pub rfind-append : (c : ℕ) (s t : Text) → Lacks c t → rfind c (s ++ c ∷ t) ≡ some (length s)
unfolding rfind
rfind-append c [] t h = rw (rfind-none c t h, ==_refl c)
rfind-append c (d ∷ s) t h = rw (rfind-append c s t h)
