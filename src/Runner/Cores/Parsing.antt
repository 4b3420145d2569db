-- ===== src/Runner/Cores/Parsing.antt =====
-- runner/run.py: what `parse_cores` reads, against the ways to write a list of cores.
use game_bench.Common.{
  ℕ, zero, suc, ◌+◌, ◌-◌, ◌/◌, ◌<◌, ◌≤◌, ◌≡◌, ◌≢◌, refl, sym, ap, ◌∙◌, true, false, List, [], ◌∷◌,
  ◌++◌, map, ==_ne, ==_refl, arith, All, All-mono, Lacks,
}
use game_bench.Py.Result.{ok}
use game_bench.Py.Text.{Text, split, join, split-join}
use game_bench.Py.Decimal.{str, int-str, is_digit, str-IsDigits, str-ne-nil}
use game_bench.Runner.Cores.{
  cpuspec, range, range_from, has_char, core_of, int_core, span_of, parse_part, parse_parts,
  parse_cores, default_server_cores, default_client_cores, contains, overlap,
}

-- One core, or the cores from one up to another.
pub data Item : Type 0 where
  one : ℕ → Item
  span : ℕ → ℕ → Item

abbrev pub render : Item → Text
render (one c) = str c
render (span a b) = str a ++ b'-' ∷ str b

abbrev pub expand : Item → List ℕ
expand (one c) = c ∷ []
expand (span a b) = range a (b + 1)

abbrev pub expand_all : List Item → List ℕ
expand_all [] = []
expand_all (i ∷ is) = expand i ++ expand_all is

not_dash : (c : ℕ) → is_digit c ≡ true → c ≢ b'-'
not_dash c h = ground arith

not_comma : (c : ℕ) → is_digit c ≡ true → c ≢ b','
not_comma c h = ground arith

pub int_core-str : (n : ℕ) → int_core (str n) ≡ ok n
unfolding int_core
int_core-str n = ap core_of (int-str n)

has_char_not : (c : ℕ) (s : Text) → Lacks c s → has_char c s ≡ false
unfolding has_char
has_char_not c [] h = refl
has_char_not c (d ∷ s) h = rw (==_ne d c h.0, has_char_not c s h.1)

has_char-append : (c : ℕ) (s t : Text) → has_char c (s ++ c ∷ t) ≡ true
unfolding has_char
has_char-append c [] t = rw (==_refl c)
has_char-append c (d ∷ s) t = ground (arith, has_char-append c s t)

digits-Lacks-dash : (n : ℕ) → Lacks b'-' (str n)
digits-Lacks-dash n = All-mono not_dash (str n) (str-IsDigits n)

Lacks-append : (c : ℕ) (s t : Text) → Lacks c s → Lacks c t → Lacks c (s ++ t)
Lacks-append c [] t h k = k
Lacks-append c (d ∷ s) t h k = (h.0, Lacks-append c s t h.1 k)

split_span : (a b : ℕ) → split b'-' (str a ++ b'-' ∷ str b) ≡ str a ∷ str b ∷ []
unfolding join
split_span a b =
    split-join b'-' (str a) (str b ∷ []) (digits-Lacks-dash a, (digits-Lacks-dash b, tt))

span_of-str : (a b : ℕ) → span_of (str a ∷ str b ∷ []) ≡ ok (range a (b + 1))
unfolding span_of
span_of-str a b = rw (int_core-str a, int_core-str b)

parse_part-render : (i : Item) → parse_part (render i) ≡ ok (expand i)
unfolding parse_part
parse_part-render (one c) = rw (has_char_not b'-' (str c) (digits-Lacks-dash c), int_core-str c)
parse_part-render (span a b) =
    rw (has_char-append b'-' (str a) (str b)) (ap span_of (split_span a b) ∙ span_of-str a b)

parse_parts-render : (is : List Item) → parse_parts (map render is) ≡ ok (expand_all is)
unfolding parse_parts
parse_parts-render [] = refl
parse_parts-render (i ∷ is) = rw (parse_part-render i, parse_parts-render is)

pub digits-Lacks-comma : (n : ℕ) → Lacks b',' (str n)
digits-Lacks-comma n = All-mono not_comma (str n) (str-IsDigits n)

render-Lacks : (i : Item) → Lacks b',' (render i)
render-Lacks (one c) = digits-Lacks-comma c
render-Lacks (span a b) =
    let dash : b'-' ≢ b',' = ground arith in
    Lacks-append b',' (str a) (b'-' ∷ str b) (digits-Lacks-comma a) (dash, digits-Lacks-comma b)

renders-Lacks : (is : List Item) → All (Lacks b',') (map render is)
renders-Lacks [] = tt
renders-Lacks (i ∷ is) = (render-Lacks i, renders-Lacks is)

parse_cores-ne-nil : (s : Text) (d : List ℕ) → s ≢ [] → parse_cores s d ≡ parse_parts (split b',' s)
unfolding parse_cores
parse_cores-ne-nil [] d h = absurd (h refl)
parse_cores-ne-nil (c ∷ s) d h = refl

append-ne-nil : (s t : Text) → s ≢ [] → s ++ t ≢ []
append-ne-nil [] t h = absurd (h refl)
append-ne-nil (c ∷ s) t h = λ e. cc

render-ne-nil : (i : Item) → render i ≢ []
render-ne-nil (one c) = str-ne-nil c
render-ne-nil (span a b) = append-ne-nil (str a) (b'-' ∷ str b) (str-ne-nil a)

join-ne-nil : (sep : ℕ) (p : Text) (ps : List Text) → p ≢ [] → join sep (p ∷ ps) ≢ []
unfolding join
join-ne-nil sep p [] h = h
join-ne-nil sep p (q ∷ ps) h = append-ne-nil p (sep ∷ join sep (q ∷ ps)) h

-- A non-empty list of cores and spans a-b, written with commas between them, is read as the cores
-- it names, a span with both of its ends (and empty where b < a), in the order written.
pub parse_cores-join :
    (i : Item) (is : List Item) (default : List ℕ)
    → parse_cores (join b',' (map render (i ∷ is))) default ≡ ok (expand_all (i ∷ is))
parse_cores-join i is default =
    parse_cores-ne-nil (join b',' (map render (i ∷ is))) default
      (join-ne-nil b',' (render i) (map render is) (render-ne-nil i))
    ∙ ap parse_parts (split-join b',' (render i) (map render is) (renders-Lacks (i ∷ is)))
    ∙ parse_parts-render (i ∷ is)

render_ones : (cs : List ℕ) → map render (map one cs) ≡ map str cs
render_ones [] = refl
render_ones (c ∷ cs) = ap (λ (t : List Text). str c ∷ t) (render_ones cs)

expand_ones : (cs : List ℕ) → expand_all (map one cs) ≡ cs
expand_ones [] = refl
expand_ones (c ∷ cs) = ap (λ (t : List ℕ). c ∷ t) (expand_ones cs)

-- The argument of taskset for a non-empty list of cores is read back as the same list.
pub parse_cores-cpuspec :
    (c : ℕ) (cs default : List ℕ) → parse_cores (cpuspec (c ∷ cs)) default ≡ ok (c ∷ cs)
unfolding cpuspec
parse_cores-cpuspec c cs default =
    ap (λ (ts : List Text). parse_cores (join b',' (str c ∷ ts)) default) (sym (render_ones cs))
    ∙ parse_cores-join (one c) (map one cs) default
    ∙ ap ok (expand_ones (c ∷ cs))

pub parse_cores-str : (c : ℕ) → parse_cores (str c) [] ≡ ok (c ∷ [])
unfolding join
parse_cores-str c = parse_cores-join (one c) [] []

range_from-append : (lo m n : ℕ) → range_from lo m ++ range_from (lo + m) n ≡ range_from lo (m + n)
unfolding range_from
range_from-append lo zero n =
    ap (λ k. range_from k n) (let e : lo + 0 ≡ lo = omega arith in e)
    ∙ ap (range_from lo) (let e : n ≡ 0 + n = omega arith in e)
range_from-append lo (suc m) n =
    let e : lo + suc m ≡ (lo + 1) + m = omega arith in
    let e' : suc m + n ≡ suc (m + n) = omega arith in
    ap (λ k. lo ∷ (range_from (lo + 1) m ++ range_from k n)) e
    ∙ ap (λ (t : List ℕ). lo ∷ t) (range_from-append (lo + 1) m n)
    ∙ ap (range_from lo) (sym e')

contains-range_from : (c lo n : ℕ) → c < lo → contains c (range_from lo n) ≡ false
unfolding contains range_from
contains-range_from c lo zero h = refl
contains-range_from c lo (suc n) h =
    let ne : lo ≢ c = omega arith in
    let more : c < lo + 1 = omega arith in rw (==_ne lo c ne, contains-range_from c (lo + 1) n more)

overlap-range_from :
    (lo m hi n : ℕ) → lo + m ≤ hi → overlap (range_from lo m) (range_from hi n) ≡ false
unfolding overlap range_from
overlap-range_from lo zero hi n h = refl
overlap-range_from lo (suc m) hi n h =
    let lt : lo < hi = omega arith in
    let le : (lo + 1) + m ≤ hi = omega arith in
    rw (contains-range_from lo hi n lt, overlap-range_from (lo + 1) m hi n le)

-- The default cores of the server and of the client are all the cores of the machine, each once and
-- in order, and the two lists do not overlap.
pub default_cores_split :
    (ncpu : ℕ)
    → (default_server_cores ncpu ++ default_client_cores ncpu ≡ range 0 ncpu)
      × (overlap (default_server_cores ncpu) (default_client_cores ncpu) ≡ false)
unfolding default_server_cores default_client_cores range
default_cores_split ncpu =
    let e : (ncpu / 2 - 0) + (ncpu - ncpu / 2) ≡ ncpu - 0 = omega arith in
    let le : 0 + (ncpu / 2 - 0) ≤ ncpu / 2 = omega arith in
    let half : 0 + (ncpu / 2 - 0) ≡ ncpu / 2 = omega arith in
    (
      ap (λ k. range_from 0 (ncpu / 2 - 0) ++ range_from k (ncpu - ncpu / 2)) (sym half)
          ∙ range_from-append 0 (ncpu / 2 - 0) (ncpu - ncpu / 2)
          ∙ ap (range_from 0) e,
      overlap-range_from 0 (ncpu / 2 - 0) (ncpu / 2) (ncpu - ncpu / 2) le,
    )
