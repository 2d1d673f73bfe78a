-- ===== src/EntryCreate/Submit/Typed.antt =====
-- Selectors typed one to a line arrive in the request.
use tornjak.Prelude.{
  ℕ, ◌≡◌, ◌≢◌, refl, ◌∙◌, ap, some, List, [], ◌∷◌, ◌++◌, map, map-append, arith, All,
}
use tornjak.Js.{Text, codes, Lacks, join, split, trim, split-join}
use tornjak.Types.{Selector}
use tornjak.Spiffe.Selectors.{format_selectors}
use tornjak.EntryCreate.State.{State}
use tornjak.EntryCreate.Handlers.{comma_for_newline, on_change_selectors}
use tornjak.EntryCreate.Submit.{comma_list, parse_selector}
use tornjak.EntryCreate.Submit.Formats.{parse_selector_complete}

-- A selector that can be typed: its type is not empty and holds no colon, and its line holds no
-- comma and no line break, and neither begins nor ends with white space.
pub record IsTypable (s : Selector) : Type 0 where
  pub typed : s.type ≢ []
  pub no_colon : Lacks b':' s.type
  pub no_comma : Lacks b',' (format_selectors s)
  pub no_newline : Lacks 10 (format_selectors s)
  pub trimmed : trim (format_selectors s) ≡ format_selectors s

abbrev pub newline : Text
newline = 10 ∷ []

map-comma_for_newline : (s : Text) → Lacks 10 s → map comma_for_newline s ≡ s
map-comma_for_newline [] h = refl
map-comma_for_newline (c ∷ s) h = ground (arith, map-comma_for_newline s)

commas-join :
    (ts : List Text)
    → All (Lacks 10) ts
    → map comma_for_newline (join ts newline) ≡ join ts (codes ",")
unfolding join
commas-join [] h = refl
commas-join (t ∷ []) (h, _) = map-comma_for_newline t h
commas-join (t ∷ u ∷ ts) (h, hs) =
    rw (map-append, map-comma_for_newline t h) (ap (λ r. t ++ b',' ∷ r) (commas-join (u ∷ ts) hs))

abbrev lines : List Selector → List Text
lines = map format_selectors

lines-newline : (ss : List Selector) → All IsTypable ss → All (Lacks 10) (lines ss)
lines-newline [] _ = tt
lines-newline (s ∷ ss) (h, hs) = (h.no_newline, lines-newline ss hs)

lines-comma : (ss : List Selector) → All IsTypable ss → All (Lacks b',') (lines ss)
lines-comma [] _ = tt
lines-comma (s ∷ ss) (h, hs) = (h.no_comma, lines-comma ss hs)

lines-trim : (ss : List Selector) → All IsTypable ss → map trim (lines ss) ≡ lines ss
lines-trim [] _ = refl
lines-trim (s ∷ ss) (h, hs) = ground (arith, h.trimmed, lines-trim ss hs)

lines-parse : (ss : List Selector) → All IsTypable ss → map parse_selector (lines ss) ≡ map some ss
lines-parse [] _ = refl
lines-parse (s ∷ ss) (h, hs) = ground (
  arith,
  parse_selector_complete (format_selectors s) s
      (record { same = refl; typed = h.typed; no_colon = h.no_colon }),
  lines-parse ss hs,
)

pub comma_list-split : (s : Text) → s ≢ [] → comma_list s ≡ map trim (split s b',')
unfolding comma_list
comma_list-split [] h = absurd (h refl)
comma_list-split (c ∷ s) h = refl

pub append-cons-ne-nil : (p : Text) (c : ℕ) (v : Text) → p ++ c ∷ v ≢ []
append-cons-ne-nil [] c v = λ e. cc
append-cons-ne-nil (x ∷ p) c v = λ e. cc

join-ne-nil : (s : Selector) (ts : List Text) → join (format_selectors s ∷ ts) (codes ",") ≢ []
unfolding join format_selectors
join-ne-nil s [] = append-cons-ne-nil s.type b':' s.value
join-ne-nil s (t ∷ ts) = append-cons-ne-nil (s.type ++ b':' ∷ s.value) b',' _

-- The selectors that are typed one to a line are those of the request, in order, if there are any,
-- their types are not empty and hold no colon, and their lines hold no comma and no line break and
-- neither begin nor end with white space.
pub on_change_selectors_typed :
    (st : State) (s : Selector) (ss : List Selector)
    → All IsTypable (s ∷ ss)
    → map parse_selector (
        comma_list
          (on_change_selectors (join (map format_selectors (s ∷ ss)) newline) st).selectors)
      ≡ map some (s ∷ ss)
unfolding on_change_selectors
on_change_selectors_typed st s ss h =
    let ts = lines (s ∷ ss) in
    rw
      (
        commas-join ts (lines-newline (s ∷ ss) h),
        comma_list-split _ (join-ne-nil s (lines ss)),
        split-join (format_selectors s) (lines ss) b',' (lines-comma (s ∷ ss) h),
      )
      (ap (map parse_selector) (lines-trim (s ∷ ss) h) ∙ lines-parse (s ∷ ss) h)
