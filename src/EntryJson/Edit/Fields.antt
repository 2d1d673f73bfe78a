-- ===== src/EntryJson/Edit/Fields.antt =====
-- The texts in which the form shows selectors and lists, read back.
use tornjak.Prelude.{
  ℕ, ◌≡◌, ◌≢◌, refl, ◌∙◌, ap, true, some, List, [], ◌∷◌, ◌++◌, map, filter, arith, All,
}
use tornjak.Js.{Text, codes, Lacks, split, split-append, split-join, join, trim}
use tornjak.Types.{Selector}
use tornjak.Spiffe.Selectors.{format_selectors}
use tornjak.EntryCreate.Submit.{comma_list, parse_selector}
use tornjak.EntryCreate.Submit.Formats.{parse_selector_complete}
use tornjak.EntryCreate.Submit.Typed.{comma_list-split}
use tornjak.EntryJson.Load.{selector_lines}
use tornjak.EntryJson.Edit.{selector_entries, or_blank, is_text}

-- A selector that fits on a line: its type is not empty and holds no colon, and its line holds no
-- line break and neither begins nor ends with white space.
pub record IsLine (s : Selector) : Type 0 where
  pub typed : s.type ≢ []
  pub no_colon : Lacks b':' s.type
  pub no_newline : Lacks 10 (format_selectors s)
  pub trimmed : trim (format_selectors s) ≡ format_selectors s

-- A name that stands between commas: not empty, with no comma, and trimmed.
pub record IsName (t : Text) : Type 0 where
  pub nonempty : t ≢ []
  pub no_comma : Lacks b',' t
  pub trimmed : trim t ≡ t

abbrev pub lines_of : List Selector → Text
lines_of [] = []
lines_of (s ∷ ss) = format_selectors s ++ (10 ∷ lines_of ss)

pub selector_lines-lines_of :
    (ss : List Selector) → selector_lines (map some ss) ≡ some (lines_of ss)
unfolding selector_lines
selector_lines-lines_of [] = refl
selector_lines-lines_of (s ∷ ss) = rw (selector_lines-lines_of ss) refl

split-lines_of :
    (ss : List Selector)
    → All IsLine ss
    → split (lines_of ss) 10 ≡ map format_selectors ss ++ ([] ∷ [])
unfolding split
split-lines_of [] _ = refl
split-lines_of (s ∷ ss) (h, hs) =
    split-append (format_selectors s) (lines_of ss) 10 h.no_newline
    ∙ ap (λ l. format_selectors s ∷ l) (split-lines_of ss hs)

is_text-append : (t v : Text) (c : ℕ) → is_text (t ++ c ∷ v) ≡ true
is_text-append [] v c = refl
is_text-append (d ∷ t) v c = refl

is_text-format : (s : Selector) → is_text (format_selectors s) ≡ true
unfolding format_selectors
is_text-format s = is_text-append s.type s.value b':'

kept_lines :
    (ss : List Selector)
    → All IsLine ss
    → map
        (λ x. or_blank (parse_selector x))
        (filter is_text (map trim (map format_selectors ss ++ ([] ∷ []))))
      ≡ ss
unfolding trim
kept_lines [] _ = refl
kept_lines (s ∷ ss) (h, hs) =
    rw
      (
        h.trimmed,
        is_text-format s,
        parse_selector_complete (format_selectors s) s
            (record { same = refl; typed = h.typed; no_colon = h.no_colon }),
        kept_lines ss hs,
      )
      refl

pub selector_entries-lines_of :
    (ss : List Selector) → All IsLine ss → selector_entries (lines_of ss) ≡ ss
unfolding selector_entries
selector_entries-lines_of ss h = rw (split-lines_of ss h) (kept_lines ss h)

names_trim : (ts : List Text) → All IsName ts → map trim ts ≡ ts
names_trim [] _ = refl
names_trim (t ∷ ts) (h, hs) = ground (arith, h.trimmed, names_trim ts hs)

names_comma : (ts : List Text) → All IsName ts → All (Lacks b',') ts
names_comma [] _ = tt
names_comma (t ∷ ts) (h, hs) = (h.no_comma, names_comma ts hs)

join-ne-nil : (t : Text) (ts : List Text) → t ≢ [] → join (t ∷ ts) (codes ",") ≢ []
unfolding join
join-ne-nil [] ts h = absurd (h refl)
join-ne-nil (c ∷ t) [] h = λ e. cc
join-ne-nil (c ∷ t) (u ∷ ts) h = λ e. cc

pub comma_list-join : (ts : List Text) → All IsName ts → comma_list (join ts (codes ",")) ≡ ts
unfolding comma_list join
comma_list-join [] _ = refl
comma_list-join (t ∷ ts) (h, hs) =
    comma_list-split _ (join-ne-nil t ts h.nonempty)
    ∙ ap (map trim) (split-join t ts b',' (names_comma (t ∷ ts) (h, hs)))
    ∙ names_trim (t ∷ ts) (h, hs)
