-- ===== src/EntryCreate/Submit/Formats.antt =====
-- Which texts the form reads as selectors.
use mathlib.Core.Option
use tornjak.Prelude.{
  ℕ, suc, ◌≡◌, ◌≢◌, ◌↔◌, inl, inr, refl, false, some, List, [], ◌∷◌, ◌++◌, map, any, arith, length,
  take, drop, All, Option-cases, take-append-drop, take-append_length, drop-append_suc,
}
use tornjak.Js.{Text, Lacks, index_of, index_of_sound, index_of-append}
use tornjak.Types.{Selector}
use tornjak.Spiffe.Selectors.{format_selectors}
use tornjak.EntryCreate.Submit.{parse_selector, is_malformed, selector_at}

-- A text that `type:value` describes.
pub record IsFormatted (x : Text) (s : Selector) : Type 0 where
  pub same : format_selectors s ≡ x
  pub typed : s.type ≢ []
  pub no_colon : Lacks b':' s.type

pub parse_selector_sound : (x : Text) (s : Selector) → parse_selector x ≡ some s → IsFormatted x s
unfolding parse_selector
parse_selector_sound x s h = elim (Option-cases (index_of x b':')) [
  | inl e ↦ absurd (ground arith)
  | inr (n, e) ↦
      let (lacks, colon, _, len) = index_of_sound x b':' n e in
      at_index n lacks colon len (rw e at h)
]
  where
    at_index :
        (n : ℕ)
        → Lacks b':' (take n x)
        → drop n x ≡ b':' ∷ drop (suc n) x
        → length (take n x) ≡ n
        → selector_at x (some n) ≡ some s
        → IsFormatted x s
    at_index n lacks colon len k = unfold format_selectors in ground (arith, take-append-drop n x)

selector_at_colon :
    (t v : Text)
    → t ≢ []
    → selector_at (t ++ b':' ∷ v) (some (length t)) ≡ some (record { type = t; value = v })
selector_at_colon [] v h = absurd (h refl)
selector_at_colon (c ∷ t) v h =
    ground (arith, take-append_length t (b':' ∷ v), drop-append_suc t b':' v)

pub parse_selector_complete :
    (x : Text) (s : Selector) → IsFormatted x s → parse_selector x ≡ some s
unfolding parse_selector format_selectors
parse_selector_complete x s f =
    rw (← f.same, index_of-append s.type s.value b':' f.no_colon)
      (selector_at_colon s.type s.value f.typed)

-- The form reads a selector from exactly the texts `type:value` with a type.
pub parse_selector_iff : (x : Text) (s : Selector) → (parse_selector x ≡ some s) ↔ IsFormatted x s
parse_selector_iff x s = (parse_selector_sound x s, parse_selector_complete x s)

-- The text `type:value` of a selector with a value.
abbrev pub HasSelector : Text → Type 0
HasSelector x = (s : Selector) × IsFormatted x s × (s.value ≢ [])

well_formed : (x : Text) → is_malformed (parse_selector x) ≡ false → HasSelector x
well_formed x h = elim (Option-cases (parse_selector x)) [
  | inl e ↦ absurd (ground arith)
  | inr (s, e) ↦ (s, parse_selector_sound x s e, ground arith)
]

pub All-formatted :
    (xs : List Text) → any is_malformed (map parse_selector xs) ≡ false → All HasSelector xs
All-formatted [] h = tt
All-formatted (x ∷ xs) h = (well_formed x (ground arith), All-formatted xs (ground arith))

not_malformed :
    (x : Text) (s : Selector)
    → IsFormatted x s
    → s.value ≢ []
    → is_malformed (parse_selector x) ≡ false
not_malformed x s f h = rw (parse_selector_complete x s f) (ground arith)

pub none_malformed :
    (xs : List Text) → All HasSelector xs → any is_malformed (map parse_selector xs) ≡ false
none_malformed [] _ = refl
none_malformed (x ∷ xs) ((s, f, h), hs) =
    ground (arith, not_malformed x s f h, none_malformed xs hs)

-- The selectors of the entry, printed, are the texts between the commas.
pub selectors_printed :
    (xs : List Text)
    → All HasSelector xs
    → map (Option.map format_selectors) (map parse_selector xs) ≡ map some xs
selectors_printed [] _ = refl
selectors_printed (x ∷ xs) ((sel, f, _), hs) =
    ground (arith, parse_selector_complete x sel f, f.same, selectors_printed xs hs)
