-- ===== src/Spiffe/Selectors.antt =====
-- `formatSelectors` and `isSuperset`.
use tornjak.Prelude.{
  ℕ, ◌≡◌, refl, ◌↔◌, Bool, true, false, Option, none, some, List, [], ◌∷◌, ◌++◌, arith, Bool-cases,
  inl, inr, map, if◌then◌else◌,
}
use tornjak.Js.{Text, codes, Lacks, ===_iff, ===_refl, includes, make_set}
use tornjak.Types.{Selector}

unfoldable pub format_selectors : Selector → Text
format_selectors s = s.type ++ (codes ":" ++ s.value)

-- The loop returns at the first element of `subset` that `set` lacks.
unfoldable pub is_superset : List Text → List Text → Bool
is_superset set [] = true
is_superset set (elem ∷ subset) = if includes set elem then is_superset set subset else false

-- `new Set(selectors.map(formatSelectors))`, where missing selectors were first made an empty list.
unfoldable pub selector_set : Option (List Selector) → List Text
unfolding format_selectors make_set
selector_set none = make_set (map format_selectors [])
selector_set (some selectors) = make_set (map format_selectors selectors)

is_superset_sound :
    (set subset : List Text)
    → is_superset set subset ≡ true
    → (t : Text) → includes subset t ≡ true
    → includes set t ≡ true
unfolding is_superset
is_superset_sound set [] h t m = cc
is_superset_sound set (e ∷ es) h t m = elim (Bool-cases (includes set e)) [
  | inl i ↦ ground (arith, ===_iff e t, is_superset_sound set es (rw i at h) t)
  | inr i ↦ absurd (ground arith)
]

is_superset_complete :
    (set subset : List Text)
    → ((t : Text) → includes subset t ≡ true → includes set t ≡ true)
    → is_superset set subset ≡ true
unfolding is_superset
is_superset_complete set [] h = refl
is_superset_complete set (e ∷ es) h =
    let rest = is_superset_complete set es (λ t m. h t (ground arith)) in
    ground (arith, rest, h e (ground (arith, ===_refl e)))

-- The loop decides the inclusion of sets.
pub is_superset_iff :
    (set subset : List Text)
    → (is_superset set subset ≡ true)
      ↔ ((t : Text) → includes subset t ≡ true → includes set t ≡ true)
is_superset_iff set subset = (is_superset_sound set subset, is_superset_complete set subset)

split_unique :
    (c : ℕ) (p q r u : Text) → Lacks c p → Lacks c q → p ++ c ∷ r ≡ q ++ c ∷ u → (p ≡ q) × (r ≡ u)
split_unique c [] [] r u hp hq e = ground arith
split_unique c [] (y ∷ q) r u hp hq e = ground arith
split_unique c (x ∷ p) [] r u hp hq e = ground arith
split_unique c (x ∷ p) (y ∷ q) r u hp hq e = ground (arith, split_unique c p q r u)

-- Selectors whose types hold no colon are told apart by their format.
pub format_selectors_injective :
    (s t : Selector)
    → Lacks b':' s.type
    → Lacks b':' t.type
    → format_selectors s ≡ format_selectors t
    → s ≡ t
unfolding format_selectors
format_selectors_injective s t hs ht e =
    ground (arith, split_unique b':' s.type t.type s.value t.value hs ht e)
