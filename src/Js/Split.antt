-- ===== src/Js/Split.antt =====
-- `split`, `join` and `trim`.
use tornjak.Prelude.{
  ℕ, ◌≡◌, refl, ◌≢◌, Bool, ◌&&◌, ◌||◌, List, [], ◌∷◌, ◌++◌, arith, ◌==◌, leb, if◌then◌else◌, All,
  ap,
}
use tornjak.Js.Strings.{Text, Lacks}

abbrev extend : ℕ → List Text → List Text
extend c [] = (c ∷ []) ∷ []
extend c (p ∷ ps) = (c ∷ p) ∷ ps

-- `s.split(sep)` for a separator of one code unit: always at least one part.
unfoldable pub split : Text → ℕ → List Text
split [] sep = [] ∷ []
split (c ∷ s) sep = if c == sep then [] ∷ split s sep else extend c (split s sep)

-- `parts.join(sep)`.
unfoldable pub join : List Text → Text → Text
join [] sep = []
join (p ∷ []) sep = p
join (p ∷ q ∷ ps) sep = p ++ (sep ++ join (q ∷ ps) sep)

-- White space and line terminators, as `trim` removes them.
abbrev pub is_space : ℕ → Bool
is_space c =
    (leb 9 c && leb c 13)
    || c == 32
    || c == 160
    || c == 0x1680
    || (leb 0x2000 c && leb c 0x200a)
    || c == 0x2028
    || c == 0x2029
    || c == 0x202f
    || c == 0x205f
    || c == 0x3000
    || c == 0xfeff

trim_start : Text → Text
trim_start [] = []
trim_start (c ∷ s) = if is_space c then trim_start s else c ∷ s

abbrev keep : ℕ → Text → Text
keep c [] = if is_space c then [] else c ∷ []
keep c (d ∷ s) = c ∷ d ∷ s

trim_end : Text → Text
trim_end [] = []
trim_end (c ∷ s) = keep c (trim_end s)

unfoldable pub trim : Text → Text
unfolding trim_start trim_end
trim s = trim_end (trim_start s)

split-ne-nil : (s : Text) (sep : ℕ) → split s sep ≢ []
unfolding split
split-ne-nil [] sep = λ e. cc
split-ne-nil (c ∷ s) sep = ground (arith, split-ne-nil s sep)

join-cons :
    (p : Text) (ps : List Text) (sep : Text)
    → ps ≢ []
    → join (p ∷ ps) sep ≡ p ++ (sep ++ join ps sep)
unfolding join
join-cons p [] sep h = absurd (h refl)
join-cons p (q ∷ ps) sep h = refl

join-extend :
    (c : ℕ) (ps : List Text) (sep : Text) → ps ≢ [] → join (extend c ps) sep ≡ c ∷ join ps sep
unfolding join
join-extend c [] sep h = absurd (h refl)
join-extend c (p ∷ []) sep h = refl
join-extend c (p ∷ q ∷ ps) sep h = refl

-- Joining the parts of a split by its separator gives the text back.
pub join-split : (s : Text) (sep : ℕ) → join (split s sep) (sep ∷ []) ≡ s
unfolding split
join-split [] sep = unfold join in refl
join-split (c ∷ s) sep = ground (
  arith,
  join-split s sep,
  join-cons [] (split s sep) (sep ∷ []) (split-ne-nil s sep),
  join-extend c (split s sep) (sep ∷ []) (split-ne-nil s sep),
)

pub split-append :
    (p r : Text) (sep : ℕ) → Lacks sep p → split (p ++ (sep ∷ r)) sep ≡ p ∷ split r sep
unfolding split
split-append [] r sep h = ground arith
split-append (c ∷ p) r sep h = ground (arith, split-append p r sep)

pub split-Lacks : (p : Text) (sep : ℕ) → Lacks sep p → split p sep ≡ p ∷ []
unfolding split
split-Lacks [] sep h = refl
split-Lacks (c ∷ p) sep h = ground (arith, split-Lacks p sep)

-- Splitting a join gives the parts back, if there is one and none holds the separator.
pub split-join :
    (p : Text) (ps : List Text) (sep : ℕ)
    → All (Lacks sep) (p ∷ ps)
    → split (join (p ∷ ps) (sep ∷ [])) sep ≡ p ∷ ps
unfolding join
split-join p [] sep (h, hs) = split-Lacks p sep h
split-join p (q ∷ ps) sep (h, hs) =
    rw (split-append p _ sep h) (ap (λ l. p ∷ l) (split-join q ps sep hs))
