-- ===== src/Js/Strings.antt =====
-- Texts as lists of code units, with the methods of `String.prototype` that the source calls. Where
-- a method returns -1 for "not found", the model returns `none`.
use Prim.Native.Char.{code}
use Prim.Native.String.{String}
use mathlib.Core.Option
use tornjak.Prelude.{
  ℕ, zero, suc, ◌<◌, ◌≡◌, refl, ◌≢◌, ◌↔◌, Bool, true, false, ◌&&◌, ◌||◌, Option, none, some, List,
  [], ◌∷◌, ◌++◌, arith, ◌==◌, if◌then◌else◌, All, length, take, drop, inl, inr, ap, ||-eq-true,
}

abbrev pub Text : Type 0
Text = List ℕ

-- The code units of a literal, all of which are ASCII in the source.
abbrev pub codes : String → Text
codes String.[] = []
codes (String.◌∷◌ c s) = code c ∷ codes s

-- `===` between two texts.
infix 50 ◌===◌
unfoldable pub ◌===◌ : Text → Text → Bool
[] === [] = true
[] === (y ∷ ys) = false
(x ∷ xs) === [] = false
(x ∷ xs) === (y ∷ ys) = x == y && xs === ys

pub ===_iff : (s t : Text) → ((s === t) ≡ true) ↔ (s ≡ t)
unfolding ◌===◌
===_iff [] [] = ground arith
===_iff [] (y ∷ ys) = ground arith
===_iff (x ∷ xs) [] = ground arith
===_iff (x ∷ xs) (y ∷ ys) = ground (arith, ===_iff xs ys)

pub ===_refl : (s : Text) → (s === s) ≡ true
===_refl s = (===_iff s s).1 refl

pub ===_comm : (s t : Text) → (s === t) ≡ (t === s)
===_comm s t = ground (arith, ===_iff s t, ===_iff t s)

abbrev pub Lacks : ℕ → Text → Type 0
Lacks c = All (λ x. x ≢ c)

unfoldable pub starts_with : Text → Text → Bool
starts_with s [] = true
starts_with [] (p ∷ ps) = false
starts_with (x ∷ xs) (p ∷ ps) = x == p && starts_with xs ps

pub starts_with_split : (s p : Text) → starts_with s p ≡ true → s ≡ p ++ drop (length p) s
unfolding starts_with
starts_with_split s [] h = refl
starts_with_split [] (p ∷ ps) h = cc
starts_with_split (x ∷ xs) (p ∷ ps) h = ground (arith, starts_with_split xs ps)

pub starts_with-append : (p s : Text) → starts_with (p ++ s) p ≡ true
unfolding starts_with
starts_with-append [] s = refl
starts_with-append (x ∷ p) s = ground (arith, starts_with-append p s)

-- `s.includes(p)`: `p` stands somewhere in `s`.
unfoldable pub has_substring : Text → Text → Bool
unfolding starts_with
has_substring [] p = starts_with [] p
has_substring (x ∷ s) p = starts_with (x ∷ s) p || has_substring s p

pub has_substring_sound :
    (s p : Text) → has_substring s p ≡ true → (u : Text) × (v : Text) × (s ≡ u ++ (p ++ v))
unfolding has_substring
has_substring_sound [] p h = ([], drop (length p) [], starts_with_split [] p h)
has_substring_sound (x ∷ s) p h = elim (||-eq-true _ _ h) [
  | inl e ↦ ([], drop (length p) (x ∷ s), starts_with_split (x ∷ s) p e)
  | inr e ↦ let (u, v, q) = has_substring_sound s p e in (x ∷ u, v, ap (λ l. x ∷ l) q)
]

-- `s.indexOf(c)` for one code unit.
unfoldable pub index_of : Text → ℕ → Option ℕ
index_of [] c = none
index_of (x ∷ s) c = if x == c then some 0 else Option.map suc (index_of s c)

-- What a found index says: the text before it lacks the unit, which stands at the index.
pub index_of_sound :
    (s : Text) (c n : ℕ)
    → index_of s c ≡ some n
    → Lacks c (take n s)
      × (drop n s ≡ c ∷ drop (suc n) s)
      × (n < length s)
      × (length (take n s) ≡ n)
unfolding index_of
index_of_sound [] c n h = cc
index_of_sound (x ∷ s) c zero h = ground arith
index_of_sound (x ∷ s) c (suc n) h = ground (arith, index_of_sound s c n)

pub index_of-append : (p r : Text) (c : ℕ) → Lacks c p → index_of (p ++ (c ∷ r)) c ≡ some (length p)
unfolding index_of
index_of-append [] r c h = ground arith
index_of-append (x ∷ p) r c h = ground (arith, index_of-append p r c)
