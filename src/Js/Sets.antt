-- ===== src/Js/Sets.antt =====
-- `Array.prototype.includes` and `Set` over texts. A set is the list of its elements in insertion order.
use tornjak.Prelude.{◌≡◌, Bool, ◌||◌, List, [], ◌∷◌, ◌++◌, arith, if◌then◌else◌, any, any-append}
use tornjak.Js.Strings.{Text, ◌===◌, ===_iff}

-- `xs.includes(t)`, and `set.has(t)` of a set with the elements `xs`.
abbrev pub includes : List Text → Text → Bool
includes xs t = any (λ x. x === t) xs

unfoldable pub add : List Text → Text → List Text
add set t = if includes set t then set else set ++ t ∷ []

add_all : List Text → List Text → List Text
add_all set [] = set
add_all set (t ∷ ts) = add_all (add set t) ts

-- `new Set(ts)`.
unfoldable pub make_set : List Text → List Text
unfolding add_all add ◌===◌
make_set ts = add_all [] ts

pub includes-add :
    (set : List Text) (t u : Text) → includes (add set t) u ≡ (includes set u || t === u)
unfolding add
includes-add set t u = ground (arith, any-append (λ x. x === u) set (t ∷ []), ===_iff t u)

includes-add_all :
    (set ts : List Text) (u : Text)
    → includes (add_all set ts) u ≡ (includes set u || includes ts u)
unfolding add_all
includes-add_all set [] u = ground arith
includes-add_all set (t ∷ ts) u =
    ground (arith, includes-add_all (add set t) ts u, includes-add set t u)

-- A set made from a list has exactly the elements of the list.
pub includes-make_set : (ts : List Text) (u : Text) → includes (make_set ts) u ≡ includes ts u
unfolding make_set
includes-make_set ts u = includes-add_all [] ts u
