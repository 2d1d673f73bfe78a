-- ===== src/Js/Decimal.antt =====
-- Numbers in decimal: `n.toString()`, and the number that a text of digits stands for.
use tornjak.Prelude.{
  ℕ, zero, suc, ◌+◌, ◌*◌, ◌-◌, ◌/◌, ◌≤◌, ◌<◌, ◌≡◌, refl, sym, ◌∙◌, ap, [], ◌∷◌, ◌++◌, arith, ltb,
  Bool-cases, inl, inr, if◌then◌else◌,
}
use Prim.Native.Nat.{◌%◌}
use tornjak.Js.Strings.{Text}

-- The digits of `n`, on fuel: each round takes one digit away.
digits : ℕ → ℕ → Text
digits zero n = []
digits (suc fuel) n =
    let rest = digits fuel (n / 10) in
    if ltb n 10 then (48 + n) ∷ [] else rest ++ (48 + n % 10) ∷ []

unfoldable pub to_text : ℕ → Text
unfolding digits
to_text n = digits (suc n) n

-- The value of a text of digits, after those that were read into `acc`.
unfoldable pub value_from : ℕ → Text → ℕ
value_from acc [] = acc
value_from acc (c ∷ s) = value_from (acc * 10 + (c - 48)) s

abbrev pub value : Text → ℕ
value s = value_from 0 s

value_from-append :
    (acc : ℕ) (s : Text) (c : ℕ) → value_from acc (s ++ c ∷ []) ≡ value_from acc s * 10 + (c - 48)
unfolding value_from
value_from-append acc [] c = refl
value_from-append acc (d ∷ s) c = value_from-append (acc * 10 + (d - 48)) s c

value-digits : (fuel n : ℕ) → n < fuel → value (digits fuel n) ≡ n
unfolding digits
value-digits zero n h = omega (arith, h)
value-digits (suc fuel) n h = elim (Bool-cases (ltb n 10)) [
  | inl b ↦ rw b (unfold value_from in omega arith)
  | inr b ↦
      let big : 10 ≤ n = ground arith in
      rw b (
        value_from-append 0 (digits fuel (n / 10)) (48 + n % 10)
        ∙ (let ih = value-digits fuel (n / 10) (omega arith) in omega (arith, ih)))
]

-- The text of a number stands for the number: the fuel of `to_text` is enough for every digit.
pub value-to_text : (n : ℕ) → value (to_text n) ≡ n
unfolding to_text
value-to_text n = value-digits (suc n) n (omega arith)

pub to_text_injective : (m n : ℕ) → to_text m ≡ to_text n → m ≡ n
to_text_injective m n h = sym (value-to_text m) ∙ ap value h ∙ value-to_text n
