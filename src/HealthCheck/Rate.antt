-- ===== src/HealthCheck/Rate.antt =====
-- The refresh rate, from the text that the user chooses.
use mathlib.Core.Option
use tornjak.Prelude.{
  ℕ, ◌*◌, ◌≡◌, ◌≢◌, refl, Bool, true, ◌&&◌, ◌||◌, Option, none, some, List, [], ◌∷◌, ◌++◌, arith,
  leb, All, if◌then◌else◌,
}
use tornjak.Js.{Text, codes, ◌===◌, Lacks, split, split-append, split-Lacks, value}
use tornjak.Store.Actions.{spire_health_check_time}
use tornjak.Api.Calls.{Effect, dispatch}

abbrev pub is_digit : ℕ → Bool
is_digit c = leb 48 c && leb c 57

abbrev leading : Text → Text
leading [] = []
leading (c ∷ s) = let rest = leading s in if is_digit c then c ∷ rest else []

abbrev number_of : Text → Option ℕ
number_of [] = none
number_of (c ∷ s) = some (value (c ∷ s))

-- `parseInt(s, 10)` of a text without sign and leading space: `none` is NaN.
abbrev pub parse_int : Text → Option ℕ
parse_int s = number_of (leading s)

-- The `switch`; a missing part is undefined, which matches no case.
unfoldable pub conversion_factor : List Text → ℕ
unfolding ◌===◌
conversion_factor [] = 1
conversion_factor (number ∷ []) = 1
conversion_factor (number ∷ unit ∷ parts) =
    if unit === codes "Min" || unit === codes "Mins"
    then 60
    else if unit === codes "Hrs" || unit === codes "Hr"
    then 3600
    else if unit === codes "Days" || unit === codes "Day"
    then 86400
    else 1

abbrev first_number : List Text → Option ℕ
first_number [] = none
first_number (number ∷ parts) = parse_int number

unfoldable pub convert_duration_to_seconds : Text → Option ℕ
unfolding split conversion_factor
convert_duration_to_seconds duration_string =
    let parts = split duration_string b' ' in
    Option.map (λ n. n * conversion_factor parts) (first_number parts)

-- What a choice dispatches; a text without a number gives NaN, which no option of the list does.
unfoldable pub on_change_spire_refresh_rate : Option Text → List Effect
unfolding convert_duration_to_seconds
on_change_spire_refresh_rate none = []
on_change_spire_refresh_rate (some sid) = elim (convert_duration_to_seconds sid) [
  | none ↦ []
  | some seconds ↦
      dispatch spire_health_check_time
        (record { spire_healt_check_time = seconds; spire_health_check_freq_display = sid })
      ∷ []
]

leading-digits : (s : Text) → All (λ c. is_digit c ≡ true) s → leading s ≡ s
leading-digits [] h = refl
leading-digits (c ∷ s) (h, hs) = rw (h, leading-digits s hs) refl

digits-Lacks : (s : Text) → All (λ c. is_digit c ≡ true) s → Lacks b' ' s
digits-Lacks [] h = ground arith
digits-Lacks (c ∷ s) (h, hs) = let rest = digits-Lacks s hs in ground arith

number_of-some : (s : Text) → s ≢ [] → number_of s ≡ some (value s)
number_of-some [] h = absurd (h refl)
number_of-some (c ∷ s) h = refl

-- A number, a space and a unit are that number times the seconds of the unit: 60 for minutes, 3600 for
-- hours, 86400 for days and 1 for everything else.
pub convert_duration_to_seconds_lem :
    (p unit : Text)
    → p ≢ []
    → All (λ c. is_digit c ≡ true) p
    → Lacks b' ' unit
    → convert_duration_to_seconds (p ++ (b' ' ∷ unit))
      ≡ some (
          value p
          * (if unit === codes "Min" || unit === codes "Mins"
              then 60
              else if unit === codes "Hrs" || unit === codes "Hr"
              then 3600
              else if unit === codes "Days" || unit === codes "Day"
              then 86400
              else 1))
unfolding convert_duration_to_seconds conversion_factor
convert_duration_to_seconds_lem p unit n h l =
    rw
      (
        split-append p unit b' ' (digits-Lacks p h),
        split-Lacks unit b' ' l,
        leading-digits p h,
        number_of-some p n,
      )
      refl
