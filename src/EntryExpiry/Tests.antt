-- ===== src/EntryExpiry/Tests.antt =====
-- Tests of the choice.
use tornjak.Prelude.{◌≡◌, refl, ℤ, pos, negsuc, Option, none, some}
use tornjak.Js.{Text, codes}
use tornjak.EntryExpiry.Form.{
  State, initial, on_change_expiry_option, on_change_expires_at_date, to_seconds,
}

-- A package that reads no text as a date.
abbrev no_date : Text → Option ℤ
no_date t = none

-- A package that reads every text as the 13th of August 2345 at noon.
abbrev far_date : Text → Option ℤ
far_date t = some (pos 11853086400500)

abbrev dated : State
dated =
    on_change_expires_at_date far_date (codes "08/13/2345")
      (on_change_expiry_option (codes "Date/Time") initial)

-- Half a second before the epoch is second -1.
before_epoch : to_seconds (negsuc 499) ≡ negsuc 0
unfolding to_seconds
before_epoch = refl

-- A text that is no date leaves the time of before and shows it as invalid.
kept : (on_change_expires_at_date no_date (codes "x") dated).expires_at ≡ some (pos 11853086400)
unfolding on_change_expires_at_date
kept = refl
