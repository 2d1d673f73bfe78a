-- ===== src/EntryExpiry/Form.antt =====
-- The state of the choice and its handlers. Times are whole seconds, `none` for NaN. `moment` stands
-- for the package of that name: the time in milliseconds that it reads strictly from a text of the
-- form "MM/DD/YYYY hh:mm:ss", or `none` if the text or its date is not valid.
use tornjak.Prelude.{
  ℕ, ◌/◌, ℤ, pos, negsuc, Bool, true, false, not, ◌&&◌, Option, none, some, ◌++◌, ltb, leb,
}
use tornjak.Js.{Text, codes}

pub record State : Type 0 where
  pub expires_at : Option ℤ
  pub expiry_option : Text
  pub expiry_date : Text
  pub expiry_time : Text
  pub expiry_unsafe : Bool
  pub expiry_invalid : Bool

-- `JSMaxSafeTime`, in seconds.
abbrev pub js_max_safe_time : ℕ
js_max_safe_time = 8640000000000

unfoldable pub initial : State
initial = record {
  expires_at = some (pos 0);
  expiry_option = codes "None";
  expiry_date = codes "1/1/2021";
  expiry_time = codes "00:00";
  expiry_unsafe = false;
  expiry_invalid = false;
}

unfoldable pub on_change_expiry_option : Text → State → State
on_change_expiry_option item s = record s {
  expires_at = some (pos 0);
  expiry_option = item;
  expiry_unsafe = false;
  expiry_invalid = false;
}

-- A comparison with NaN is false.
unfoldable pub is_valid_expiry_time : Option ℤ → Bool
is_valid_expiry_time none = false
is_valid_expiry_time (some (pos n)) = ltb 0 n && leb n js_max_safe_time
is_valid_expiry_time (some (negsuc n)) = false

unfoldable pub expiry_time_update : Option ℤ → State → State
unfolding is_valid_expiry_time
expiry_time_update seconds s = record s {
  expires_at = seconds;
  expiry_unsafe = not (is_valid_expiry_time seconds);
}

unfoldable pub on_change_expires_at_seconds : Option ℤ → State → State
unfolding expiry_time_update
on_change_expires_at_seconds value s = expiry_time_update value s

-- `Math.floor(milliseconds / 1000)`
unfoldable pub to_seconds : ℤ → ℤ
to_seconds (pos n) = pos (n / 1000)
to_seconds (negsuc n) = negsuc (n / 1000)

abbrev pub read_date : Option ℤ → State → State
read_date none s = record s { expiry_invalid = true }
read_date (some milliseconds) s =
    expiry_time_update (some (to_seconds milliseconds)) (record s { expiry_invalid = false })

unfoldable pub update_valid_date_and_time : (Text → Option ℤ) → Text → Text → State → State
unfolding expiry_time_update to_seconds
update_valid_date_and_time moment d t s =
    read_date (moment (d ++ (codes " " ++ t))) (record s { expiry_date = d; expiry_time = t })

unfoldable pub on_change_expires_at_date : (Text → Option ℤ) → Text → State → State
unfolding update_valid_date_and_time
on_change_expires_at_date moment value s = update_valid_date_and_time moment value s.expiry_time s

unfoldable pub on_change_expires_at_time : (Text → Option ℤ) → Text → State → State
unfolding update_valid_date_and_time
on_change_expires_at_time moment value s = update_valid_date_and_time moment s.expiry_date value s
