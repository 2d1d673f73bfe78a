-- ===== src/EntryExpiry/Safety.antt =====
-- Which times the form gives without a warning.
use tornjak.Prelude.{
  ℕ, ◌≡◌, ◌≤◌, ◌⊎◌, inl, inr, refl, ℤ, pos, negsuc, true, false, Option, none, some, arith, ◌++◌,
}
use tornjak.Js.{Text, codes}
use tornjak.EntryExpiry.Form.{
  State, initial, js_max_safe_time, is_valid_expiry_time, on_change_expiry_option,
  on_change_expires_at_seconds, on_change_expires_at_date, on_change_expires_at_time,
  expiry_time_update, to_seconds, read_date,
}

-- The states after any sequence of choices and inputs.
pub data Reach (moment : Text → Option ℤ) : State → Type 0 where
  start : Reach moment initial
  option :
      {s : State} (item : Text) → Reach moment s → Reach moment (on_change_expiry_option item s)
  typed :
      {s : State} (value : Option ℤ)
      → Reach moment s
      → Reach moment (on_change_expires_at_seconds value s)
  date :
      {s : State} (value : Text)
      → Reach moment s
      → Reach moment (on_change_expires_at_date moment value s)
  time :
      {s : State} (value : Text)
      → Reach moment s
      → Reach moment (on_change_expires_at_time moment value s)

-- No expiry, or a positive time that a date can represent.
abbrev pub IsSafe : Option ℤ → Type 0
IsSafe seconds =
    (seconds ≡ some (pos 0))
    ⊎ ((n : ℕ) × (seconds ≡ some (pos n)) × (1 ≤ n) × (n ≤ js_max_safe_time))

is_valid_expiry_time-IsSafe :
    (seconds : Option ℤ) → is_valid_expiry_time seconds ≡ true → IsSafe seconds
unfolding is_valid_expiry_time
is_valid_expiry_time-IsSafe none h = cc
is_valid_expiry_time-IsSafe (some (pos n)) h = inr (n, refl, ground arith, ground arith)
is_valid_expiry_time-IsSafe (some (negsuc n)) h = cc

updated-IsSafe :
    (seconds : Option ℤ) (s : State)
    → (expiry_time_update seconds s).expiry_unsafe ≡ false
    → IsSafe (expiry_time_update seconds s).expires_at
unfolding expiry_time_update
updated-IsSafe seconds s h = is_valid_expiry_time-IsSafe seconds (ground arith)

read_date-IsSafe :
    (m : Option ℤ) (s : State)
    → (s.expiry_unsafe ≡ false → IsSafe s.expires_at)
    → (read_date m s).expiry_unsafe ≡ false
    → IsSafe (read_date m s).expires_at
read_date-IsSafe none s k h = k h
read_date-IsSafe (some milliseconds) s k h =
    updated-IsSafe (some (to_seconds milliseconds)) (record s { expiry_invalid = false }) h

-- In every state that the form can reach without the warning that the time is not safe, the time is
-- none (0) or positive and not above the greatest safe time, whatever texts are read as dates.
pub expires_at-IsSafe :
    (moment : Text → Option ℤ) (s : State)
    → Reach moment s
    → s.expiry_unsafe ≡ false
    → IsSafe s.expires_at
unfolding initial on_change_expiry_option on_change_expires_at_seconds on_change_expires_at_date
    on_change_expires_at_time
expires_at-IsSafe moment s start h = inl refl
expires_at-IsSafe moment s (option item r) h = inl refl
expires_at-IsSafe moment t (typed {s = s} value r) h = updated-IsSafe value s h
expires_at-IsSafe moment t (date {s = s} value r) h =
    read_date-IsSafe (moment (value ++ (codes " " ++ s.expiry_time)))
      (record s { expiry_date = value }) (expires_at-IsSafe moment s r) h
expires_at-IsSafe moment t (time {s = s} value r) h =
    read_date-IsSafe (moment (s.expiry_date ++ (codes " " ++ value)))
      (record s { expiry_time = value }) (expires_at-IsSafe moment s r) h
