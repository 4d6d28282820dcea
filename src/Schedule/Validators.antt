-- ===== src/Schedule/Validators.antt =====
-- frontend/src/app/shared/validators/coupon-schedule.validators.ts and
-- api/src/bonds/dto/coupon-schedule.validator.ts. A finite number, whole or not and also below zero,
-- is an integer in units of 2^-1074 seconds (Seconds); `not_finite` stands for NaN and the infinities.
use eco_mint.Prelude.{
  String, Bool, true, false, not, Option, none, some, List, [], ◌∷◌, map, filter, str_eq,
  if◌then◌else◌,
}
use eco_mint.Schedule.Seconds.{ℤ, leb_ℤ}

pub data Num : Type 0 where
  finite : ℤ → Num
  not_finite : Num

-- JavaScript's `split(',')`, `trim` and `Number`, the time of a date text in whole seconds (`none` for
-- an invalid date), and the clock in whole seconds, both in the units of `finite`.
pub record Env : Type 0 where
  pub split : String → List String
  pub trim : String → String
  pub number : String → Num
  pub seconds_of : String → Option ℤ
  pub now : ℤ

-- The numbers, if all are finite.
abbrev pub cons_finite : Num → Option (List ℤ) → Option (List ℤ)
cons_finite (finite n) (some ns) = some (n ∷ ns)
cons_finite x rest = none

abbrev pub finites : List Num → Option (List ℤ)
finites [] = some []
finites (x ∷ xs) = cons_finite x (finites xs)

unfoldable pub parse_coupon_schedule : Env → String → List Num
parse_coupon_schedule env raw =
    map env.number (filter (λ s. not (str_eq s "")) (map env.trim (env.split raw)))

unfoldable pub to_epoch_seconds : Env → String → Option ℤ
to_epoch_seconds env date = if str_eq date "" then none else env.seconds_of date

pub data CouponError : Type 0 where
  coupon_empty coupon_past coupon_after_maturity coupon_unordered : CouponError

-- `i > 0 && date <= dates[i - 1]`
abbrev pub not_after : ℤ → Option ℤ → Bool
not_after date none = false
not_after date (some previous) = leb_ℤ date previous

-- The frontend's loop, with the date before.
unfoldable pub first_error : ℤ → ℤ → Option ℤ → List ℤ → Option CouponError
first_error now maturity previous [] = none
first_error now maturity previous (date ∷ dates) =
    let later = first_error now maturity (some date) dates in
    if leb_ℤ date now
    then some coupon_past
    else if leb_ℤ maturity date
    then some coupon_after_maturity
    else if not_after date previous
    then some coupon_unordered
    else later

abbrev pub check_dates : ℤ → ℤ → Option (List ℤ) → Option CouponError
check_dates now maturity none = some coupon_empty
check_dates now maturity (some []) = some coupon_empty
check_dates now maturity (some (date ∷ dates)) = first_error now maturity none (date ∷ dates)

abbrev pub against : Env → List Num → Option ℤ → Option CouponError
against env dates none = none
against env dates (some maturity) = check_dates env.now maturity (finites dates)

-- The validator of the form's group, whose controls are given with their values.
unfoldable pub coupon_schedule_group_validator :
    Env → Option String → Option String → Option CouponError
coupon_schedule_group_validator env (some schedule) (some maturity) =
    against env (parse_coupon_schedule env schedule) (to_epoch_seconds env maturity)
coupon_schedule_group_validator env schedule maturity = none

-- The loop of the API, which stops at the first false.
unfoldable pub all_in_order : ℤ → ℤ → Option ℤ → List ℤ → Bool
all_in_order now maturity previous [] = true
all_in_order now maturity previous (date ∷ dates) =
    let rest = all_in_order now maturity (some date) dates in
    if leb_ℤ date now
    then false
    else if leb_ℤ maturity date
    then false
    else if not_after date previous
    then false
    else rest

abbrev pub within : ℤ → Num → Option (List ℤ) → Bool
within now maturity none = false
within now maturity (some []) = false
within now not_finite (some (date ∷ dates)) = true
within now (finite maturity) (some (date ∷ dates)) = all_in_order now maturity none (date ∷ dates)

-- The API's constraint; a schedule that is no array of numbers is `none`, and a maturity date that is
-- no finite number is left to its own validator.
unfoldable pub validate : ℤ → Num → Option (List Num) → Bool
validate now maturity none = false
validate now maturity (some dates) = within now maturity (finites dates)
