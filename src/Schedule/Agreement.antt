-- ===== src/Schedule/Agreement.antt =====
-- What both validators accept.
use eco_mint.Prelude.{String, true, Option, none, some, List, [], ◌∷◌, ◌≡◌, ◌↔◌, refl, arith, All}
use eco_mint.Schedule.Seconds.{ℤ, ◌<ℤ◌, leb_ℤ-false}
use eco_mint.Schedule.Validators.{
  finite, Env, finites, parse_coupon_schedule, to_epoch_seconds, first_error, check_dates,
  coupon_schedule_group_validator, all_in_order, within, validate,
}

abbrev pub IsAscending : Option ℤ → List ℤ → Type 0
IsAscending previous [] = Unit {0}
IsAscending none (date ∷ dates) = IsAscending (some date) dates
IsAscending (some previous) (date ∷ dates) = (previous <ℤ date) × IsAscending (some date) dates

-- docs/bond-coupon-schedule.md, but for its demand that every date is a whole number of seconds: not
-- empty, after the present, before the maturity, and ascending.
pub record IsSchedule (now maturity : ℤ) (dates : List ℤ) : Type 0 where
  pub filled : ¬ (dates ≡ [])
  pub timely : All (λ date. (now <ℤ date) × (date <ℤ maturity)) dates
  pub ascending : IsAscending none dates

all_in_order_iff :
    (now maturity : ℤ) (previous : Option ℤ) (dates : List ℤ)
    → (all_in_order now maturity previous dates ≡ true)
      ↔ (All (λ date. (now <ℤ date) × (date <ℤ maturity)) dates × IsAscending previous dates)
unfolding all_in_order
all_in_order_iff now maturity previous [] = (λ h. (tt, tt), λ h. refl)
all_in_order_iff now maturity none (date ∷ dates) =
    let (out, back) = all_in_order_iff now maturity (some date) dates in
    let past = leb_ℤ-false date now in
    let late = leb_ℤ-false maturity date in
    (
      λ h.
          let (timely, up) = out (ground arith) in
          (((past.0 (ground arith), late.0 (ground arith)), timely), up),
      λ (((a, b), timely), up). ground (arith, past.1 a, late.1 b, back (timely, up)),
    )
all_in_order_iff now maturity (some previous) (date ∷ dates) =
    let (out, back) = all_in_order_iff now maturity (some date) dates in
    let past = leb_ℤ-false date now in
    let late = leb_ℤ-false maturity date in
    let after = leb_ℤ-false date previous in
    (
      λ h.
          let (timely, up) = out (ground arith) in
          (((past.0 (ground arith), late.0 (ground arith)), timely), (after.0 (ground arith), up)),
      λ (((a, b), timely), (c, up)).
          ground (arith, past.1 a, late.1 b, after.1 c, back (timely, up)),
    )

first_error-order :
    (now maturity : ℤ) (previous : Option ℤ) (dates : List ℤ)
    → (first_error now maturity previous dates ≡ none)
      ↔ (all_in_order now maturity previous dates ≡ true)
unfolding first_error all_in_order
first_error-order now maturity previous [] = (λ h. refl, λ h. refl)
first_error-order now maturity previous (date ∷ dates) =
    let (out, back) = first_error-order now maturity (some date) dates in ground (arith, out, back)

-- The dates of a schedule, all finite, are a valid schedule.
abbrev pub IsAcceptable : ℤ → ℤ → Option (List ℤ) → Type 0
IsAcceptable now maturity none = ⊥
IsAcceptable now maturity (some dates) = IsSchedule now maturity dates

within_iff :
    (now maturity : ℤ) (read : Option (List ℤ))
    → (within now (finite maturity) read ≡ true) ↔ IsAcceptable now maturity read
within_iff now maturity none = (λ h. absurd (ground arith), λ h. absurd h)
within_iff now maturity (some []) = (λ h. absurd (ground arith), λ s. absurd (s.filled refl))
within_iff now maturity (some (date ∷ dates)) =
    let (out, back) = all_in_order_iff now maturity none (date ∷ dates) in
    (
      λ h.
          let (timely, up) = out h in
          record { filled = λ e. absurd (ground arith); timely = timely; ascending = up },
      λ s. back (s.timely, s.ascending),
    )

check_dates-within :
    (now maturity : ℤ) (read : Option (List ℤ))
    → (check_dates now maturity read ≡ none) ↔ (within now (finite maturity) read ≡ true)
check_dates-within now maturity none = (λ h. absurd (ground arith), λ h. absurd (ground arith))
check_dates-within now maturity (some []) = (λ h. absurd (ground arith), λ h. absurd (ground arith))
check_dates-within now maturity (some (date ∷ dates)) =
    first_error-order now maturity none (date ∷ dates)

-- For a schedule and a maturity date typed into the form, at the same time on both sides: the form's
-- validator finds no error exactly if the API's accepts the numbers that the form reads, and both
-- exactly if these are finite, not empty, after the present, before the maturity and ascending. That
-- each is a whole number of seconds, neither asks.
pub validators-agree :
    (env : Env) (schedule maturity : String) (at : ℤ)
    → to_epoch_seconds env maturity ≡ some at
    → ((coupon_schedule_group_validator env (some schedule) (some maturity) ≡ none)
        ↔ (validate env.now (finite at) (some (parse_coupon_schedule env schedule)) ≡ true))
      × ((validate env.now (finite at) (some (parse_coupon_schedule env schedule)) ≡ true)
          ↔ IsAcceptable env.now at (finites (parse_coupon_schedule env schedule)))
unfolding coupon_schedule_group_validator validate
validators-agree env schedule maturity at read =
    let dates = parse_coupon_schedule env schedule in
    (
      rw (coupon_schedule_group_validator, read) (check_dates-within env.now at (finites dates)),
      within_iff env.now at (finites dates),
    )
