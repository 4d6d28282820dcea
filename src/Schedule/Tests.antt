-- ===== src/Schedule/Tests.antt =====
-- A schedule of two dates.
use eco_mint.Prelude.{true, none, some, [], ◌∷◌, ◌≡◌, ◌↔◌, refl, str_eq, if◌then◌else◌}
use eco_mint.Schedule.Seconds.{pos, leb_ℤ}
use eco_mint.Schedule.Validators.{
  finite, Env, finites, parse_coupon_schedule, to_epoch_seconds, coupon_schedule_group_validator,
  validate, all_in_order,
}
use eco_mint.Schedule.Agreement.{IsAcceptable, validators-agree}

abbrev env : Env
env = record {
  split = λ s. "20" ∷ "30" ∷ [];
  trim = λ s. s;
  number = λ s. if str_eq s "20" then finite (pos 20) else finite (pos 30);
  seconds_of = λ s. some (pos 40);
  now = pos 10;
}

validators-agree_example :
    ((coupon_schedule_group_validator env (some "20,30") (some "40") ≡ none)
      ↔ (validate (pos 10) (finite (pos 40)) (some (parse_coupon_schedule env "20,30")) ≡ true))
    × ((validate (pos 10) (finite (pos 40)) (some (parse_coupon_schedule env "20,30")) ≡ true)
        ↔ IsAcceptable (pos 10) (pos 40) (finites (parse_coupon_schedule env "20,30")))
unfolding to_epoch_seconds
validators-agree_example = validators-agree env "20,30" "40" (pos 40) refl

two_dates_pass :
    validate (pos 10) (finite (pos 40)) (some (parse_coupon_schedule env "20,30")) ≡ true
unfolding validate parse_coupon_schedule all_in_order leb_ℤ
two_dates_pass = refl
