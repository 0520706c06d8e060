-- ===== src/Billing/Subscriptions/Tests.antt =====
-- Runs of the creation of periods, and the theorems at a concrete subscription.
use Prim.Native.Nat.{min}
use internet_ms.Base.{ℕ, ◌+◌, ◌*◌, ◌≡◌, refl, arith, true, none, some, [], ◌∷◌, filter}
use internet_ms.Base.Int.{pos, negsuc, ◌≤ℤ◌, ◌+ℤ◌, ◌-ℤ◌, ◌*ℤ◌}
use internet_ms.Base.Decimal.{round_half_even}
use internet_ms.Base.Result.{Result, ok, err}
use internet_ms.Billing.Models.{PeriodStatus}
use internet_ms.Billing.Calendar.{Date, add_months, shift_months, last_day_of_month, days_in_month}
use internet_ms.Billing.Calendar.Months.{IsDay, add_months-IsDay, add_months_twice}
use internet_ms.Billing.Subscriptions.{
  BillingPeriod, Promotion, RewardType, Subscribed, Store, coverage_overlaps, negative_free_months,
  calculate_period_amount, is_valid_for, insert_period, reuse, create_period,
}
use internet_ms.Billing.Subscriptions.Overlaps.{NoOverlap, clash, create_period-NoOverlap}
use internet_ms.Billing.Subscriptions.Amounts.{amount_bounds}
use internet_ms.Billing.Subscriptions.Promotions.{
  best_package_promotion, is_candidate, IsChoice, IsMost, best_promotion_is_best,
}

abbrev day : ℕ → ℕ → ℕ → Date
day y m d = record { year = y; month = m; day = d }

abbrev subscribed : Subscribed
subscribed = record { pk = 5; organization_id = 1; monthly_fee_at_signup = pos 7000000 }

abbrev tenth_off : Promotion
tenth_off = record {
  pk = 9;
  organization_id = 1;
  for_package = true;
  package_id = none;
  minimum_months = 2;
  minimum_amount = pos 0;
  reward_type = RewardType.percent;
  reward_value = pos 1000;
  valid_from = some (day 2026 1 1);
  valid_until = none;
  is_active = true;
}

abbrev february : BillingPeriod
february = record {
  pk = 1;
  organization_id = 1;
  subscription_id = 5;
  period_start = day 2026 2 1;
  period_end = day 2026 2 28;
  months = 1;
  free_months = 0;
  original_amount = pos 7000000;
  discount_amount = pos 0;
  final_amount = pos 7000000;
  status = PeriodStatus.paid;
  invoice_id = none;
  receipt_id = none;
  promotion_id = none;
  paid_at = some 3;
}

-- A January that was cancelled, before a February that is paid.
abbrev january : BillingPeriod
january = record february {
  pk = 2;
  period_start = day 2026 1 1;
  period_end = day 2026 1 31;
  status = PeriodStatus.cancelled;
  paid_at = none;
}

abbrev one_period : Store
one_period = record { documents = []; periods = february ∷ []; next_id = 2 }

abbrev two_periods : Store
two_periods = record { documents = []; periods = february ∷ january ∷ []; next_id = 3 }

abbrev value {ℓ κ} : {E : Type ℓ} {A : Type κ} → A → Result E A → A
value default (ok a) = a
value default (err _) = default

abbrev march : BillingPeriod × Store
march =
    value (february, one_period)
      (create_period 1 subscribed (day 2026 3 17) 1 (some tenth_off) one_period)

-- Two months from March.
march-created :
    create_period 1 subscribed (day 2026 3 17) 1 (some tenth_off) one_period ≡ ok (march.0, march.1)
unfolding create_period calculate_period_amount is_valid_for shift_months add_months
    last_day_of_month days_in_month insert_period ◌*ℤ◌ ◌+ℤ◌ ◌-ℤ◌ round_half_even
march-created = refl

march-end : (march.0.period_end ≡ day 2026 4 30) × (march.0.final_amount ≡ pos 12600000)
unfolding create_period calculate_period_amount is_valid_for shift_months add_months
    last_day_of_month days_in_month insert_period ◌*ℤ◌ ◌+ℤ◌ ◌-ℤ◌ round_half_even
march-end = (refl, refl)

overlap_refused :
    create_period 1 subscribed (day 2026 1 5) 1 none one_period ≡ err coverage_overlaps
unfolding create_period calculate_period_amount is_valid_for shift_months add_months
    last_day_of_month days_in_month insert_period ◌*ℤ◌ ◌+ℤ◌ ◌-ℤ◌
overlap_refused = refl

abbrev reopened : BillingPeriod × Store
reopened =
    value (january, two_periods) (create_period 1 subscribed (day 2026 1 5) 1 none two_periods)

-- The cancelled January is opened again for two months, over the paid February.
reopened_overlaps :
    (reopened.1.periods ≡ february ∷ reopened.0 ∷ []) × (clash february reopened.0 ≡ true)
unfolding create_period calculate_period_amount is_valid_for shift_months add_months
    last_day_of_month days_in_month reuse ◌*ℤ◌ ◌+ℤ◌ ◌-ℤ◌
reopened_overlaps = (refl, refl)

create_period-NoOverlap_example : NoOverlap march.1.periods
unfolding NoOverlap
create_period-NoOverlap_example =
    create_period-NoOverlap 1 subscribed (day 2026 3 17) 1 (some tenth_off) one_period march.0
      march.1 march-created (λ x h. cc) (tt, tt)

amount_bounds_example :
    let a = calculate_period_amount subscribed 2 (some tenth_off) (day 2026 3 1) in
    (a.original ≡ pos (7000000 * 2))
    × (pos 0 ≤ℤ a.discount)
    × (pos 0 ≤ℤ a.final)
    × (a.final ≤ℤ a.original)
amount_bounds_example =
    amount_bounds subscribed 7000000 2 (some tenth_off) (day 2026 3 1) refl (omega arith)

end_of_january : IsDay (day 2026 1 31)
unfolding days_in_month
end_of_january = (omega arith, omega arith, omega arith, omega arith, omega arith)

one_month_on : add_months (day 2026 1 31) 1 ≡ some (day 2026 2 28)
unfolding add_months days_in_month
one_month_on = refl

add_months-IsDay_example :
    IsDay (day 2026 2 28)
    × (12 * 2026 + 2 ≡ 12 * 2026 + 1 + 1)
    × (28 ≡ min 31 (days_in_month 2026 2))
add_months-IsDay_example =
    add_months-IsDay (day 2026 1 31) 1 (day 2026 2 28) one_month_on end_of_january

add_months_twice_example : add_months (day 2026 12 1) 3 ≡ add_months (day 2026 10 1) (2 + 3)
unfolding add_months days_in_month
add_months_twice_example =
    add_months_twice (day 2026 10 1) 2 3 (day 2026 12 1)
      (omega arith, omega arith, omega arith, omega arith, omega arith) refl refl

-- A tenth of 140 for two months.
tenth_chosen :
    best_package_promotion (day 2026 3 1) 2 (pos 14000000) (pos 7000000) 1 4 (tenth_off ∷ [])
    ≡ some tenth_off
unfolding best_package_promotion is_valid_for ◌*ℤ◌ ◌+ℤ◌ ◌-ℤ◌ round_half_even
tenth_chosen = refl

best_promotion_is_best_example :
    let best =
      best_package_promotion (day 2026 3 1) 2 (pos 14000000) (pos 7000000) 1 4 (tenth_off ∷ []) in
    IsChoice (day 2026 3 1) 2 (pos 14000000) (pos 7000000) 1 4 best
    × IsMost
        (day 2026 3 1)
        2
        (pos 14000000)
        (pos 7000000)
        (filter (is_candidate 1 4) (tenth_off ∷ []))
        best
best_promotion_is_best_example =
    best_promotion_is_best (day 2026 3 1) 2 (pos 14000000) (pos 7000000) 1 4 (tenth_off ∷ [])

-- The reward of a promotion may be negative: with -10 percent a period costs a tenth more.
abbrev tenth_on : Promotion
tenth_on = record tenth_off { reward_value = negsuc 999 }

dearer : (calculate_period_amount subscribed 2 (some tenth_on) (day 2026 3 1)).final ≡ pos 15400000
unfolding calculate_period_amount is_valid_for ◌*ℤ◌ ◌-ℤ◌ round_half_even
dearer = refl

month_before : shift_months (day 2026 1 1) (negsuc 0) ≡ some (day 2025 12 1)
unfolding shift_months days_in_month
month_before = refl

-- A month taken back instead of given.
abbrev month_less : Promotion
month_less = record tenth_off { reward_type = RewardType.free_months; reward_value = negsuc 99 }

month_less_refused :
    create_period 1 subscribed (day 2026 3 17) 1 (some month_less) one_period
    ≡ err negative_free_months
unfolding create_period calculate_period_amount is_valid_for shift_months add_months
    last_day_of_month days_in_month insert_period ◌*ℤ◌ ◌+ℤ◌ ◌-ℤ◌
month_less_refused = refl
