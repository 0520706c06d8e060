-- ===== src/Billing/Coverage.antt =====
-- billing/services.py: the continuous windows of paid service coverage. Dates are day numbers.
pub mod Merge
mod Tests
use internet_ms.Base.{
  ℕ, suc, ◌+◌, max, Bool, true, false, ◌&&◌, ◌||◌, List, [], ◌∷◌, ◌++◌, Option, none, some, ltb,
  leb, ◌==◌, if◌then◌else◌, filter,
}
use internet_ms.Billing.Models.{Period, Subscription, is_paid_period}

-- `PaidCoverageWindow`
pub record Window : Type 0 where
  pub start : ℕ
  pub end : ℕ
  pub period_count : ℕ

-- `(coverage_start, coverage_end, period.id)`
pub record Range : Type 0 where
  pub coverage_start : ℕ
  pub coverage_end : ℕ
  pub period_id : ℕ

-- The order of the sort key, a triple.
abbrev pub precedes : Range → Range → Bool
precedes a b =
    ltb a.coverage_start b.coverage_start
    || (a.coverage_start == b.coverage_start
        && (ltb a.coverage_end b.coverage_end
            || (a.coverage_end == b.coverage_end && leb a.period_id b.period_id)))

abbrev pub insert : Range → List Range → List Range
insert r [] = r ∷ []
insert r (x ∷ xs) = let rest = insert r xs in if precedes r x then r ∷ x ∷ xs else x ∷ rest

-- `sorted(ranges, key=…)`
unfoldable pub sorted_ranges : List Range → List Range
sorted_ranges [] = []
sorted_ranges (r ∷ rs) = insert r (sorted_ranges rs)

abbrev pub new_window : Range → Window
new_window r = record { start = r.coverage_start; end = r.coverage_end; period_count = 1 }

abbrev pub extend : Window → Range → Window
extend previous r = record {
  start = previous.start;
  end = max previous.end r.coverage_end;
  period_count = previous.period_count + 1;
}

-- The loop, with `windows[-1]` held apart.
unfoldable pub merge_from : Window → List Range → List Window
merge_from last [] = last ∷ []
merge_from last (r ∷ rs) =
    if ltb r.coverage_end r.coverage_start
    then merge_from last rs
    else if leb r.coverage_start (last.end + 1)
    then merge_from (extend last r) rs
    else last ∷ merge_from (new_window r) rs

-- The loop while there is no window.
unfoldable pub merge_sorted : List Range → List Window
unfolding merge_from
merge_sorted [] = []
merge_sorted (r ∷ rs) =
    if ltb r.coverage_end r.coverage_start then merge_sorted rs else merge_from (new_window r) rs

unfoldable pub merge_paid_coverage_ranges : List Range → List Window
unfolding sorted_ranges merge_sorted
merge_paid_coverage_ranges ranges = merge_sorted (sorted_ranges ranges)

abbrev pub coverage_end : Option ℕ → ℕ → ℕ
coverage_end none period_end = period_end
coverage_end (some end_date) period_end = if ltb end_date period_end then end_date else period_end

-- `subscription.periods.all()`
abbrev pub periods_of : Subscription → List Period → List Period
periods_of subscription periods = filter (λ p. p.subscription_id == subscription.pk) periods

unfoldable pub paid_ranges : Subscription → List Period → List Range
paid_ranges subscription [] = []
paid_ranges subscription (p ∷ ps) =
    let rest = paid_ranges subscription ps in
    if is_paid_period p.status
    then (record {
      coverage_start = max p.period_start subscription.start_date;
      coverage_end = coverage_end subscription.end_date p.period_end;
      period_id = p.pk;
    })
      ∷ rest
    else rest

unfoldable pub paid_ranges_for_subscription : List Period → Subscription → List Range
unfolding paid_ranges
paid_ranges_for_subscription periods subscription =
    paid_ranges subscription (periods_of subscription periods)

unfoldable pub paid_service_coverage : List Period → Subscription → List Window
unfolding merge_paid_coverage_ranges paid_ranges_for_subscription
paid_service_coverage periods subscription =
    merge_paid_coverage_ranges (paid_ranges_for_subscription periods subscription)

abbrev pub all_paid_ranges : List Period → List Subscription → List Range
all_paid_ranges periods [] = []
all_paid_ranges periods (s ∷ ss) =
    paid_ranges_for_subscription periods s ++ all_paid_ranges periods ss

unfoldable pub paid_service_coverage_for_subscriptions :
    List Period → List Subscription → List Window
unfolding merge_paid_coverage_ranges
paid_service_coverage_for_subscriptions periods subscriptions =
    merge_paid_coverage_ranges (all_paid_ranges periods subscriptions)
