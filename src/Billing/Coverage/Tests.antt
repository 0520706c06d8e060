-- ===== src/Billing/Coverage/Tests.antt =====
-- A run of the coverage windows, and the theorems at concrete periods.
use internet_ms.Base.{ℕ, ◌≡◌, refl, some, List, [], ◌∷◌, any}
use internet_ms.Billing.Models.{Period, PeriodStatus, Subscription}
use internet_ms.Billing.Coverage.{
  Range, sorted_ranges, merge_sorted, merge_from, merge_paid_coverage_ranges, paid_service_coverage,
  periods_of,
}
use internet_ms.Billing.Coverage.Merge.{
  in_window, in_range, Separated, is_covered_by, merged_coverage, coverage_exact,
}

abbrev range : ℕ → ℕ → ℕ → Range
range a b k = record { coverage_start = a; coverage_end = b; period_id = k }

abbrev ranges : List Range
ranges = range 61 90 3 ∷ range 1 30 1 ∷ range 31 40 2 ∷ range 20 10 4 ∷ []

ranges-windows :
    merge_paid_coverage_ranges ranges
    ≡ (record { start = 1; end = 40; period_count = 2 })
      ∷ (record { start = 61; end = 90; period_count = 1 })
      ∷ []
unfolding merge_paid_coverage_ranges sorted_ranges merge_sorted merge_from
ranges-windows = refl

abbrev month : Period
month = record {
  pk = 1;
  organization_id = 1;
  subscription_id = 9;
  period_start = 1;
  period_end = 30;
  status = PeriodStatus.paid;
  invoice_id = some 2;
  receipt_id = some 3;
  paid_at = some 5;
}

abbrev service : Subscription
service = record {
  pk = 9;
  organization_id = 1;
  start_date = 5;
  end_date = some 25;
  paid_through_date = some 30;
}

merged_coverage_example :
    (any (in_window 35) (merge_paid_coverage_ranges ranges) ≡ any (in_range 35) ranges)
    × Separated (merge_paid_coverage_ranges ranges)
merged_coverage_example = merged_coverage ranges 35

coverage_exact_example :
    any (in_window 20) (paid_service_coverage (month ∷ []) service)
    ≡ any (is_covered_by service 20) (periods_of service (month ∷ []))
coverage_exact_example = coverage_exact (month ∷ []) service 20
