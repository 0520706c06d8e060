-- ===== src/Billing/Errors.antt =====
-- The messages of `BillingServiceError` and `PermissionDenied` in billing/services.py.
use internet_ms.Base.Int.{ℤ}

pub data BillingError : Type 0 where
  negative_tax_rate credit_discount discount_range negative_line : BillingError
  cross_tenant invoice_not_found invalid_invoice quotation_not_found : BillingError
  not_an_invoice status_not_allowed transition_not_allowed : BillingError
  no_items bad_quantity negative_price negative_discount : BillingError
  reason_required linked_period not_voidable : BillingError
  period_not_found period_without_invoice period_paid period_not_open : BillingError
  credit_not_positive no_credit credit_note_not_found not_issued not_linked closed_by_reversal :
      BillingError
  no_candidate : BillingError
  credit_exceeds : ℤ → ℤ → BillingError
  not_positive reference_amount reference_taken no_payment not_full method_required : BillingError
  exceeds_balance : ℤ → BillingError
  inventory_error : BillingError
