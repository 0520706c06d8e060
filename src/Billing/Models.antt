-- ===== src/Billing/Models.antt =====
-- billing/models.py: documents, their statuses, subscription periods and subscriptions.
use internet_ms.Base.{ℕ, Bool, true, false, Option}
use internet_ms.Base.Int.{ℤ}
use internet_ms.Base.Text.{Text}

pub data DocumentType : Type 0 where
  quotation invoice credit_note receipt : DocumentType

-- `BillingDocument.Status`
pub data Status : Type 0 where
  draft sent issued accepted approved rejected expired converted partially_paid paid void superseded
        cancelled reissued :
      Status

-- `BillingDocument`: money in cents, the tax rate in hundredths of a percent, dates as
-- day numbers, moments as numbers.
pub record Document : Type 0 where
  pub pk : ℕ
  pub organization_id : ℕ
  pub tenant_id : ℕ
  pub document_type : DocumentType
  pub status : Status
  pub customer_id : ℕ
  pub is_walk_in_sale : Bool
  pub issue_date : ℕ
  pub tax_rate : ℤ
  pub subtotal : ℤ
  pub tax_amount : ℤ
  pub total : ℤ
  pub balance_brought_forward : ℤ
  pub invoice_id : Option ℕ
  pub corrected_invoice_id : Option ℕ
  pub is_current_version : Bool
  pub converted_invoice_id : Option ℕ
  pub payment_date : Option ℕ
  pub payment_method : Text
  pub payment_reference : Text
  pub created_by_membership_id : Option ℕ
  pub responsible_membership_id : Option ℕ
  pub sent_at : Option ℕ
  pub accepted_at : Option ℕ
  pub rejected_at : Option ℕ
  pub expired_at : Option ℕ
  pub voided_at : Option ℕ

-- `SubscriptionPeriod.Status`
pub data PeriodStatus : Type 0 where
  pending invoiced paid overdue waived cancelled : PeriodStatus

pub record Period : Type 0 where
  pub pk : ℕ
  pub organization_id : ℕ
  pub subscription_id : ℕ
  pub period_start : ℕ
  pub period_end : ℕ
  pub status : PeriodStatus
  pub invoice_id : Option ℕ
  pub receipt_id : Option ℕ
  pub paid_at : Option ℕ

pub record Subscription : Type 0 where
  pub pk : ℕ
  pub organization_id : ℕ
  pub start_date : ℕ
  pub end_date : Option ℕ
  pub paid_through_date : Option ℕ

abbrev pub is_invoice : DocumentType → Bool
is_invoice DocumentType.invoice = true
is_invoice _ = false

abbrev pub is_quotation : DocumentType → Bool
is_quotation DocumentType.quotation = true
is_quotation _ = false

abbrev pub is_credit_note : DocumentType → Bool
is_credit_note DocumentType.credit_note = true
is_credit_note _ = false

abbrev pub is_receipt : DocumentType → Bool
is_receipt DocumentType.receipt = true
is_receipt _ = false

abbrev pub is_issued : Status → Bool
is_issued Status.issued = true
is_issued _ = false

abbrev pub is_paid_period : PeriodStatus → Bool
is_paid_period PeriodStatus.paid = true
is_paid_period _ = false
