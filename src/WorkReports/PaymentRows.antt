-- ===== src/WorkReports/PaymentRows.antt =====
-- work_reports/models.py: technician payments and payment batches.
use internet_ms.Base.{ℕ, Bool, true, false, Option}
use internet_ms.Base.Int.{ℤ}
use internet_ms.Base.Text.{Text}

-- `TechnicianPaymentRecord.Status`
pub data PaymentStatus : Type 0 where
  awaiting_confirmation confirmed disputed voided : PaymentStatus

-- `TechnicianPaymentRecord.PaymentMethod`
pub data PaymentMethod : Type 0 where
  cash mobile_money bank_transfer other : PaymentMethod

-- `WorkReportHistory.Event`, of the payments
pub data PaymentEvent : Type 0 where
  recorded adjustment_approved confirmed disputed voided replaced : PaymentEvent
  batch_recorded batch_confirmed batch_disputed batch_voided batch_replaced : PaymentEvent

-- What a payment and a batch share, and what their steps change.
pub record Lifecycle : Type 0 where
  pub status : PaymentStatus
  pub confirmed_at : Option ℕ
  pub disputed_at : Option ℕ
  pub dispute_reason : Text
  pub voided_at : Option ℕ
  pub voided_by_id : Option ℕ
  pub void_reason : Text

-- `TechnicianPaymentRecord`: amounts in cents
pub record Payment : Type 0 where
  pub pk : ℕ
  pub tenant_id : ℕ
  pub report_id : ℕ
  pub agreed_amount_snapshot : ℤ
  pub amount_paid : ℤ
  pub payment_date : ℕ
  pub payment_method : PaymentMethod
  pub reference : Text
  pub manager_note : Text
  pub adjustment_reason : Text
  pub recorded_by_id : ℕ
  pub replaces_id : Option ℕ
  pub batch_id : Option ℕ
  pub lifecycle : Lifecycle

-- `TechnicianPaymentBatch`
pub record Batch : Type 0 where
  pub pk : ℕ
  pub tenant_id : ℕ
  pub technician_id : ℕ
  pub payment_date : ℕ
  pub payment_method : PaymentMethod
  pub method_description : Text
  pub reference : Text
  pub manager_note : Text
  pub agreed_amount_total_snapshot : ℤ
  pub amount_paid_total : ℤ
  pub recorded_by_id : ℕ
  pub replaces_id : Option ℕ
  pub lifecycle : Lifecycle

-- The history of a payment; `from_status` is `none` for "NOT_RECORDED".
pub record PaymentEntry : Type 0 where
  pub report_id : ℕ
  pub actor_membership_id : ℕ
  pub event : PaymentEvent
  pub from_status : Option PaymentStatus
  pub to_status : PaymentStatus
  pub reason : Text

abbrev pub is_awaiting : PaymentStatus → Bool
is_awaiting PaymentStatus.awaiting_confirmation = true
is_awaiting _ = false

abbrev pub is_confirmed : PaymentStatus → Bool
is_confirmed PaymentStatus.confirmed = true
is_confirmed _ = false

abbrev pub is_disputed : PaymentStatus → Bool
is_disputed PaymentStatus.disputed = true
is_disputed _ = false

abbrev pub is_voided : PaymentStatus → Bool
is_voided PaymentStatus.voided = true
is_voided _ = false

abbrev pub is_other : PaymentMethod → Bool
is_other PaymentMethod.other = true
is_other _ = false

abbrev pub same_payment_status : PaymentStatus → PaymentStatus → Bool
same_payment_status PaymentStatus.awaiting_confirmation b = is_awaiting b
same_payment_status PaymentStatus.confirmed b = is_confirmed b
same_payment_status PaymentStatus.disputed b = is_disputed b
same_payment_status PaymentStatus.voided b = is_voided b

abbrev pub same_method : PaymentMethod → PaymentMethod → Bool
same_method PaymentMethod.cash PaymentMethod.cash = true
same_method PaymentMethod.mobile_money PaymentMethod.mobile_money = true
same_method PaymentMethod.bank_transfer PaymentMethod.bank_transfer = true
same_method PaymentMethod.other PaymentMethod.other = true
same_method _ _ = false
