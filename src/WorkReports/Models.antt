-- ===== src/WorkReports/Models.antt =====
-- work_reports/models.py: reports, their work dates and their history.
use internet_ms.Base.{
  ℕ, Bool, true, false, not, ◌&&◌, ◌||◌, Option, none, some, List, ◌==◌, ltb, find,
}
use internet_ms.Base.Int.{ℤ, eq_ℤ}
use internet_ms.Base.Text.{Text, strip, is_empty, text_eq}
use internet_ms.WorkReports.PaymentRows.{Payment, Batch, PaymentEntry}
use internet_ms.Users.Models.{Membership, is_technician, is_super_admin}

-- `TechnicianWorkReport.Status`
pub data ReportStatus : Type 0 where
  draft submitted rejected approved : ReportStatus

-- `WorkReportHistory.Event`, of the report lifecycle
pub data ReportEvent : Type 0 where
  created updated submitted resubmitted rejected approved corrected : ReportEvent

-- The fields that a form sets; the amount in cents.
pub record Details : Type 0 where
  pub customer_id : Option ℕ
  pub work_title : Text
  pub client_name : Text
  pub work_location : Text
  pub activity_description : Text
  pub agreed_amount : ℤ
  pub internal_notes : Text

pub record Report : Type 0 where
  pub pk : ℕ
  pub tenant_id : ℕ
  pub technician_id : ℕ
  pub details : Details
  pub service_date : ℕ
  pub status : ReportStatus
  pub rejection_reason : Text
  pub submitted_at : Option ℕ
  pub approved_at : Option ℕ
  pub approved_by_id : Option ℕ

-- `WorkReportServiceDay`
pub record ServiceDay : Type 0 where
  pub tenant_id : ℕ
  pub report_id : ℕ
  pub service_date : ℕ
  pub activity_note : Text

-- `WorkReportHistory`, less its snapshots
pub record HistoryEntry : Type 0 where
  pub report_id : ℕ
  pub actor_membership_id : ℕ
  pub event : ReportEvent
  pub from_status : Option ReportStatus
  pub to_status : ReportStatus
  pub reason : Text

pub record Customer : Type 0 where
  pub pk : ℕ
  pub tenant_id : ℕ

pub record Store : Type 0 where
  pub memberships : List Membership
  pub customers : List Customer
  pub reports : List Report
  pub service_days : List ServiceDay
  pub history : List HistoryEntry
  pub payments : List Payment
  pub batches : List Batch
  pub payment_history : List PaymentEntry
  pub active_tenant_ids : List ℕ
  pub next_id : ℕ

pub data WorkError : Type 0 where
  no_permission not_technician not_available wrong_state reason_required : WorkError
  no_work_date missing_date future_date repeated_date long_note : WorkError
  invalid_report approved_immutable days_immutable amount_fixed foreign_actor : WorkError
  no_payment_right not_approved technician_inactive already_paid bad_replacement replaced_twice :
      WorkError
  adjustment_reason_required confirmation_required payment_immutable invalid_payment : WorkError
  batched_payment payment_closed already_voided short_reason : WorkError
  no_allocation too_many_allocations invalid_allocation conflicting_allocation : WorkError
  bad_method method_description_required many_technicians other_reports no_total no_batch_rows :
      WorkError

abbrev pub is_draft : ReportStatus → Bool
is_draft ReportStatus.draft = true
is_draft _ = false

abbrev pub is_submitted : ReportStatus → Bool
is_submitted ReportStatus.submitted = true
is_submitted _ = false

abbrev pub is_rejected : ReportStatus → Bool
is_rejected ReportStatus.rejected = true
is_rejected _ = false

abbrev pub is_approved : ReportStatus → Bool
is_approved ReportStatus.approved = true
is_approved _ = false

abbrev pub same_status : ReportStatus → ReportStatus → Bool
same_status ReportStatus.draft b = is_draft b
same_status ReportStatus.submitted b = is_submitted b
same_status ReportStatus.rejected b = is_rejected b
same_status ReportStatus.approved b = is_approved b

abbrev pub same_number : Option ℕ → Option ℕ → Bool
same_number none none = true
same_number (some a) (some b) = a == b
same_number _ _ = false

abbrev pub is_some {ℓ} : {A : Type ℓ} → Option A → Bool
is_some none = false
is_some (some _) = true

-- The checks of `clean` on the rows that the foreign keys name.
abbrev pub technician_fits : ℕ → Option Membership → Bool
technician_fits tenant_id none = false
technician_fits tenant_id (some m) = m.tenant_id == tenant_id && is_technician m.base_role

abbrev pub approver_fits : ℕ → Option Membership → Bool
approver_fits tenant_id none = false
approver_fits tenant_id (some m) = m.tenant_id == tenant_id || is_super_admin m.base_role

abbrev pub customer_fits : ℕ → Option Customer → Bool
customer_fits tenant_id none = false
customer_fits tenant_id (some c) = c.tenant_id == tenant_id

abbrev pub if_some : Option ℕ → (ℕ → Bool) → Bool
if_some none test = true
if_some (some key) test = test key

-- `TechnicianWorkReport.clean`: no error is recorded.
unfoldable pub clean : ℕ → Store → Report → Bool
clean today s r =
    not (ltb today r.service_date)
    && technician_fits r.tenant_id (find (λ m. m.pk == r.technician_id) s.memberships)
    && if_some r.details.customer_id
        (λ key. customer_fits r.tenant_id (find (λ c. c.pk == key) s.customers))
    && if_some r.approved_by_id
        (λ key. approver_fits r.tenant_id (find (λ m. m.pk == key) s.memberships))
    && not (is_rejected r.status && is_empty (strip r.rejection_reason))
    && not (is_approved r.status && (not (is_some r.approved_by_id) || not (is_some r.approved_at)))

abbrev pub same_details : Details → Details → Bool
same_details a b =
    same_number a.customer_id b.customer_id
    && text_eq a.work_title b.work_title
    && text_eq a.client_name b.client_name
    && text_eq a.work_location b.work_location
    && text_eq a.activity_description b.activity_description
    && eq_ℤ a.agreed_amount b.agreed_amount
    && text_eq a.internal_notes b.internal_notes

-- The fields in `protected` agree.
unfoldable pub same_protected : Report → Report → Bool
same_protected a b =
    a.technician_id == b.technician_id
    && same_details a.details b.details
    && a.service_date == b.service_date
    && same_status a.status b.status
    && text_eq a.rejection_reason b.rejection_reason
    && same_number a.submitted_at b.submitted_at
    && same_number a.approved_at b.approved_at
    && same_number a.approved_by_id b.approved_by_id
