-- ===== src/WorkReports/PaymentChecks.antt =====
-- work_reports: who may handle technician payments, and the checks on a payment's row.
use internet_ms.Base.{
  ℕ, String, Bool, false, not, ◌&&◌, ◌||◌, Option, none, some, [], ◌∷◌, ◌++◌, ◌==◌, any, find,
}
use internet_ms.Base.Int.{pos, leb_ℤ, eq_ℤ}
use internet_ms.Base.Text.{Text, strip, is_empty}
use internet_ms.Base.Result.{Result, ok, ◌>>◌, raise_if}
use internet_ms.Users.Models.{Membership, is_technician, is_admin_manager, is_super_admin}
use internet_ms.WorkReports.PaymentRows.{
  Payment, Batch, Lifecycle, PaymentStatus, PaymentEvent, is_confirmed, is_disputed, is_voided,
  same_payment_status, same_method,
}
use internet_ms.WorkReports.Models.{
  Report, Store, WorkError, is_approved, is_some, if_some, no_payment_right, foreign_actor,
}
use internet_ms.WorkReports.Reports.{require}

abbrev pub is_active_tenant : Store → ℕ → Bool
is_active_tenant s tenant = any (λ t. t == tenant) s.active_tenant_ids

-- `_require_payment_manager`
unfoldable pub require_payment_manager :
    Store → Membership → String → ℕ → Result WorkError (Unit {0})
unfolding require
require_payment_manager s m permission tenant = do
  require s m permission tenant
  raise_if (not (is_admin_manager m.base_role)) no_payment_right
  raise_if (not (m.tenant_id == tenant) || not (is_active_tenant s tenant)) no_payment_right

-- `_require_payment_technician`
unfoldable pub require_payment_technician :
    Store → Membership → String → ℕ → Result WorkError (Unit {0})
unfolding require
require_payment_technician s m permission tenant = do
  require s m permission tenant
  raise_if
      (not (is_technician m.base_role)
        || not (m.tenant_id == tenant)
        || not (is_active_tenant s tenant))
      no_payment_right

-- `_payment_history`: `WorkReportHistory.save` checks the actor's tenant.
unfoldable pub payment_history :
    Payment
    → Membership
    → PaymentEvent
    → Option PaymentStatus
    → Text
    → Store
    → Result WorkError Store
payment_history payment m event from_status reason s = do
  raise_if (not (m.tenant_id == payment.tenant_id) && not (is_super_admin m.base_role))
      foreign_actor
  ok (record s {
    payment_history =
        s.payment_history
        ++ (record {
          report_id = payment.report_id;
          actor_membership_id = m.pk;
          event = event;
          from_status = from_status;
          to_status = payment.lifecycle.status;
          reason = reason;
        })
          ∷ [];
  })

abbrev pub member_fits : Store → ℕ → ℕ → Bool
member_fits s tenant key = elim (find (λ m. m.pk == key) s.memberships) [
  | none ↦ false
  | some m ↦ m.tenant_id == tenant
]

-- The checks on the moments and reasons, which payments and batches share.
abbrev pub lifecycle_fits : Store → ℕ → Lifecycle → Bool
lifecycle_fits s tenant c =
    not (is_confirmed c.status && not (is_some c.confirmed_at))
    && not
        (is_disputed c.status && (not (is_some c.disputed_at) || is_empty (strip c.dispute_reason)))
    && not (
        is_voided c.status
        && (not (is_some c.voided_at)
            || not (is_some c.voided_by_id)
            || is_empty (strip c.void_reason)))
    && if_some c.voided_by_id (member_fits s tenant)

abbrev pub report_fits : ℕ → Option Report → Bool
report_fits tenant none = false
report_fits tenant (some r) = r.tenant_id == tenant && is_approved r.status

abbrev pub same_technician : Option Report → Option Report → Bool
same_technician (some a) (some b) = a.technician_id == b.technician_id
same_technician _ _ = false

abbrev pub report_of : Store → ℕ → Option Report
report_of s key = find (λ r. r.pk == key) s.reports

abbrev pub replaced_fits : Store → Payment → Option Payment → Bool
replaced_fits s payment none = false
replaced_fits s payment (some old) =
    not (old.pk == payment.pk)
    && is_voided old.lifecycle.status
    && old.tenant_id == payment.tenant_id
    && old.report_id == payment.report_id
    && same_technician (report_of s old.report_id) (report_of s payment.report_id)

abbrev pub is_technician_of : Option Report → ℕ → Bool
is_technician_of none key = false
is_technician_of (some r) key = r.technician_id == key

abbrev pub batch_fits : Store → Payment → Option Batch → Bool
batch_fits s payment none = false
batch_fits s payment (some batch) =
    batch.tenant_id == payment.tenant_id
    && is_technician_of (report_of s payment.report_id) batch.technician_id
    && same_payment_status batch.lifecycle.status payment.lifecycle.status
    && batch.payment_date == payment.payment_date
    && same_method batch.payment_method payment.payment_method

-- `TechnicianPaymentRecord.clean`: no error is recorded.
unfoldable pub clean_payment : Store → Payment → Bool
clean_payment s p =
    not (leb_ℤ p.amount_paid (pos 0))
    && report_fits p.tenant_id (report_of s p.report_id)
    && not
        (not (eq_ℤ p.amount_paid p.agreed_amount_snapshot) && is_empty (strip p.adjustment_reason))
    && member_fits s p.tenant_id p.recorded_by_id
    && lifecycle_fits s p.tenant_id p.lifecycle
    && if_some p.replaces_id (λ key. replaced_fits s p (find (λ x. x.pk == key) s.payments))
    && if_some p.batch_id (λ key. batch_fits s p (find (λ b. b.pk == key) s.batches))

abbrev pub is_active_for : ℕ → Payment → Bool
is_active_for report p = p.report_id == report && not (is_voided p.lifecycle.status)

-- The constraint `one_active_technician_payment_per_report`.
abbrev pub conflicts : Store → Payment → Bool
conflicts s p =
    not (is_voided p.lifecycle.status)
    && any (λ x. not (x.pk == p.pk) && is_active_for p.report_id x) s.payments
