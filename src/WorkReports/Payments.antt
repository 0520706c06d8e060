-- ===== src/WorkReports/Payments.antt =====
-- work_reports/services.py: single technician payments. Django's validation of single fields is a
-- parameter, `valid_fields`.
use internet_ms.Base.{
  ℕ, suc, Bool, false, not, ◌&&◌, Option, none, some, [], ◌∷◌, ◌++◌, ◌==◌, ltb, length, any, find,
  update, if◌then◌else◌,
}
use internet_ms.Base.Int.{ℤ, eq_ℤ}
use internet_ms.Base.Text.{Text, strip, is_empty}
use internet_ms.Base.Result.{Result, ok, ◌>>=◌, ◌>>◌, raise_if, or_raise}
use internet_ms.Users.PermissionCode
use internet_ms.Users.Models.{Membership, is_technician}
use internet_ms.WorkReports.PaymentRows.{
  Payment, Lifecycle, PaymentStatus, PaymentMethod, PaymentEvent, is_awaiting, is_voided,
}
use internet_ms.WorkReports.Models.{
  Store, WorkError, is_approved, is_some, same_number, not_available, not_approved,
  technician_inactive, already_paid, bad_replacement, replaced_twice, adjustment_reason_required,
  confirmation_required, invalid_payment, batched_payment, payment_closed, already_voided,
  short_reason,
}
use internet_ms.WorkReports.Reports.{tenant_or_own}
use internet_ms.WorkReports.PaymentChecks.{
  require_payment_manager, require_payment_technician, payment_history, report_of, is_technician_of,
  clean_payment, is_active_for, conflicts,
}

abbrev pub differs : Payment → Bool
differs p = not (eq_ℤ p.amount_paid p.agreed_amount_snapshot)

abbrev pub awaiting : Lifecycle
awaiting = record {
  status = PaymentStatus.awaiting_confirmation;
  confirmed_at = none;
  disputed_at = none;
  dispute_reason = [];
  voided_at = none;
  voided_by_id = none;
  void_reason = [];
}

abbrev pub confirm : ℕ → Lifecycle → Lifecycle
confirm now c = record c { status = PaymentStatus.confirmed; confirmed_at = some now }

abbrev pub dispute : ℕ → Text → Lifecycle → Lifecycle
dispute now reason c = record c {
  status = PaymentStatus.disputed;
  disputed_at = some now;
  dispute_reason = reason;
}

abbrev pub void : ℕ → ℕ → Text → Lifecycle → Lifecycle
void now actor reason c = record c {
  status = PaymentStatus.voided;
  voided_at = some now;
  voided_by_id = some actor;
  void_reason = reason;
}

abbrev pub with_lifecycle : (Lifecycle → Lifecycle) → Payment → Payment
with_lifecycle f p = record p { lifecycle = f p.lifecycle }

-- `report__technician=membership`
abbrev pub is_own_payment : Store → ℕ → Membership → ℕ → Payment → Bool
is_own_payment s payment_id m tenant p =
    p.pk == payment_id && p.tenant_id == tenant && is_technician_of (report_of s p.report_id) m.pk

-- `.get(pk=replaces_id)` of `record_technician_payment`, with its checks.
abbrev pub check_replaced : Store → ℕ → ℕ → Option ℕ → Result WorkError (Option Payment)
check_replaced s report tenant none = ok none
check_replaced s report tenant (some key) = do
  old ←
      or_raise
        (find (λ p. p.pk == key && p.tenant_id == tenant && p.report_id == report) s.payments)
        bad_replacement
  raise_if (not (is_voided old.lifecycle.status)) bad_replacement
  raise_if (any (λ p. same_number p.replaces_id (some old.pk)) s.payments) replaced_twice
  ok (some old)

-- The arguments of `record_technician_payment`.
pub record PaymentForm : Type 0 where
  pub amount_paid : ℤ
  pub payment_date : ℕ
  pub payment_method : PaymentMethod
  pub reference : Text
  pub manager_note : Text
  pub adjustment_reason : Text
  pub confirm_adjusted_amount : Bool

abbrev pub key_of : Option Payment → Option ℕ
key_of none = none
key_of (some p) = some p.pk

-- The technician's membership is active, a technician, and of the tenant.
abbrev pub works_in : ℕ → Option Membership → Bool
works_in tenant none = false
works_in tenant (some m) = m.is_active && m.tenant_id == tenant && is_technician m.base_role

abbrev pub log_replaced : Payment → Membership → Option Payment → Store → Result WorkError Store
log_replaced payment m none s = ok s
log_replaced payment m (some old) s =
    payment_history payment m PaymentEvent.replaced (some PaymentStatus.voided)
      old.lifecycle.void_reason s

abbrev pub log_adjusted : Payment → Membership → Text → Store → Result WorkError Store
log_adjusted payment m reason s =
    if differs payment
    then payment_history payment m PaymentEvent.adjustment_approved (some payment.lifecycle.status)
        reason s
    else ok s

-- `VOIDED if replacement else "NOT_RECORDED"`
abbrev pub initial_status : Option Payment → Option PaymentStatus
initial_status none = none
initial_status (some _) = some PaymentStatus.voided

module _ (valid_fields : Payment → Bool) where
  -- `save` of a new row.
  unfoldable pub insert_payment : Payment → Store → Result WorkError Store
  unfolding clean_payment
  insert_payment p s = do
    raise_if (not (valid_fields p && clean_payment s p)) invalid_payment
    raise_if (conflicts s p) already_paid
    ok (record s { payments = s.payments ++ p ∷ []; next_id = suc s.next_id })

  -- `save` in a step of the lifecycle.
  unfoldable pub save_payment : Payment → Store → Result WorkError Store
  unfolding clean_payment
  save_payment p s = do
    raise_if (not (valid_fields p && clean_payment s p)) invalid_payment
    raise_if (conflicts s p) already_paid
    ok (record s { payments = update (λ x. x.pk == p.pk) (λ _. p) s.payments })

  unfoldable pub record_technician_payment :
      ℕ
      → Membership
      → PaymentForm
      → Option ℕ
      → Option ℕ
      → Store
      → Result WorkError (Payment × Store)
  record_technician_payment report_id m form replaces_id tenant s = do
    let t = tenant_or_own tenant m
    require_payment_manager s m PermissionCode.technician_payments_record t
    report ← or_raise (find (λ r. r.pk == report_id && r.tenant_id == t) s.reports) not_available
    raise_if (not (is_approved report.status)) not_approved
    raise_if (not (works_in t (find (λ x. x.pk == report.technician_id) s.memberships)))
        technician_inactive
    raise_if (any (λ p. p.tenant_id == t && is_active_for report.pk p) s.payments) already_paid
    replacement ← check_replaced s report.pk t replaces_id
    let payment : Payment = record {
      pk = s.next_id;
      tenant_id = t;
      report_id = report.pk;
      agreed_amount_snapshot = report.details.agreed_amount;
      amount_paid = form.amount_paid;
      payment_date = form.payment_date;
      payment_method = form.payment_method;
      reference = strip form.reference;
      manager_note = strip form.manager_note;
      adjustment_reason = strip form.adjustment_reason;
      recorded_by_id = m.pk;
      replaces_id = key_of replacement;
      batch_id = none;
      lifecycle = awaiting;
    }
    raise_if (differs payment && is_empty payment.adjustment_reason) adjustment_reason_required
    raise_if (differs payment && not form.confirm_adjusted_amount) confirmation_required
    saved ← insert_payment payment s
    recorded ← payment_history payment m PaymentEvent.recorded (initial_status replacement) [] saved
    adjusted ← log_adjusted payment m payment.adjustment_reason recorded
    logged ← log_replaced payment m replacement adjusted
    ok (payment, logged)

  unfoldable pub confirm_technician_payment :
      ℕ → ℕ → Membership → Option ℕ → Store → Result WorkError (Payment × Store)
  confirm_technician_payment now payment_id m tenant s = do
    let t = tenant_or_own tenant m
    require_payment_technician s m PermissionCode.technician_payments_confirm_own t
    old ← or_raise (find (is_own_payment s payment_id m t) s.payments) not_available
    raise_if (is_some old.batch_id) batched_payment
    raise_if (not (is_awaiting old.lifecycle.status)) payment_closed
    let payment = with_lifecycle (confirm now) old
    saved ← save_payment payment s
    logged ← payment_history payment m PaymentEvent.confirmed (some old.lifecycle.status) [] saved
    ok (payment, logged)

  unfoldable pub dispute_technician_payment :
      ℕ → ℕ → Membership → Text → Option ℕ → Store → Result WorkError (Payment × Store)
  dispute_technician_payment now payment_id m reason tenant s = do
    let t = tenant_or_own tenant m
    require_payment_technician s m PermissionCode.technician_payments_dispute_own t
    raise_if (ltb (length (strip reason)) 5) short_reason
    old ← or_raise (find (is_own_payment s payment_id m t) s.payments) not_available
    raise_if (is_some old.batch_id) batched_payment
    raise_if (not (is_awaiting old.lifecycle.status)) payment_closed
    let payment = with_lifecycle (dispute now (strip reason)) old
    saved ← save_payment payment s
    logged ←
        payment_history payment m PaymentEvent.disputed (some old.lifecycle.status) (strip reason)
          saved
    ok (payment, logged)

  unfoldable pub void_technician_payment :
      ℕ → ℕ → Membership → Text → Option ℕ → Store → Result WorkError (Payment × Store)
  void_technician_payment now payment_id m reason tenant s = do
    let t = tenant_or_own tenant m
    require_payment_manager s m PermissionCode.technician_payments_void t
    raise_if (ltb (length (strip reason)) 5) short_reason
    old ← or_raise (find (λ p. p.pk == payment_id && p.tenant_id == t) s.payments) not_available
    raise_if (is_some old.batch_id) batched_payment
    raise_if (is_voided old.lifecycle.status) already_voided
    let payment = with_lifecycle (void now m.pk (strip reason)) old
    saved ← save_payment payment s
    logged ←
        payment_history payment m PaymentEvent.voided (some old.lifecycle.status) (strip reason)
          saved
    ok (payment, logged)

  unfoldable pub replace_technician_payment :
      ℕ → Membership → PaymentForm → Store → Result WorkError (Payment × Store)
  unfolding record_technician_payment
  replace_technician_payment voided_payment_id m form s = do
    old ←
        or_raise (find (λ p. p.pk == voided_payment_id && p.tenant_id == m.tenant_id) s.payments)
          not_available
    record_technician_payment old.report_id m form (some voided_payment_id) none s
