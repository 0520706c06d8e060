-- ===== src/WorkReports/BatchServices.antt =====
-- work_reports/services.py: recording a payment batch, and the steps of its lifecycle.
use internet_ms.Base.{
  ℕ, suc, Bool, not, ◌&&◌, ◌||◌, Option, none, some, List, [], ◌∷◌, ◌++◌, ◌==◌, ltb, length, any,
  all, filter, find, update,
}
use internet_ms.Base.Int.{pos, leb_ℤ}
use internet_ms.Base.Text.{Text, strip, is_empty}
use internet_ms.Base.Result.{Result, ok, ◌>>=◌, ◌>>◌, raise_if, or_raise}
use internet_ms.Users.PermissionCode
use internet_ms.Users.Models.{Membership}
use internet_ms.WorkReports.PaymentRows.{
  Payment, Batch, Lifecycle, PaymentMethod, PaymentEvent, is_awaiting, is_voided, is_other,
}
use internet_ms.WorkReports.Models.{
  Report, Store, WorkError, is_approved, not_available, not_approved, technician_inactive,
  already_paid, invalid_payment, payment_closed, already_voided, short_reason, bad_method,
  method_description_required, many_technicians, no_total, no_batch_rows,
}
use internet_ms.WorkReports.Reports.{tenant_or_own}
use internet_ms.WorkReports.PaymentChecks.{
  require_payment_manager, require_payment_technician, is_active_for,
}
use internet_ms.WorkReports.Payments.{
  awaiting, confirm, dispute, void, with_lifecycle, works_in, insert_payment, save_payment,
}
use internet_ms.WorkReports.Batches.{
  Allocation, RawAllocation, BatchForm, normalize_batch_allocations, match_reports,
  first_technician, agreed_sum, paid_sum, check_adjustments, check_replaced_batch, is_allocation_of,
  clean_batch, batch_history, log_adjustments, log_replaced_batch, allocation_row, key_of_batch,
  initial_batch_status,
}

abbrev pub is_batch_of : ℕ → ℕ → Option ℕ → Batch → Bool
is_batch_of batch_id tenant none b = b.pk == batch_id && b.tenant_id == tenant
is_batch_of batch_id tenant (some technician) b =
    b.pk == batch_id && b.tenant_id == tenant && b.technician_id == technician

-- `_locked_batch`
unfoldable pub locked_batch : ℕ → ℕ → Option ℕ → Store → Result WorkError (Batch × List Payment)
locked_batch batch_id tenant technician s = do
  batch ← or_raise (find (is_batch_of batch_id tenant technician) s.batches) not_available
  let allocations = filter (is_allocation_of tenant batch.pk) s.payments
  raise_if (is_empty allocations) no_batch_rows
  ok (batch, allocations)

abbrev pub batch_with : (Lifecycle → Lifecycle) → Batch → Batch
batch_with f b = record b { lifecycle = f b.lifecycle }

-- The new batch, with its totals.
unfoldable pub batch_row :
    ℕ
    → ℕ
    → ℕ
    → Membership
    → BatchForm
    → PaymentMethod
    → List (Allocation × Report)
    → Option Batch
    → Batch
unfolding agreed_sum paid_sum
batch_row pk t technician m form method matched replacement = record {
  pk = pk;
  tenant_id = t;
  technician_id = technician;
  payment_date = form.payment_date;
  payment_method = method;
  method_description = strip form.method_description;
  reference = strip form.reference;
  manager_note = strip form.manager_note;
  agreed_amount_total_snapshot = agreed_sum matched;
  amount_paid_total = paid_sum matched;
  recorded_by_id = m.pk;
  replaces_id = key_of_batch replacement;
  lifecycle = awaiting;
}

module _ (valid_fields : Payment → Bool) (valid_batch : Batch → Bool) where
  -- `TechnicianPaymentBatch.save` of a new row.
  unfoldable pub insert_batch : Batch → Store → Result WorkError Store
  insert_batch b s = do
    raise_if (not (valid_batch b && clean_batch s b)) invalid_payment
    ok (record s { batches = s.batches ++ b ∷ []; next_id = suc s.next_id })

  -- `save` in a step of the lifecycle.
  unfoldable pub save_batch : Batch → Store → Result WorkError Store
  save_batch b s = do
    raise_if (not (valid_batch b && clean_batch s b)) invalid_payment
    ok (record s { batches = update (λ x. x.pk == b.pk) (λ _. b) s.batches })

  unfoldable pub insert_allocations :
      Batch → List (Allocation × Report) → Store → Result WorkError Store
  insert_allocations b [] s = ok s
  insert_allocations b (x ∷ xs) s = do
    saved ← insert_payment valid_fields (allocation_row s.next_id b x) s
    insert_allocations b xs saved

  unfoldable pub save_allocations :
      (Lifecycle → Lifecycle) → List Payment → Store → Result WorkError Store
  save_allocations f [] s = ok s
  save_allocations f (p ∷ ps) s = do
    saved ← save_payment valid_fields (with_lifecycle f p) s
    save_allocations f ps saved

  -- `_transition_batch`
  unfoldable pub transition_batch :
      (Lifecycle → Lifecycle) → Batch → List Payment → Store → Result WorkError Store
  transition_batch f batch allocations s = do
    saved ← save_batch (batch_with f batch) s
    save_allocations f allocations saved

  -- From the new batch on: its allocations and the history.
  unfoldable pub store_batch :
      Batch
      → List (Allocation × Report)
      → Option Batch
      → Membership
      → ℕ
      → Store
      → Result WorkError (Batch × Store)
  store_batch batch matched replacement m t s = do
    saved ← insert_batch batch s
    filled ← insert_allocations batch matched saved
    recorded ←
        batch_history batch m PaymentEvent.batch_recorded (initial_batch_status replacement) []
          filled
    adjusted ← log_adjustments m (filter (is_allocation_of t batch.pk) recorded.payments) recorded
    logged ← log_replaced_batch batch m replacement adjusted
    ok (batch, logged)

  unfoldable pub record_technician_payment_batch :
      List RawAllocation
      → Membership
      → BatchForm
      → Option ℕ
      → Option ℕ
      → Store
      → Result WorkError (Batch × Store)
  record_technician_payment_batch report_allocations m form tenant replaces_batch_id s = do
    let t = tenant_or_own tenant m
    require_payment_manager s m PermissionCode.technician_payments_record t
    rows ← normalize_batch_allocations report_allocations
    method ← or_raise form.payment_method bad_method
    raise_if (is_other method && is_empty (strip form.method_description))
        method_description_required
    matched ← match_reports t s.reports rows
    let technician = first_technician matched
    raise_if (not (all (λ x. x.1.technician_id == technician) matched)) many_technicians
    raise_if (not (works_in t (find (λ x. x.pk == technician) s.memberships))) technician_inactive
    raise_if (not (all (λ x. is_approved x.1.status) matched)) not_approved
    raise_if (any (λ p. p.tenant_id == t && any (λ x. is_active_for x.1.pk p) matched) s.payments)
        already_paid
    replacement ← check_replaced_batch s t technician rows replaces_batch_id
    check_adjustments matched
    raise_if (leb_ℤ (agreed_sum matched) (pos 0) || leb_ℤ (paid_sum matched) (pos 0)) no_total
    store_batch (batch_row s.next_id t technician m form method matched replacement) matched
        replacement m t s

  unfoldable pub confirm_technician_payment_batch :
      ℕ → ℕ → Membership → Option ℕ → Store → Result WorkError (Batch × Store)
  confirm_technician_payment_batch now batch_id m tenant s = do
    let t = tenant_or_own tenant m
    require_payment_technician s m PermissionCode.technician_payments_confirm_own t
    (batch, allocations) ← locked_batch batch_id t (some m.pk) s
    raise_if (not (is_awaiting batch.lifecycle.status)) payment_closed
    moved ← transition_batch (confirm now) batch allocations s
    logged ←
        batch_history (batch_with (confirm now) batch) m PaymentEvent.batch_confirmed
          (some batch.lifecycle.status) [] moved
    ok (batch_with (confirm now) batch, logged)

  unfoldable pub dispute_technician_payment_batch :
      ℕ → ℕ → Membership → Text → Option ℕ → Store → Result WorkError (Batch × Store)
  dispute_technician_payment_batch now batch_id m reason tenant s = do
    let t = tenant_or_own tenant m
    require_payment_technician s m PermissionCode.technician_payments_dispute_own t
    raise_if (ltb (length (strip reason)) 5) short_reason
    (batch, allocations) ← locked_batch batch_id t (some m.pk) s
    raise_if (not (is_awaiting batch.lifecycle.status)) payment_closed
    moved ← transition_batch (dispute now (strip reason)) batch allocations s
    logged ←
        batch_history (batch_with (dispute now (strip reason)) batch) m PaymentEvent.batch_disputed
          (some batch.lifecycle.status) (strip reason) moved
    ok (batch_with (dispute now (strip reason)) batch, logged)

  unfoldable pub void_technician_payment_batch :
      ℕ → ℕ → Membership → Text → Option ℕ → Store → Result WorkError (Batch × Store)
  void_technician_payment_batch now batch_id m reason tenant s = do
    let t = tenant_or_own tenant m
    require_payment_manager s m PermissionCode.technician_payments_void t
    raise_if (ltb (length (strip reason)) 5) short_reason
    (batch, allocations) ← locked_batch batch_id t none s
    raise_if (is_voided batch.lifecycle.status) already_voided
    moved ← transition_batch (void now m.pk (strip reason)) batch allocations s
    logged ←
        batch_history (batch_with (void now m.pk (strip reason)) batch) m PaymentEvent.batch_voided
          (some batch.lifecycle.status) (strip reason) moved
    ok (batch_with (void now m.pk (strip reason)) batch, logged)

  unfoldable pub replace_technician_payment_batch :
      ℕ → List RawAllocation → Membership → BatchForm → Store → Result WorkError (Batch × Store)
  unfolding record_technician_payment_batch
  replace_technician_payment_batch voided_batch_id report_allocations m form s = do
    old ←
        or_raise (find (λ b. b.pk == voided_batch_id && b.tenant_id == m.tenant_id) s.batches)
          not_available
    record_technician_payment_batch report_allocations m form none (some old.pk) s
