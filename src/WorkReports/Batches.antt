-- ===== src/WorkReports/Batches.antt =====
-- work_reports/services.py: payment batches, which pay several reports of one technician.
use internet_ms.Base.{
  ℕ, Bool, true, false, not, ◌&&◌, ◌||◌, Option, none, some, List, [], ◌∷◌, ◌++◌, ◌==◌, ltb, leb,
  length, any, all, filter, find, if◌then◌else◌,
}
use internet_ms.Base.Int.{ℤ, pos, ◌+ℤ◌, leb_ℤ, eq_ℤ}
use internet_ms.Base.Text.{Text, strip, is_empty, text_eq}
use internet_ms.Base.Result.{Result, ok, ◌>>=◌, ◌>>◌, raise_if, or_raise}
use internet_ms.Users.Models.{Membership}
use internet_ms.WorkReports.PaymentRows.{
  Payment, Batch, PaymentStatus, PaymentMethod, PaymentEvent, is_voided, is_other,
}
use internet_ms.WorkReports.Models.{
  Report, Store, WorkError, same_number, technician_fits, if_some, not_available, bad_replacement,
  replaced_twice, adjustment_reason_required, confirmation_required, no_allocation,
  too_many_allocations, invalid_allocation, conflicting_allocation, other_reports,
}
use internet_ms.WorkReports.PaymentChecks.{payment_history, member_fits, lifecycle_fits}
use internet_ms.WorkReports.Payments.{awaiting, differs}

-- A row of the form; a part that `int` or `Decimal` refuses is `none`, and so is an infinite amount.
pub record RawAllocation : Type 0 where
  pub report_id : Option ℕ
  pub amount_paid : Option ℤ
  pub adjustment_reason : Text
  pub confirm_adjusted_amount : Bool

pub record Allocation : Type 0 where
  pub report_id : ℕ
  pub amount_paid : ℤ
  pub adjustment_reason : Text
  pub confirm_adjusted_amount : Bool

abbrev pub same_flag : Bool → Bool → Bool
same_flag true b = b
same_flag false b = not b

abbrev pub same_allocation : Allocation → Allocation → Bool
same_allocation a b =
    a.report_id == b.report_id
    && eq_ℤ a.amount_paid b.amount_paid
    && text_eq a.adjustment_reason b.adjustment_reason
    && same_flag a.confirm_adjusted_amount b.confirm_adjusted_amount

abbrev pub is_for : ℕ → Allocation → Bool
is_for report a = a.report_id == report

-- The loop, with the rows so far; each report has one.
unfoldable pub collect : List Allocation → List RawAllocation → Result WorkError (List Allocation)
collect seen [] = ok seen
collect seen (raw ∷ raws) = do
  report_id ← or_raise raw.report_id invalid_allocation
  amount_paid ← or_raise raw.amount_paid invalid_allocation
  raise_if (report_id == 0 || leb_ℤ amount_paid (pos 0)) invalid_allocation
  let row : Allocation = record {
    report_id = report_id;
    amount_paid = amount_paid;
    adjustment_reason = strip raw.adjustment_reason;
    confirm_adjusted_amount = raw.confirm_adjusted_amount;
  }
  raise_if (any (λ a. is_for report_id a && not (same_allocation a row)) seen)
      conflicting_allocation
  collect (if any (is_for report_id) seen then seen else seen ++ row ∷ []) raws

abbrev pub insert_allocation : Allocation → List Allocation → List Allocation
insert_allocation a [] = a ∷ []
insert_allocation a (x ∷ xs) =
    let rest = insert_allocation a xs in
    if leb a.report_id x.report_id then a ∷ x ∷ xs else x ∷ rest

-- `[normalized[key] for key in sorted(normalized)]`
unfoldable pub sort_allocations : List Allocation → List Allocation
sort_allocations [] = []
sort_allocations (a ∷ as') = insert_allocation a (sort_allocations as')

unfoldable pub normalize_batch_allocations : List RawAllocation → Result WorkError (List Allocation)
unfolding collect sort_allocations
normalize_batch_allocations report_allocations = do
  raise_if (is_empty report_allocations) no_allocation
  raise_if (ltb 100 (length report_allocations)) too_many_allocations
  normalized ← collect [] report_allocations
  ok (sort_allocations normalized)

abbrev pub names : List Allocation → ℕ → Bool
names rows report = any (is_for report) rows

-- The rows with their reports: `report_map[row["report_id"]]`.
unfoldable pub match_reports :
    ℕ → List Report → List Allocation → Result WorkError (List (Allocation × Report))
match_reports tenant reports [] = ok []
match_reports tenant reports (row ∷ rows) = do
  report ←
      or_raise (find (λ r. r.pk == row.report_id && r.tenant_id == tenant) reports) not_available
  rest ← match_reports tenant reports rows
  ok ((row, report) ∷ rest)

abbrev pub first_technician : List (Allocation × Report) → ℕ
first_technician [] = 0
first_technician (x ∷ _) = x.1.technician_id

abbrev pub differs_from : Allocation × Report → Bool
differs_from x = not (eq_ℤ x.0.amount_paid x.1.details.agreed_amount)

-- The loop over the rows: what each must have, and the totals.
unfoldable pub agreed_sum : List (Allocation × Report) → ℤ
agreed_sum [] = pos 0
agreed_sum (x ∷ xs) = x.1.details.agreed_amount +ℤ agreed_sum xs

unfoldable pub paid_sum : List (Allocation × Report) → ℤ
paid_sum [] = pos 0
paid_sum (x ∷ xs) = x.0.amount_paid +ℤ paid_sum xs

unfoldable pub check_adjustments : List (Allocation × Report) → Result WorkError (Unit {0})
check_adjustments [] = ok tt
check_adjustments (x ∷ xs) = do
  raise_if (differs_from x && is_empty x.0.adjustment_reason) adjustment_reason_required
  raise_if (differs_from x && not x.0.confirm_adjusted_amount) confirmation_required
  check_adjustments xs

abbrev pub is_allocation_of : ℕ → ℕ → Payment → Bool
is_allocation_of tenant batch p = p.tenant_id == tenant && same_number p.batch_id (some batch)

-- The voided batch that a new one replaces covers the same reports.
abbrev pub check_replaced_batch :
    Store → ℕ → ℕ → List Allocation → Option ℕ → Result WorkError (Option Batch)
check_replaced_batch s tenant technician rows none = ok none
check_replaced_batch s tenant technician rows (some key) = do
  old ←
      or_raise
        (find (λ b. b.pk == key && b.tenant_id == tenant && b.technician_id == technician)
          s.batches)
        bad_replacement
  raise_if (not (is_voided old.lifecycle.status)) bad_replacement
  raise_if (any (λ b. same_number b.replaces_id (some old.pk)) s.batches) replaced_twice
  let originals = filter (λ p. same_number p.batch_id (some old.pk)) s.payments
  raise_if
      (not (all (λ p. names rows p.report_id) originals)
        || not (all (λ a. any (λ p. p.report_id == a.report_id) originals) rows))
      other_reports
  ok (some old)

-- The arguments of `record_technician_payment_batch`; the method is `none` for no valid choice.
pub record BatchForm : Type 0 where
  pub payment_date : ℕ
  pub payment_method : Option PaymentMethod
  pub method_description : Text
  pub reference : Text
  pub manager_note : Text

abbrev pub key_of_batch : Option Batch → Option ℕ
key_of_batch none = none
key_of_batch (some b) = some b.pk

abbrev pub initial_batch_status : Option Batch → Option PaymentStatus
initial_batch_status none = none
initial_batch_status (some _) = some PaymentStatus.voided

-- `TechnicianPaymentBatch.clean`: no error is recorded.
abbrev pub replaced_batch_fits : Batch → Option Batch → Bool
replaced_batch_fits b none = false
replaced_batch_fits b (some old) =
    not (old.pk == b.pk)
    && is_voided old.lifecycle.status
    && old.tenant_id == b.tenant_id
    && old.technician_id == b.technician_id

unfoldable pub clean_batch : Store → Batch → Bool
clean_batch s b =
    not (leb_ℤ b.agreed_amount_total_snapshot (pos 0))
    && not (leb_ℤ b.amount_paid_total (pos 0))
    && technician_fits b.tenant_id (find (λ m. m.pk == b.technician_id) s.memberships)
    && member_fits s b.tenant_id b.recorded_by_id
    && not (is_other b.payment_method && is_empty (strip b.method_description))
    && lifecycle_fits s b.tenant_id b.lifecycle
    && if_some b.replaces_id (λ key. replaced_batch_fits b (find (λ x. x.pk == key) s.batches))

-- `_batch_history`: an entry for each allocation.
unfoldable pub log_each :
    Membership
    → PaymentEvent
    → Option PaymentStatus
    → Text
    → List Payment
    → Store
    → Result WorkError Store
unfolding payment_history
log_each m event from_status reason [] s = ok s
log_each m event from_status reason (p ∷ ps) s = do
  logged ← payment_history p m event from_status reason s
  log_each m event from_status reason ps logged

unfoldable pub batch_history :
    Batch → Membership → PaymentEvent → Option PaymentStatus → Text → Store → Result WorkError Store
unfolding log_each
batch_history b m event from_status reason s =
    log_each m event from_status reason
      (filter (λ p. same_number p.batch_id (some b.pk)) s.payments) s

-- The entries for adjusted amounts.
unfoldable pub log_adjustments : Membership → List Payment → Store → Result WorkError Store
unfolding payment_history
log_adjustments m [] s = ok s
log_adjustments m (p ∷ ps) s = do
  logged ←
      (if differs p
        then payment_history p m PaymentEvent.adjustment_approved (some p.lifecycle.status)
            p.adjustment_reason s
        else ok s)
  log_adjustments m ps logged

abbrev pub log_replaced_batch : Batch → Membership → Option Batch → Store → Result WorkError Store
log_replaced_batch b m none s = ok s
log_replaced_batch b m (some old) s =
    batch_history b m PaymentEvent.batch_replaced (some PaymentStatus.voided)
      old.lifecycle.void_reason s

abbrev pub allocation_row : ℕ → Batch → Allocation × Report → Payment
allocation_row pk b x = record {
  pk = pk;
  tenant_id = b.tenant_id;
  report_id = x.1.pk;
  agreed_amount_snapshot = x.1.details.agreed_amount;
  amount_paid = x.0.amount_paid;
  payment_date = b.payment_date;
  payment_method = b.payment_method;
  reference = b.reference;
  manager_note = b.manager_note;
  adjustment_reason = x.0.adjustment_reason;
  recorded_by_id = b.recorded_by_id;
  replaces_id = none;
  batch_id = some b.pk;
  lifecycle = record awaiting { status = b.lifecycle.status };
}
