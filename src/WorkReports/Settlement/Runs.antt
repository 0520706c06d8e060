-- ===== src/WorkReports/Settlement/Runs.antt =====
-- Runs of report and payment services: work_reports/services.py.
use internet_ms.Base.{ℕ, ◌≡◌, Bool, ◌&&◌, Option, List, All-map, arith}
use internet_ms.Base.Text.{Text}
use internet_ms.Base.Result.{ok}
use internet_ms.Users.Models.{Membership}
use internet_ms.WorkReports.PaymentRows.{Payment, Batch}
use internet_ms.WorkReports.Models.{
  Report, Store, is_approved, is_submitted, is_rejected, same_status,
}
use internet_ms.WorkReports.Reports.{is_editable}
use internet_ms.WorkReports.Reports.Validity.{IsValid}
use internet_ms.WorkReports.Reports.Services.{
  submit_effect, approve_effect, reject_effect, update_effect, correct_amount, create_effect,
}
use internet_ms.WorkReports.Reports.Lifecycle.{
  Step, creates, updates, submits, approves, rejects, corrects, step-IsValid,
}
use internet_ms.WorkReports.Payments.{
  PaymentForm, record_technician_payment, confirm_technician_payment, dispute_technician_payment,
  void_technician_payment, replace_technician_payment,
}
use internet_ms.WorkReports.Batches.{RawAllocation, BatchForm}
use internet_ms.WorkReports.BatchServices.{
  record_technician_payment_batch, confirm_technician_payment_batch,
  dispute_technician_payment_batch, void_technician_payment_batch, replace_technician_payment_batch,
}
use internet_ms.WorkReports.Settlement.{IsSettled}
use internet_ms.WorkReports.Settlement.Keeping.{Keeps}
use internet_ms.WorkReports.Settlement.Payments.{
  record-Keeps, confirm-Keeps, dispute-Keeps, void-Keeps, replace-Keeps,
}
use internet_ms.WorkReports.Settlement.Batches.{
  record_batch-Keeps, confirm_batch-Keeps, dispute_batch-Keeps, void_batch-Keeps,
  replace_batch-Keeps,
}
use internet_ms.WorkReports.Settlement.Steps.{
  moved_IsSettled, created-IsSettled, corrected_IsSettled,
}

module _ (valid_fields : Payment → Bool) (valid_batch : Batch → Bool) where
  -- One successful call of a payment service.
  pub data PaymentStep : Store → Store → Type 0 where
    records :
        (report_id : ℕ) (m : Membership) (form : PaymentForm) (replaces tenant : Option ℕ)
        (s : Store) (p : Payment) (s' : Store)
        → record_technician_payment valid_fields report_id m form replaces tenant s ≡ ok (p, s')
        → PaymentStep s s'
    confirms :
        (now payment_id : ℕ) (m : Membership) (tenant : Option ℕ) (s : Store) (p : Payment)
        (s' : Store)
        → confirm_technician_payment valid_fields now payment_id m tenant s ≡ ok (p, s')
        → PaymentStep s s'
    disputes :
        (now payment_id : ℕ) (m : Membership) (reason : Text) (tenant : Option ℕ) (s : Store)
        (p : Payment) (s' : Store)
        → dispute_technician_payment valid_fields now payment_id m reason tenant s ≡ ok (p, s')
        → PaymentStep s s'
    voids :
        (now payment_id : ℕ) (m : Membership) (reason : Text) (tenant : Option ℕ) (s : Store)
        (p : Payment) (s' : Store)
        → void_technician_payment valid_fields now payment_id m reason tenant s ≡ ok (p, s')
        → PaymentStep s s'
    replaces :
        (voided_payment_id : ℕ) (m : Membership) (form : PaymentForm) (s : Store) (p : Payment)
        (s' : Store)
        → replace_technician_payment valid_fields voided_payment_id m form s ≡ ok (p, s')
        → PaymentStep s s'
    records_batch :
        (raws : List RawAllocation) (m : Membership) (form : BatchForm) (tenant old : Option ℕ)
        (s : Store) (b : Batch) (s' : Store)
        → record_technician_payment_batch valid_fields valid_batch raws m form tenant old s
          ≡ ok (b, s')
        → PaymentStep s s'
    confirms_batch :
        (now batch_id : ℕ) (m : Membership) (tenant : Option ℕ) (s : Store) (b : Batch) (s' : Store)
        → confirm_technician_payment_batch valid_fields valid_batch now batch_id m tenant s
          ≡ ok (b, s')
        → PaymentStep s s'
    disputes_batch :
        (now batch_id : ℕ) (m : Membership) (reason : Text) (tenant : Option ℕ) (s : Store)
        (b : Batch) (s' : Store)
        → dispute_technician_payment_batch valid_fields valid_batch now batch_id m reason tenant s
          ≡ ok (b, s')
        → PaymentStep s s'
    voids_batch :
        (now batch_id : ℕ) (m : Membership) (reason : Text) (tenant : Option ℕ) (s : Store)
        (b : Batch) (s' : Store)
        → void_technician_payment_batch valid_fields valid_batch now batch_id m reason tenant s
          ≡ ok (b, s')
        → PaymentStep s s'
    replaces_batch :
        (voided_batch_id : ℕ) (raws : List RawAllocation) (m : Membership) (form : BatchForm)
        (s : Store) (b : Batch) (s' : Store)
        → replace_technician_payment_batch valid_fields valid_batch voided_batch_id raws m form s
          ≡ ok (b, s')
        → PaymentStep s s'

  payment_call-Keeps : (s s' : Store) → PaymentStep s s' → IsValid s → IsSettled s → Keeps s s'
  payment_call-Keeps s s' (records k m f old t _ p _ h) valid settled =
      record-Keeps valid_fields k m f old t s p s' h valid.distinct
  payment_call-Keeps s s' (confirms now k m t _ p _ h) valid settled =
      confirm-Keeps valid_fields now k m t s p s' h settled
  payment_call-Keeps s s' (disputes now k m why t _ p _ h) valid settled =
      dispute-Keeps valid_fields now k m why t s p s' h settled
  payment_call-Keeps s s' (voids now k m why t _ p _ h) valid settled =
      void-Keeps valid_fields now k m why t s p s' h settled
  payment_call-Keeps s s' (replaces k m f _ p _ h) valid settled =
      replace-Keeps valid_fields k m f s p s' h valid.distinct
  payment_call-Keeps s s' (records_batch raws m f t old _ b _ h) valid settled =
      record_batch-Keeps valid_fields valid_batch raws m f t old s b s' h valid.distinct
  payment_call-Keeps s s' (confirms_batch now k m t _ b _ h) valid settled =
      confirm_batch-Keeps valid_fields valid_batch now k m t s b s' h settled
  payment_call-Keeps s s' (disputes_batch now k m why t _ b _ h) valid settled =
      dispute_batch-Keeps valid_fields valid_batch now k m why t s b s' h settled
  payment_call-Keeps s s' (voids_batch now k m why t _ b _ h) valid settled =
      void_batch-Keeps valid_fields valid_batch now k m why t s b s' h settled
  payment_call-Keeps s s' (replaces_batch k raws m f _ b _ h) valid settled =
      replace_batch-Keeps valid_fields valid_batch k raws m f s b s' h valid.distinct

kept-IsValid : (s s' : Store) → Keeps s s' → IsValid s → IsValid s'
kept-IsValid s s' kept valid =
    let next = kept.next in
    record {
      distinct = rw kept.reports valid.distinct;
      below = rw kept.reports (All-map _ _ s.reports (λ r b. omega (arith, b, next)) valid.below);
      reviewed = rw kept.reports valid.reviewed;
    }

module _ (valid_reports : Report → Bool) where
  step-IsSettled : (s s' : Store) → Step valid_reports s s' → IsValid s → IsSettled s → IsSettled s'
  step-IsSettled s s' (creates today m c d _ r _ h) valid settled =
      created-IsSettled today r s s' (create_effect valid_reports today m c d s r s' h) settled
  step-IsSettled s s' (updates today k m c d _ r _ h) valid settled =
      moved_IsSettled today (λ from to. is_editable from && same_status from to) r s s'
        (λ a b e. ground arith) (update_effect valid_reports today k m c d s r s' h) valid settled
  step-IsSettled s s' (submits now today k m _ r _ h) valid settled =
      moved_IsSettled today (λ from to. is_editable from && is_submitted to) r s s'
        (λ a b e. ground arith) (submit_effect valid_reports now today k m s r s' h) valid settled
  step-IsSettled s s' (approves now today k m t _ r _ h) valid settled =
      moved_IsSettled today (λ from to. is_submitted from && is_approved to) r s s'
        (λ a b e. ground arith) (approve_effect valid_reports now today k m t s r s' h) valid
        settled
  step-IsSettled s s' (rejects today k m why t _ r _ h) valid settled =
      moved_IsSettled today (λ from to. is_submitted from && is_rejected to) r s s'
        (λ a b e. ground arith) (reject_effect valid_reports today k m why t s r s' h) valid settled
  step-IsSettled s s' (corrects today k m c why d t _ r _ h) valid settled =
      let (q, old, found, approved, moved, unpaid, _) =
        correct_amount valid_reports today k m c why d t s r s' h in
      corrected_IsSettled today q old r s s' valid found moved approved unpaid settled

module _ (valid_reports : Report → Bool) (valid_fields : Payment → Bool)
    (valid_batch : Batch → Bool) where
  -- Any number of successful calls of report and payment services, in any order.
  pub data Runs : Store → Store → Type 0 where
    ends : {s : Store} → Runs s s
    reports : {s t u : Store} → Step valid_reports s t → Runs t u → Runs s u
    pays : {s t u : Store} → PaymentStep valid_fields valid_batch s t → Runs t u → Runs s u

  -- However report and payment calls follow each other, from a valid and settled store they lead to a valid and
  -- settled one: payment keys are distinct and below the next, no report has two payments that are not voided,
  -- and the report of each payment is there and approved, for the amount that the payment was agreed at.
  pub runs-IsSettled :
      (s s' : Store) → Runs s s' → IsValid s → IsSettled s → IsValid s' × IsSettled s'
  runs-IsSettled s s' ends valid settled = (valid, settled)
  runs-IsSettled s s' (reports {t = t} step rest) valid settled =
      runs-IsSettled t s' rest (step-IsValid valid_reports s t step valid)
        (step-IsSettled valid_reports s t step valid settled)
  runs-IsSettled s s' (pays {t = t} step rest) valid settled =
      let kept = payment_call-Keeps valid_fields valid_batch s t step valid settled in
      runs-IsSettled t s' rest (kept-IsValid s t kept valid) (kept.settled settled)
