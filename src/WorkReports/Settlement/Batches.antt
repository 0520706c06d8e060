-- ===== src/WorkReports/Settlement/Batches.antt =====
-- The services for payment batches and the settled table: work_reports/services.py.
use internet_ms.Base.{
  ℕ, ◌≡◌, Bool, not, ◌&&◌, ◌||◌, List, [], Option, none, some, find, any, all, All-both, Distinct,
  ◌==◌, ltb, length,
}
use internet_ms.Base.Int.{pos, leb_ℤ}
use internet_ms.Base.Text.{Text, strip, is_empty}
use internet_ms.Base.Result.{ok, >>=-eq-ok, raise_if, or_raise}
use internet_ms.Users.Models.{Membership}
use internet_ms.WorkReports.PaymentRows.{
  Payment, Batch, PaymentEvent, is_awaiting, is_voided, is_other,
}
use internet_ms.WorkReports.Models.{Store, is_approved}
use internet_ms.WorkReports.Reports.{tenant_or_own}
use internet_ms.WorkReports.PaymentChecks.{
  require_payment_manager, require_payment_technician, is_active_for,
}
use internet_ms.WorkReports.Payments.{confirm, dispute, void, works_in}
use internet_ms.WorkReports.Batches.{
  RawAllocation, BatchForm, normalize_batch_allocations, match_reports, first_technician,
  agreed_sum, paid_sum, check_adjustments, check_replaced_batch,
}
use internet_ms.WorkReports.BatchServices.{
  locked_batch, record_technician_payment_batch, confirm_technician_payment_batch,
  dispute_technician_payment_batch, void_technician_payment_batch, replace_technician_payment_batch,
}
use internet_ms.WorkReports.Settlement.{IsSettled}
use internet_ms.WorkReports.Settlement.Keeping.{Keeps}
use internet_ms.WorkReports.Settlement.BatchParts.{
  all-All, matched_found, negated_check, move_and_log-Keeps, store_batch-Keeps,
}

module _ (valid_fields : Payment → Bool) (valid_batch : Batch → Bool) where
  pub confirm_batch-Keeps :
      (now batch_id : ℕ) (m : Membership) (tenant : Option ℕ) (s : Store) (b : Batch) (s' : Store)
      → confirm_technician_payment_batch valid_fields valid_batch now batch_id m tenant s
        ≡ ok (b, s')
      → IsSettled s
      → Keeps s s'
  unfolding confirm_technician_payment_batch
  confirm_batch-Keeps now batch_id m tenant s b s' h settled =
      let t = tenant_or_own tenant m in
      let (_, _, h1) = >>=-eq-ok (require_payment_technician s m _ t) _ _ h in
      let (x, locked, h2) = >>=-eq-ok (locked_batch batch_id t (some m.pk) s) _ _ h1 in
      let (_, _, h3) = >>=-eq-ok (raise_if (not (is_awaiting x.0.lifecycle.status)) _) _ _ h2 in
      move_and_log-Keeps valid_fields valid_batch (confirm now) PaymentEvent.batch_confirmed [] m
        x.0 batch_id t (some m.pk) x.1 s b s' h3 locked settled

  pub dispute_batch-Keeps :
      (now batch_id : ℕ) (m : Membership) (reason : Text) (tenant : Option ℕ) (s : Store)
      (b : Batch) (s' : Store)
      → dispute_technician_payment_batch valid_fields valid_batch now batch_id m reason tenant s
        ≡ ok (b, s')
      → IsSettled s
      → Keeps s s'
  unfolding dispute_technician_payment_batch
  dispute_batch-Keeps now batch_id m reason tenant s b s' h settled =
      let t = tenant_or_own tenant m in
      let (_, _, h0) = >>=-eq-ok (require_payment_technician s m _ t) _ _ h in
      let (_, _, h1) = >>=-eq-ok (raise_if (ltb (length (strip reason)) 5) _) _ _ h0 in
      let (x, locked, h2) = >>=-eq-ok (locked_batch batch_id t (some m.pk) s) _ _ h1 in
      let (_, _, h3) = >>=-eq-ok (raise_if (not (is_awaiting x.0.lifecycle.status)) _) _ _ h2 in
      move_and_log-Keeps valid_fields valid_batch (dispute now (strip reason))
        PaymentEvent.batch_disputed (strip reason) m x.0 batch_id t (some m.pk) x.1 s b s' h3 locked
        settled

  pub void_batch-Keeps :
      (now batch_id : ℕ) (m : Membership) (reason : Text) (tenant : Option ℕ) (s : Store)
      (b : Batch) (s' : Store)
      → void_technician_payment_batch valid_fields valid_batch now batch_id m reason tenant s
        ≡ ok (b, s')
      → IsSettled s
      → Keeps s s'
  unfolding void_technician_payment_batch
  void_batch-Keeps now batch_id m reason tenant s b s' h settled =
      let t = tenant_or_own tenant m in
      let (_, _, h0) = >>=-eq-ok (require_payment_manager s m _ t) _ _ h in
      let (_, _, h1) = >>=-eq-ok (raise_if (ltb (length (strip reason)) 5) _) _ _ h0 in
      let (x, locked, h2) = >>=-eq-ok (locked_batch batch_id t none s) _ _ h1 in
      let (_, _, h3) = >>=-eq-ok (raise_if (is_voided x.0.lifecycle.status) _) _ _ h2 in
      move_and_log-Keeps valid_fields valid_batch (void now m.pk (strip reason))
        PaymentEvent.batch_voided (strip reason) m x.0 batch_id t none x.1 s b s' h3 locked settled

  pub record_batch-Keeps :
      (raws : List RawAllocation) (m : Membership) (form : BatchForm) (tenant replaces : Option ℕ)
      (s : Store) (b : Batch) (s' : Store)
      → record_technician_payment_batch valid_fields valid_batch raws m form tenant replaces s
        ≡ ok (b, s')
      → Distinct (λ r. r.pk) s.reports
      → Keeps s s'
  unfolding record_technician_payment_batch
  record_batch-Keeps raws m form tenant replaces s b s' h distinct =
      let t = tenant_or_own tenant m in
      let (_, _, h1) = >>=-eq-ok (require_payment_manager s m _ t) _ _ h in
      let (rows, _, h2) = >>=-eq-ok (normalize_batch_allocations raws) _ _ h1 in
      let (method, _, h3) = >>=-eq-ok (or_raise form.payment_method _) _ _ h2 in
      let (_, _, h4) =
        >>=-eq-ok (raise_if (is_other method && is_empty (strip form.method_description)) _) _ _
          h3 in
      let (xs, matches, h5) = >>=-eq-ok (match_reports t s.reports rows) _ _ h4 in
      let technician = first_technician xs in
      let (_, _, h6) =
        >>=-eq-ok (raise_if (not (all (λ x. x.1.technician_id == technician) xs)) _) _ _ h5 in
      let (_, _, h7) =
        >>=-eq-ok (raise_if (not (works_in t (find (λ x. x.pk == technician) s.memberships))) _) _ _
          h6 in
      let (_, approved, h8) =
        >>=-eq-ok (raise_if (not (all (λ x. is_approved x.1.status) xs)) _) _ _ h7 in
      let (_, _, h9) =
        >>=-eq-ok
          (raise_if (any (λ p. p.tenant_id == t && any (λ x. is_active_for x.1.pk p) xs) s.payments)
            _)
          _ _ h8 in
      let (replacement, _, h10) =
        >>=-eq-ok (check_replaced_batch s t technician rows replaces) _ _ h9 in
      let (_, _, h11) = >>=-eq-ok (check_adjustments xs) _ _ h10 in
      let (_, _, h12) =
        >>=-eq-ok (raise_if (leb_ℤ (agreed_sum xs) (pos 0) || leb_ℤ (paid_sum xs) (pos 0)) _) _ _
          h11 in
      store_batch-Keeps valid_fields valid_batch _ xs replacement m t s b s' h12 distinct (
        All-both _ _ xs (matched_found t s.reports rows xs matches)
          (all-All (λ x. is_approved x.1.status) xs (negated_check _ _ _ approved)))

  pub replace_batch-Keeps :
      (voided_batch_id : ℕ) (raws : List RawAllocation) (m : Membership) (form : BatchForm)
      (s : Store) (b : Batch) (s' : Store)
      → replace_technician_payment_batch valid_fields valid_batch voided_batch_id raws m form s
        ≡ ok (b, s')
      → Distinct (λ r. r.pk) s.reports
      → Keeps s s'
  unfolding replace_technician_payment_batch
  replace_batch-Keeps voided_batch_id raws m form s b s' h distinct =
      let (old, _, h1) =
        >>=-eq-ok
          (or_raise (find (λ x. x.pk == voided_batch_id && x.tenant_id == m.tenant_id) s.batches) _)
          _ _ h in
      record_batch-Keeps raws m form none (some old.pk) s b s' h1 distinct
