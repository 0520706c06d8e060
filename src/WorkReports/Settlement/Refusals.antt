-- ===== src/WorkReports/Settlement/Refusals.antt =====
-- Recording a payment for a report that has one: work_reports/services.py.
use internet_ms.Base.{
  ℕ, ◌<◌, ◌≡◌, ◌≢◌, Bool, true, false, not, ◌&&◌, List, [], ◌∷◌, Option, none, any, find,
  find-satisfies, All, arith, ◌==◌, ==_iff,
}
use internet_ms.Base.Result.{ok, >>=-eq-ok, raise_if, or_raise, or_raise-eq-ok}
use internet_ms.Base.Text.{strip, is_empty}
use internet_ms.Users.Models.{Membership}
use internet_ms.WorkReports.PaymentRows.{Payment}
use internet_ms.WorkReports.Models.{Report, Store, is_approved}
use internet_ms.WorkReports.Reports.{tenant_or_own}
use internet_ms.WorkReports.PaymentChecks.{require_payment_manager, is_active_for, conflicts}
use internet_ms.WorkReports.Payments.{
  PaymentForm, awaiting, key_of, check_replaced, differs, works_in, insert_payment,
  record_technician_payment,
}
use internet_ms.WorkReports.Settlement.{IsSettled}
use internet_ms.WorkReports.Settlement.Primitives.{insert_payment-ok}

-- A payment under the next key has the active payment of its report as a rival.
rival_there :
    (n k : ℕ) (xs : List Payment)
    → All (λ x. x.pk < n) xs
    → any (is_active_for k) xs ≡ true
    → any (λ x. not (x.pk == n) && is_active_for k x) xs ≡ true
rival_there n k [] below h = cc
rival_there n k (x ∷ xs) below h =
    let small = below.0 in
    let apart : (x.pk == n) ≡ false = ground (arith, small) in
    rw apart (ground (arith, h, rival_there n k xs below.1))

module _ (valid_fields : Payment → Bool) where
  -- In a settled store no payment can be recorded for a report that has one which is not voided, whoever records
  -- it, in whatever tenant, as a replacement or not.
  pub record-refused :
      (report_id : ℕ) (m : Membership) (form : PaymentForm) (replaces tenant : Option ℕ) (s : Store)
      → IsSettled s
      → any (is_active_for report_id) s.payments ≡ true
      → (p : Payment) (s' : Store)
      → record_technician_payment valid_fields report_id m form replaces tenant s ≢ ok (p, s')
  unfolding record_technician_payment
  record-refused report_id m form replaces tenant s settled paid p s' h =
      let t = tenant_or_own tenant m in
      let q = λ (r : Report). r.pk == report_id && r.tenant_id == t in
      let (_, _, h1) = >>=-eq-ok (require_payment_manager s m _ t) _ _ h in
      let (report, found, h2) = >>=-eq-ok (or_raise (find q s.reports) _) _ _ h1 in
      let (_, state, h3) = >>=-eq-ok (raise_if (not (is_approved report.status)) _) _ _ h2 in
      let (_, _, h4) =
        >>=-eq-ok
          (raise_if (not (works_in t (find (λ x. x.pk == report.technician_id) s.memberships))) _) _
          _ h3 in
      let (_, _, h5) =
        >>=-eq-ok (raise_if (any (λ x. x.tenant_id == t && is_active_for report.pk x) s.payments) _)
          _ _ h4 in
      let (replacement, _, h6) = >>=-eq-ok (check_replaced s report.pk t replaces) _ _ h5 in
      let payment : Payment = record {
        pk = s.next_id;
        tenant_id = t;
        report_id = report.pk;
        agreed_amount_snapshot = report.details.agreed_amount;
        amount_paid = form.amount_paid;
        payment_date = form.payment_date;
        payment_method = form.payment_method;
        reference = strip form.reference;
        manager_note = strip form.manager_note;
        adjustment_reason = strip form.adjustment_reason;
        recorded_by_id = m.pk;
        replaces_id = key_of replacement;
        batch_id = none;
        lifecycle = awaiting;
      } in
      let (_, _, h7) =
        >>=-eq-ok (raise_if (differs payment && is_empty payment.adjustment_reason) _) _ _ h6 in
      let (_, _, h8) =
        >>=-eq-ok (raise_if (differs payment && not form.confirm_adjusted_amount) _) _ _ h7 in
      let (saved, saves, h9) = >>=-eq-ok (insert_payment valid_fields payment s) _ _ h8 in
      let key : report.pk ≡ report_id =
        (==_iff report.pk report_id).0
          (ground (arith, find-satisfies q s.reports report (or_raise-eq-ok _ _ _ found))) in
      let free : conflicts s payment ≡ false =
        (insert_payment-ok valid_fields payment s saved saves).1 in
      let rival : conflicts s payment ≡ true =
        rival_there s.next_id report.pk s.payments settled.below (rw key paid) in
      absurd (ground (arith, free, rival))
