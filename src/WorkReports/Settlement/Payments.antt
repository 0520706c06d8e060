-- ===== src/WorkReports/Settlement/Payments.antt =====
-- The services for single payments and the settled table: work_reports/services.py.
use internet_ms.Base.{
  ℕ, ◌<◌, ◌≡◌, refl, subst, Bool, not, ◌&&◌, [], Option, none, some, find, any, Distinct, find-All,
  arith, ◌==◌, ltb, length,
}
use internet_ms.Base.Text.{Text, strip, is_empty}
use internet_ms.Base.Result.{Result, ok, ◌>>=◌, >>=-eq-ok, raise_if, or_raise, or_raise-eq-ok}
use internet_ms.Users.Models.{Membership}
use internet_ms.WorkReports.PaymentRows.{
  Payment, PaymentEvent, PaymentStatus, Lifecycle, is_awaiting, is_voided,
}
use internet_ms.WorkReports.Models.{Report, Store, WorkError, is_approved, is_some}
use internet_ms.WorkReports.Reports.{tenant_or_own}
use internet_ms.WorkReports.PaymentChecks.{
  require_payment_manager, require_payment_technician, payment_history, is_active_for,
}
use internet_ms.WorkReports.Payments.{
  PaymentForm, awaiting, confirm, dispute, void, with_lifecycle, differs, works_in, key_of,
  initial_status, check_replaced, is_own_payment, insert_payment, save_payment, log_adjusted,
  log_replaced, record_technician_payment, confirm_technician_payment, dispute_technician_payment,
  void_technician_payment, replace_technician_payment,
}
use internet_ms.WorkReports.Settlement.{IsAgreed, IsSettled}
use internet_ms.WorkReports.Settlement.Keeping.{
  Keeps, Keeps-then, payment_history-Keeps, log_replaced-Keeps, log_adjusted-Keeps,
  found_report_terms, insert_payment-Keeps, save_payment-Keeps,
}

module _ (valid_fields : Payment → Bool) where
  abbrev insert_and_log :
      Payment → Membership → Option Payment → Store → Result WorkError (Payment × Store)
  insert_and_log payment m replacement s = do
    saved ← insert_payment valid_fields payment s
    recorded ← payment_history payment m PaymentEvent.recorded (initial_status replacement) [] saved
    adjusted ← log_adjusted payment m payment.adjustment_reason recorded
    logged ← log_replaced payment m replacement adjusted
    ok (payment, logged)

  insert_and_log-Keeps :
      (p : Payment) (m : Membership) (replacement : Option Payment) (s : Store) (r : Payment)
      (s' : Store)
      → insert_and_log p m replacement s ≡ ok (r, s')
      → p.pk ≡ s.next_id
      → IsAgreed s p
      → Keeps s s'
  insert_and_log-Keeps p m replacement s r s' h key agreed =
      let (saved, saves, h1) = >>=-eq-ok (insert_payment valid_fields p s) _ _ h in
      let (recorded, records, h2) =
        >>=-eq-ok (payment_history p m PaymentEvent.recorded (initial_status replacement) [] saved)
          _ _ h1 in
      let (adjusted, adjusts, h3) =
        >>=-eq-ok (log_adjusted p m p.adjustment_reason recorded) _ _ h2 in
      let (logged, logs, h4) = >>=-eq-ok (log_replaced p m replacement adjusted) _ _ h3 in
      let same : logged ≡ s' = cc in
      subst (Keeps s) same (
        Keeps-then s saved logged (insert_payment-Keeps valid_fields p s saved saves key agreed) (
          Keeps-then saved recorded logged
            (payment_history-Keeps p m PaymentEvent.recorded (initial_status replacement) [] saved
              recorded records)
            (Keeps-then recorded adjusted logged
              (log_adjusted-Keeps p m p.adjustment_reason recorded adjusted adjusts)
              (log_replaced-Keeps p m replacement adjusted logged logs))))

  abbrev save_and_log :
      Payment
      → Membership
      → PaymentEvent
      → Option PaymentStatus
      → Text
      → Store
      → Result WorkError (Payment × Store)
  save_and_log payment m event from reason s = do
    saved ← save_payment valid_fields payment s
    logged ← payment_history payment m event from reason saved
    ok (payment, logged)

  save_and_log-Keeps :
      (f : Lifecycle → Lifecycle) (q : Payment → Bool) (old : Payment) (m : Membership)
      (event : PaymentEvent) (from : Option PaymentStatus) (reason : Text) (s : Store) (r : Payment)
      (s' : Store)
      → save_and_log (with_lifecycle f old) m event from reason s ≡ ok (r, s')
      → find q s.payments ≡ some old
      → IsSettled s
      → Keeps s s'
  save_and_log-Keeps f q old m event from reason s r s' h found settled =
      let p = with_lifecycle f old in
      let (saved, saves, h1) = >>=-eq-ok (save_payment valid_fields p s) _ _ h in
      let (logged, logs, h2) = >>=-eq-ok (payment_history p m event from reason saved) _ _ h1 in
      let same : logged ≡ s' = cc in
      subst (Keeps s) same (
        Keeps-then s saved logged
          (save_payment-Keeps valid_fields p s saved saves
            (find-All (λ x. x.pk < s.next_id) q s.payments old settled.below found)
            (find-All (IsAgreed s) q s.payments old settled.agreed found))
          (payment_history-Keeps p m event from reason saved logged logs))

  pub record-Keeps :
      (report_id : ℕ) (m : Membership) (form : PaymentForm) (replaces tenant : Option ℕ) (s : Store)
      (p : Payment) (s' : Store)
      → record_technician_payment valid_fields report_id m form replaces tenant s ≡ ok (p, s')
      → Distinct (λ r. r.pk) s.reports
      → Keeps s s'
  unfolding record_technician_payment
  record-Keeps report_id m form replaces tenant s p s' h distinct =
      let t = tenant_or_own tenant m in
      let q = λ (r : Report). r.pk == report_id && r.tenant_id == t in
      let (_, _, h1) = >>=-eq-ok (require_payment_manager s m _ t) _ _ h in
      let (report, found, h2) = >>=-eq-ok (or_raise (find q s.reports) _) _ _ h1 in
      let (_, state, h3) = >>=-eq-ok (raise_if (not (is_approved report.status)) _) _ _ h2 in
      let (_, _, h4) =
        >>=-eq-ok
          (raise_if (not (works_in t (find (λ x. x.pk == report.technician_id) s.memberships))) _) _
          _ h3 in
      let (_, _, h5) =
        >>=-eq-ok (raise_if (any (λ x. x.tenant_id == t && is_active_for report.pk x) s.payments) _)
          _ _ h4 in
      let (replacement, _, h6) = >>=-eq-ok (check_replaced s report.pk t replaces) _ _ h5 in
      let payment : Payment = record {
        pk = s.next_id;
        tenant_id = t;
        report_id = report.pk;
        agreed_amount_snapshot = report.details.agreed_amount;
        amount_paid = form.amount_paid;
        payment_date = form.payment_date;
        payment_method = form.payment_method;
        reference = strip form.reference;
        manager_note = strip form.manager_note;
        adjustment_reason = strip form.adjustment_reason;
        recorded_by_id = m.pk;
        replaces_id = key_of replacement;
        batch_id = none;
        lifecycle = awaiting;
      } in
      let (_, _, h7) =
        >>=-eq-ok (raise_if (differs payment && is_empty payment.adjustment_reason) _) _ _ h6 in
      let (_, _, h8) =
        >>=-eq-ok (raise_if (differs payment && not form.confirm_adjusted_amount) _) _ _ h7 in
      insert_and_log-Keeps payment m replacement s p s' h8 refl (
        found_report_terms q s report payment distinct (or_raise-eq-ok _ _ _ found)
          (ground (arith, state)) refl refl)

  pub confirm-Keeps :
      (now payment_id : ℕ) (m : Membership) (tenant : Option ℕ) (s : Store) (p : Payment)
      (s' : Store)
      → confirm_technician_payment valid_fields now payment_id m tenant s ≡ ok (p, s')
      → IsSettled s
      → Keeps s s'
  unfolding confirm_technician_payment
  confirm-Keeps now payment_id m tenant s p s' h settled =
      let t = tenant_or_own tenant m in
      let (_, _, h1) = >>=-eq-ok (require_payment_technician s m _ t) _ _ h in
      let (old, found, h2) =
        >>=-eq-ok (or_raise (find (is_own_payment s payment_id m t) s.payments) _) _ _ h1 in
      let (_, _, h3) = >>=-eq-ok (raise_if (is_some old.batch_id) _) _ _ h2 in
      let (_, _, h4) = >>=-eq-ok (raise_if (not (is_awaiting old.lifecycle.status)) _) _ _ h3 in
      save_and_log-Keeps (confirm now) (is_own_payment s payment_id m t) old m
        PaymentEvent.confirmed (some old.lifecycle.status) [] s p s' h4 (or_raise-eq-ok _ _ _ found)
        settled

  pub dispute-Keeps :
      (now payment_id : ℕ) (m : Membership) (reason : Text) (tenant : Option ℕ) (s : Store)
      (p : Payment) (s' : Store)
      → dispute_technician_payment valid_fields now payment_id m reason tenant s ≡ ok (p, s')
      → IsSettled s
      → Keeps s s'
  unfolding dispute_technician_payment
  dispute-Keeps now payment_id m reason tenant s p s' h settled =
      let t = tenant_or_own tenant m in
      let (_, _, h0) = >>=-eq-ok (require_payment_technician s m _ t) _ _ h in
      let (_, _, h1) = >>=-eq-ok (raise_if (ltb (length (strip reason)) 5) _) _ _ h0 in
      let (old, found, h2) =
        >>=-eq-ok (or_raise (find (is_own_payment s payment_id m t) s.payments) _) _ _ h1 in
      let (_, _, h3) = >>=-eq-ok (raise_if (is_some old.batch_id) _) _ _ h2 in
      let (_, _, h4) = >>=-eq-ok (raise_if (not (is_awaiting old.lifecycle.status)) _) _ _ h3 in
      save_and_log-Keeps (dispute now (strip reason)) (is_own_payment s payment_id m t) old m
        PaymentEvent.disputed (some old.lifecycle.status) (strip reason) s p s' h4
        (or_raise-eq-ok _ _ _ found) settled

  pub void-Keeps :
      (now payment_id : ℕ) (m : Membership) (reason : Text) (tenant : Option ℕ) (s : Store)
      (p : Payment) (s' : Store)
      → void_technician_payment valid_fields now payment_id m reason tenant s ≡ ok (p, s')
      → IsSettled s
      → Keeps s s'
  unfolding void_technician_payment
  void-Keeps now payment_id m reason tenant s p s' h settled =
      let t = tenant_or_own tenant m in
      let q = λ (x : Payment). x.pk == payment_id && x.tenant_id == t in
      let (_, _, h0) = >>=-eq-ok (require_payment_manager s m _ t) _ _ h in
      let (_, _, h1) = >>=-eq-ok (raise_if (ltb (length (strip reason)) 5) _) _ _ h0 in
      let (old, found, h2) = >>=-eq-ok (or_raise (find q s.payments) _) _ _ h1 in
      let (_, _, h3) = >>=-eq-ok (raise_if (is_some old.batch_id) _) _ _ h2 in
      let (_, _, h4) = >>=-eq-ok (raise_if (is_voided old.lifecycle.status) _) _ _ h3 in
      save_and_log-Keeps (void now m.pk (strip reason)) q old m PaymentEvent.voided
        (some old.lifecycle.status) (strip reason) s p s' h4 (or_raise-eq-ok _ _ _ found) settled

  pub replace-Keeps :
      (voided_payment_id : ℕ) (m : Membership) (form : PaymentForm) (s : Store) (p : Payment)
      (s' : Store)
      → replace_technician_payment valid_fields voided_payment_id m form s ≡ ok (p, s')
      → Distinct (λ r. r.pk) s.reports
      → Keeps s s'
  unfolding replace_technician_payment
  replace-Keeps voided_payment_id m form s p s' h distinct =
      let (old, _, h1) =
        >>=-eq-ok
          (or_raise (find (λ x. x.pk == voided_payment_id && x.tenant_id == m.tenant_id) s.payments)
            _)
          _ _ h in
      record-Keeps old.report_id m form (some voided_payment_id) none s p s' h1 distinct
