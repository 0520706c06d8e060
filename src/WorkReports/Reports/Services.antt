-- ===== src/WorkReports/Reports/Services.antt =====
-- Each lifecycle service as a move of the table of reports: work_reports/services.py.
use internet_ms.Base.{
  ℕ, ◌≡◌, ◌∙◌, refl, sym, ap, String, Bool, true, false, not, ◌&&◌, Option, none, some, List, ◌==◌,
  any, find, arith,
}
use internet_ms.Base.Int.{eq_ℤ}
use internet_ms.Base.Text.{Text, strip, is_empty}
use internet_ms.Base.Result.{ok, >>=-eq-ok, raise_if, raise_if-eq-ok, or_raise, or_raise-eq-ok}
use internet_ms.Users.Models.{Membership, is_technician}
use internet_ms.WorkReports.Models.{
  Report, ReportStatus, Store, is_rejected, is_submitted, is_approved, same_status, amount_fixed,
}
use internet_ms.WorkReports.ServiceDays.{
  validated_service_days, Day, DayRow, is_day_of, service_days_from_legacy,
}
use internet_ms.WorkReports.Reports.{
  Cleaned, is_own_report, manager_report, submit_report, approve_report, reject_report,
  update_own_report, correct_approved_report, create_report, is_editable, tenant_or_own, dated,
  require, validate_optional,
}
use internet_ms.WorkReports.Reports.Moves.{
  KeepsApproval, IsReplaced, HasMoved, HasCreated, logged_effect, rewritten_effect, inserted_effect,
}

-- A report that is not approved has no approval to keep.
open_keeps : (old r : Report) → is_approved old.status ≡ false → KeepsApproval old r
open_keeps old r h = λ approved. absurd (ground (arith, h, approved))

module _ (valid_fields : Report → Bool) where
  pub submit_effect :
      (now today report_id : ℕ) (m : Membership) (s : Store) (r : Report) (s' : Store)
      → submit_report valid_fields now today report_id m s ≡ ok (r, s')
      → HasMoved today (λ from to. is_editable from && is_submitted to) r s s'
  unfolding submit_report HasMoved
  submit_effect now today report_id m s r s' h =
      let (_, _, h1) = >>=-eq-ok (require s m _ _) _ _ h in
      let (old, found, h2) =
        >>=-eq-ok (or_raise (find (is_own_report report_id m) s.reports) _) _ _ h1 in
      let (_, state, h3) = >>=-eq-ok (raise_if (not (is_editable old.status)) _) _ _ h2 in
      let (_, dated, h4) =
        >>=-eq-ok (raise_if (not (any (is_day_of old) s.service_days)) _) _ _ h3 in
      let (same, replaced) = logged_effect valid_fields today false old _ m _ _ _ s r s' refl h4 in
      let status : ReportStatus.submitted ≡ r.status = ap (λ x. x.status) same in
      (
        is_own_report report_id m,
        old,
        or_raise-eq-ok _ _ _ found,
        ground (arith, state, status),
        open_keeps old r (ground (arith, state)),
        replaced,
      )

  abbrev of_tenant : ℕ → Option ℕ → Membership → Report → Bool
  of_tenant report_id tenant m r = r.pk == report_id && r.tenant_id == tenant_or_own tenant m

  manager_report-found :
      (s : Store) (report_id : ℕ) (m : Membership) (permission : String) (tenant : Option ℕ)
      (old : Report)
      → manager_report s report_id m permission tenant ≡ ok old
      → find (of_tenant report_id tenant m) s.reports ≡ some old
  unfolding manager_report
  manager_report-found s report_id m permission tenant old h =
      let (_, _, h1) = >>=-eq-ok (require s m permission (tenant_or_own tenant m)) _ _ h in
      or_raise-eq-ok _ _ _ h1

  pub approve_effect :
      (now today report_id : ℕ) (m : Membership) (tenant : Option ℕ) (s : Store) (r : Report)
      (s' : Store)
      → approve_report valid_fields now today report_id m tenant s ≡ ok (r, s')
      → HasMoved today (λ from to. is_submitted from && is_approved to) r s s'
  unfolding approve_report HasMoved
  approve_effect now today report_id m tenant s r s' h =
      let (old, found, h1) = >>=-eq-ok (manager_report s report_id m _ tenant) _ _ h in
      let (_, state, h2) = >>=-eq-ok (raise_if (not (is_submitted old.status)) _) _ _ h1 in
      let (same, replaced) = logged_effect valid_fields today false old _ m _ _ _ s r s' refl h2 in
      let status : ReportStatus.approved ≡ r.status = ap (λ x. x.status) same in
      (
        of_tenant report_id tenant m,
        old,
        manager_report-found s report_id m _ tenant old found,
        ground (arith, state, status),
        open_keeps old r (ground (arith, state)),
        replaced,
      )

  pub reject_effect :
      (today report_id : ℕ) (m : Membership) (reason : Text) (tenant : Option ℕ) (s : Store)
      (r : Report) (s' : Store)
      → reject_report valid_fields today report_id m reason tenant s ≡ ok (r, s')
      → HasMoved today (λ from to. is_submitted from && is_rejected to) r s s'
  unfolding reject_report HasMoved
  reject_effect today report_id m reason tenant s r s' h =
      let (old, found, h1) = >>=-eq-ok (manager_report s report_id m _ tenant) _ _ h in
      let (_, named, h2) = >>=-eq-ok (raise_if (is_empty (strip reason)) _) _ _ h1 in
      let (_, state, h3) = >>=-eq-ok (raise_if (not (is_submitted old.status)) _) _ _ h2 in
      let (same, replaced) = logged_effect valid_fields today false old _ m _ _ _ s r s' refl h3 in
      let status : ReportStatus.rejected ≡ r.status = ap (λ x. x.status) same in
      (
        of_tenant report_id tenant m,
        old,
        manager_report-found s report_id m _ tenant old found,
        ground (arith, state, status),
        open_keeps old r (ground (arith, state)),
        replaced,
      )

  dated_keeps :
      (rows : Option (List Day)) (r : Report)
      → ((dated rows r).pk ≡ r.pk)
        × ((dated rows r).status ≡ r.status)
        × ((dated rows r).details ≡ r.details)
        × ((dated rows r).approved_by_id ≡ r.approved_by_id)
        × ((dated rows r).approved_at ≡ r.approved_at)
  dated_keeps none r = (refl, refl, refl, refl, refl)
  dated_keeps (some rows) r = (refl, refl, refl, refl, refl)

  pub update_effect :
      (today report_id : ℕ) (m : Membership) (cleaned : Cleaned) (days : Option (List DayRow))
      (s : Store) (r : Report) (s' : Store)
      → update_own_report valid_fields today report_id m cleaned days s ≡ ok (r, s')
      → HasMoved today (λ from to. is_editable from && same_status from to) r s s'
  unfolding update_own_report HasMoved
  update_effect today report_id m cleaned days s r s' h =
      let (_, _, h1) = >>=-eq-ok (require s m _ _) _ _ h in
      let (old, found, h2) =
        >>=-eq-ok (or_raise (find (is_own_report report_id m) s.reports) _) _ _ h1 in
      let (_, state, h3) = >>=-eq-ok (raise_if (not (is_editable old.status)) _) _ _ h2 in
      let (rows, _, h4) =
        >>=-eq-ok (validate_optional today (service_days_from_legacy cleaned.service_date days)) _ _
          h3 in
      let kept = dated_keeps rows (record old { details = cleaned.details }) in
      let (same, replaced) =
        rewritten_effect valid_fields today false old _ rows m _ _ _ s r s' kept.0 h4 in
      let status : old.status ≡ r.status = sym kept.1 ∙ ap (λ x. x.status) same in
      (
        is_own_report report_id m,
        old,
        or_raise-eq-ok _ _ _ found,
        ground (arith, state, status),
        open_keeps old r (ground (arith, state)),
        replaced,
      )

  -- A correction, which leaves the approval, and the agreed amount of a report that has a payment.
  pub correct_amount :
      (today report_id : ℕ) (m : Membership) (cleaned : Cleaned) (reason : Text)
      (days : Option (List DayRow)) (tenant : Option ℕ) (s : Store) (r : Report) (s' : Store)
      → correct_approved_report valid_fields today report_id m cleaned reason days tenant s
        ≡ ok (r, s')
      → (q : Report → Bool) × (old : Report) × (find q s.reports ≡ some old)
        × ((is_approved old.status && is_approved r.status) ≡ true)
        × IsReplaced today old r s s'
        × ((not (eq_ℤ r.details.agreed_amount old.details.agreed_amount)
              && any (λ p. p.report_id == old.pk) s.payments)
            ≡ false)
        × KeepsApproval old r
  unfolding correct_approved_report
  correct_amount today report_id m cleaned reason days tenant s r s' h =
      let (old, found, h1) = >>=-eq-ok (manager_report s report_id m _ tenant) _ _ h in
      let (_, named, h2) = >>=-eq-ok (raise_if (is_empty (strip reason)) _) _ _ h1 in
      let (_, state, h3) = >>=-eq-ok (raise_if (not (is_approved old.status)) _) _ _ h2 in
      let (rows, _, h4) =
        >>=-eq-ok (validate_optional today (service_days_from_legacy cleaned.service_date days)) _ _
          h3 in
      let (_, unpaid, h5) =
        >>=-eq-ok
          (raise_if
            (not (eq_ℤ cleaned.details.agreed_amount old.details.agreed_amount)
              && any (λ p. p.report_id == old.pk) s.payments)
            amount_fixed)
          _ _ h4 in
      let kept = dated_keeps rows (record old { details = cleaned.details }) in
      let (same, replaced) =
        rewritten_effect valid_fields today true old _ rows m _ _ _ s r s' kept.0 h5 in
      let status : old.status ≡ r.status = sym kept.1 ∙ ap (λ x. x.status) same in
      (
        of_tenant report_id tenant m,
        old,
        manager_report-found s report_id m _ tenant old found,
        ground (arith, state, status),
        replaced,
        ap
              (λ d.
                not (eq_ℤ d.agreed_amount old.details.agreed_amount)
                && any (λ p. p.report_id == old.pk) s.payments)
              (ap (λ x. x.details) (sym same) ∙ kept.2)
            ∙ raise_if-eq-ok _ _ unpaid,
        λ _. (
          ap (λ x. x.approved_by_id) (sym same) ∙ kept.3,
          ap (λ x. x.approved_at) (sym same) ∙ kept.4,
        ),
      )

  pub correct_effect :
      (today report_id : ℕ) (m : Membership) (cleaned : Cleaned) (reason : Text)
      (days : Option (List DayRow)) (tenant : Option ℕ) (s : Store) (r : Report) (s' : Store)
      → correct_approved_report valid_fields today report_id m cleaned reason days tenant s
        ≡ ok (r, s')
      → HasMoved today (λ from to. is_approved from && is_approved to) r s s'
  unfolding HasMoved
  correct_effect today report_id m cleaned reason days tenant s r s' h =
      let (q, old, found, state, replaced, _, kept) =
        correct_amount today report_id m cleaned reason days tenant s r s' h in
      (q, old, found, state, kept, replaced)

  pub create_effect :
      (today : ℕ) (m : Membership) (cleaned : Cleaned) (days : Option (List DayRow)) (s : Store)
      (r : Report) (s' : Store)
      → create_report valid_fields today m cleaned days s ≡ ok (r, s')
      → HasCreated today r s s'
  unfolding create_report
  create_effect today m cleaned days s r s' h =
      let (_, _, h1) = >>=-eq-ok (require s m _ _) _ _ h in
      let (_, _, h2) = >>=-eq-ok (raise_if (not (is_technician m.base_role)) _) _ _ h1 in
      let (given, _, h3) =
        >>=-eq-ok (or_raise (service_days_from_legacy cleaned.service_date days) _) _ _ h2 in
      let (rows, _, h4) = >>=-eq-ok (validated_service_days today given) _ _ h3 in
      inserted_effect valid_fields today _ rows m s r s' refl refl h4
