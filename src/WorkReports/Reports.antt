-- ===== src/WorkReports/Reports.antt =====
-- work_reports/services.py: the lifecycle of a report. Django's validation of single fields is a
-- parameter, `valid_fields`.
pub mod Moves
pub mod Services
pub mod Validity
pub mod Lifecycle
pub mod Progress
mod Tests
use internet_ms.Base.{
  ℕ, suc, String, Bool, true, false, not, ◌&&◌, ◌||◌, Option, none, some, List, [], ◌∷◌, ◌++◌, ◌==◌,
  any, find, update, if◌then◌else◌,
}
use internet_ms.Base.Int.{eq_ℤ}
use internet_ms.Base.Text.{Text, strip, is_empty}
use internet_ms.Base.Result.{Result, ok, ◌>>=◌, ◌>>◌, raise_if, or_raise}
use internet_ms.Users.PermissionCode
use internet_ms.Users.Models.{Membership, User, is_technician, is_super_admin}
use internet_ms.Users.Permissions.{has_tenant_permission}
use internet_ms.WorkReports.Models.{
  Report, ReportStatus, ReportEvent, Details, Store, WorkError, HistoryEntry, clean, same_protected,
  is_draft, is_rejected, is_submitted, is_approved, no_permission, not_technician, not_available,
  wrong_state, reason_required, no_work_date, invalid_report, approved_immutable, amount_fixed,
  foreign_actor,
}
use internet_ms.WorkReports.ServiceDays.{
  Day, DayRow, validated_service_days, service_days_from_legacy, replace_service_days, is_day_of,
}

-- `cleaned_data`, with the date of older callers.
pub record Cleaned : Type 0 where
  pub details : Details
  pub service_date : Option ℕ

abbrev pub user_of : Membership → Option User
user_of m = some (record { pk = m.user_id; is_authenticated = true })

-- `_require` of a membership in a tenant
unfoldable pub require : Store → Membership → String → ℕ → Result WorkError (Unit {0})
require s m action tenant =
    raise_if
      (not m.is_active
        || not (has_tenant_permission s.memberships (user_of m) (some tenant) action (some m)))
      no_permission

-- `_history`: `WorkReportHistory.save` checks the actor's tenant.
unfoldable pub history :
    Report → Membership → ReportEvent → Option ReportStatus → Text → Store → Result WorkError Store
history report m event from_status reason s = do
  raise_if (not (m.tenant_id == report.tenant_id) && not (is_super_admin m.base_role)) foreign_actor
  ok (record s {
    history =
        s.history
        ++ (record {
          report_id = report.pk;
          actor_membership_id = m.pk;
          event = event;
          from_status = from_status;
          to_status = report.status;
          reason = reason;
        })
          ∷ [];
  })

abbrev pub is_own_report : ℕ → Membership → Report → Bool
is_own_report report_id m r =
    r.pk == report_id && r.tenant_id == m.tenant_id && r.technician_id == m.pk

abbrev pub first_date : List Day → ℕ → ℕ
first_date [] default = default
first_date (d ∷ _) default = d.service_date

-- `tenant or membership.tenant`
abbrev pub tenant_or_own : Option ℕ → Membership → ℕ
tenant_or_own none m = m.tenant_id
tenant_or_own (some tenant) m = tenant

abbrev pub is_protected : Bool → Report → Option Report → Bool
is_protected approved_correction report none = false
is_protected approved_correction report (some previous) =
    is_approved previous.status && not approved_correction && not (same_protected previous report)

abbrev pub is_editable : ReportStatus → Bool
is_editable status = is_draft status || is_rejected status

-- `rows[0]["service_date"]` where there are new rows
abbrev pub dated : Option (List Day) → Report → Report
dated none r = r
dated (some rows) r = record r { service_date = first_date rows r.service_date }

abbrev pub validate_optional : ℕ → Option (List DayRow) → Result WorkError (Option (List Day))
validate_optional today none = ok none
validate_optional today (some rows) = do days ← validated_service_days today rows; ok (some days)

abbrev pub replace_optional : ℕ → Report → Option (List Day) → Bool → Store → Result WorkError Store
replace_optional today report none approved_correction s = ok s
replace_optional today report (some rows) approved_correction s =
    replace_service_days today report rows approved_correction s

-- `_manager_report`
unfoldable pub manager_report : Store → ℕ → Membership → String → Option ℕ → Result WorkError Report
unfolding require
manager_report s report_id m permission tenant = do
  require s m permission (tenant_or_own tenant m)
  or_raise (find (λ r. r.pk == report_id && r.tenant_id == tenant_or_own tenant m) s.reports)
      not_available

module _ (valid_fields : Report → Bool) where
  -- `TechnicianWorkReport.save` of a row that is there.
  unfoldable pub save : ℕ → Bool → Report → Store → Result WorkError Store
  save today approved_correction r s = do
    raise_if (is_protected approved_correction r (find (λ x. x.pk == r.pk) s.reports))
        approved_immutable
    raise_if (not (valid_fields r && clean today s r)) invalid_report
    ok (record s { reports = update (λ x. x.pk == r.pk) (λ _. r) s.reports })

  -- `save` of a new row.
  unfoldable pub insert_report : ℕ → Report → Store → Result WorkError Store
  insert_report today r s = do
    raise_if (not (valid_fields r && clean today s r)) invalid_report
    ok (record s { reports = s.reports ++ r ∷ []; next_id = suc s.next_id })

  unfoldable pub create_report :
      ℕ → Membership → Cleaned → Option (List DayRow) → Store → Result WorkError (Report × Store)
  create_report today m cleaned service_days s = do
    require s m PermissionCode.technician_work_reports_create_own m.tenant_id
    raise_if (not (is_technician m.base_role)) not_technician
    given ← or_raise (service_days_from_legacy cleaned.service_date service_days) no_work_date
    rows ← validated_service_days today given
    let report : Report = record {
      pk = s.next_id;
      tenant_id = m.tenant_id;
      technician_id = m.pk;
      details = cleaned.details;
      service_date = first_date rows 0;
      status = ReportStatus.draft;
      rejection_reason = [];
      submitted_at = none;
      approved_at = none;
      approved_by_id = none;
    }
    saved ← insert_report today report s
    replaced ← replace_service_days today report rows false saved
    logged ← history report m ReportEvent.created none [] replaced
    ok (report, logged)

  unfoldable pub update_own_report :
      ℕ
      → ℕ
      → Membership
      → Cleaned
      → Option (List DayRow)
      → Store
      → Result WorkError (Report × Store)
  update_own_report today report_id m cleaned service_days s = do
    require s m PermissionCode.technician_work_reports_update_own m.tenant_id
    old ← or_raise (find (is_own_report report_id m) s.reports) not_available
    raise_if (not (is_editable old.status)) wrong_state
    rows ← validate_optional today (service_days_from_legacy cleaned.service_date service_days)
    let report = dated rows (record old { details = cleaned.details })
    saved ← save today false report s
    replaced ← replace_optional today report rows false saved
    logged ← history report m ReportEvent.updated (some report.status) [] replaced
    ok (report, logged)

  unfoldable pub submit_report : ℕ → ℕ → ℕ → Membership → Store → Result WorkError (Report × Store)
  submit_report now today report_id m s = do
    require s m PermissionCode.technician_work_reports_submit_own m.tenant_id
    old ← or_raise (find (is_own_report report_id m) s.reports) not_available
    raise_if (not (is_editable old.status)) wrong_state
    raise_if (not (any (is_day_of old) s.service_days)) no_work_date
    let report = record old {
      status = ReportStatus.submitted;
      submitted_at = some now;
      rejection_reason = [];
    }
    saved ← save today false report s
    logged ←
        history report m
          (if is_rejected old.status then ReportEvent.resubmitted else ReportEvent.submitted)
          (some old.status) [] saved
    ok (report, logged)

  unfoldable pub approve_report :
      ℕ → ℕ → ℕ → Membership → Option ℕ → Store → Result WorkError (Report × Store)
  approve_report now today report_id m tenant s = do
    old ← manager_report s report_id m PermissionCode.technician_work_reports_approve tenant
    raise_if (not (is_submitted old.status)) wrong_state
    let report = record old {
      status = ReportStatus.approved;
      approved_by_id = some m.pk;
      approved_at = some now;
      rejection_reason = [];
    }
    saved ← save today false report s
    logged ← history report m ReportEvent.approved (some old.status) [] saved
    ok (report, logged)

  unfoldable pub reject_report :
      ℕ → ℕ → Membership → Text → Option ℕ → Store → Result WorkError (Report × Store)
  reject_report today report_id m reason tenant s = do
    old ← manager_report s report_id m PermissionCode.technician_work_reports_reject tenant
    raise_if (is_empty (strip reason)) reason_required
    raise_if (not (is_submitted old.status)) wrong_state
    let report = record old {
      status = ReportStatus.rejected;
      rejection_reason = strip reason;
      approved_by_id = none;
      approved_at = none;
    }
    saved ← save today false report s
    logged ← history report m ReportEvent.rejected (some old.status) (strip reason) saved
    ok (report, logged)

  unfoldable pub correct_approved_report :
      ℕ
      → ℕ
      → Membership
      → Cleaned
      → Text
      → Option (List DayRow)
      → Option ℕ
      → Store
      → Result WorkError (Report × Store)
  correct_approved_report today report_id m cleaned reason service_days tenant s = do
    old ←
        manager_report s report_id m PermissionCode.technician_work_reports_correct_approved tenant
    raise_if (is_empty (strip reason)) reason_required
    raise_if (not (is_approved old.status)) wrong_state
    rows ← validate_optional today (service_days_from_legacy cleaned.service_date service_days)
    raise_if
        (not (eq_ℤ cleaned.details.agreed_amount old.details.agreed_amount)
          && any (λ p. p.report_id == old.pk) s.payments)
        amount_fixed
    let report = dated rows (record old { details = cleaned.details })
    saved ← save today true report s
    replaced ← replace_optional today report rows true saved
    logged ←
        history report m ReportEvent.corrected (some ReportStatus.approved) (strip reason) replaced
    ok (report, logged)
