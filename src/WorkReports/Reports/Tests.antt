-- ===== src/WorkReports/Reports/Tests.antt =====
-- A draft that is brought to approval.
use internet_ms.Base.{◌≡◌, refl, arith, Bool, true, none, some, [], ◌∷◌, ◌==◌, find, Distinct}
use internet_ms.Base.Int.{pos}
use internet_ms.Base.Text.{codes, strip}
use internet_ms.Base.Result.{ok}
use internet_ms.Users.PermissionSets.{
  technician_baseline, delegable_permissions, tenant_operation_permissions,
}
use internet_ms.Users.Models.{BaseRole, Membership}
use internet_ms.Users.Permissions.{
  contains, role_permissions, permissions_for_membership, has_tenant_permission,
}
use internet_ms.WorkReports.Models.{Report, ReportStatus, Details, Store, clean}
use internet_ms.WorkReports.Reports.{require, submit_report, approve_report}
use internet_ms.WorkReports.Reports.Validity.{IsValid}
use internet_ms.WorkReports.Reports.Progress.{draft_can_be_approved}

abbrev technician : Membership
technician = record {
  pk = 3;
  tenant_id = 1;
  user_id = 30;
  base_role = BaseRole.technician;
  is_active = true;
  permission_grants = [];
}

abbrev manager : Membership
manager = record technician { pk = 4; user_id = 40; base_role = BaseRole.admin_manager }

abbrev details : Details
details = record {
  customer_id = none;
  work_title = codes "Install";
  client_name = [];
  work_location = [];
  activity_description = codes "Cabling";
  agreed_amount = pos 5000000;
  internal_notes = [];
}

abbrev draft : Report
draft = record {
  pk = 1;
  tenant_id = 1;
  technician_id = 3;
  details = details;
  service_date = 12;
  status = ReportStatus.draft;
  rejection_reason = [];
  submitted_at = none;
  approved_at = none;
  approved_by_id = none;
}

abbrev started : Store
started = record {
  memberships = technician ∷ manager ∷ [];
  customers = [];
  reports = draft ∷ [];
  service_days =
      (record { tenant_id = 1; report_id = 1; service_date = 12; activity_note = [] }) ∷ [];
  history = [];
  payments = [];
  batches = [];
  payment_history = [];
  active_tenant_ids = 1 ∷ [];
  next_id = 2;
}

abbrev any_report : Report → Bool
any_report _ = true

started-IsValid : IsValid started
unfolding Distinct
started-IsValid = record {
  distinct = (tt, tt);
  below = (omega arith, tt);
  reviewed = (((λ h. cc), (λ h. cc)), tt);
}

draft_can_be_approved_example :
    (sent : Report) × (middle : Store) × (done : Report) × (last : Store) × (submit_report
        any_report 7 20 1 technician started
      ≡ ok (sent, middle))
    × (approve_report any_report 8 20 1 manager none middle ≡ ok (done, last))
    × (find (λ x. x.pk == 1) last.reports ≡ some done)
    × (done.status ≡ ReportStatus.approved)
    × (done.details ≡ details)
    × (done.approved_by_id ≡ some 4)
unfolding require has_tenant_permission contains permissions_for_membership role_permissions
    technician_baseline delegable_permissions tenant_operation_permissions clean strip
draft_can_be_approved_example =
    draft_can_be_approved any_report 7 8 20 technician manager started draft started-IsValid refl
      refl refl refl refl refl refl refl (λ x h. refl)
