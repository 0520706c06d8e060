-- ===== src/WorkReports/Tests.antt =====
-- Runs of the report services, and the theorems at a concrete technician and manager.
use internet_ms.Base.{
  ℕ, ◌≤◌, ◌≡◌, refl, Bool, true, none, some, List, [], ◌∷◌, ◌==◌, length, any, All, find, Distinct,
}
use internet_ms.Base.Int.{pos}
use internet_ms.Base.Text.{codes, strip}
use internet_ms.Base.Result.{Result, ok, err}
use internet_ms.Users.PermissionSets.{
  technician_baseline, delegable_permissions, tenant_operation_permissions,
}
use internet_ms.Users.Models.{BaseRole, Membership}
use internet_ms.Users.Permissions.{
  contains, role_permissions, permissions_for_membership, has_tenant_permission,
}
use internet_ms.WorkReports.Models.{Report, ReportStatus, Details, Store, clean, is_some}
use internet_ms.WorkReports.ServiceDays.{
  Day, DayRow, normalize, sort_days, validated_service_days, service_days_from_legacy,
  replace_service_days,
}
use internet_ms.WorkReports.ServiceDays.Dates.{
  Fits, Ascending, has_date, row_has_date, validated_dates,
}
use internet_ms.WorkReports.Reports.{
  Cleaned, require, history, manager_report, save, insert_report, create_report, submit_report,
  approve_report,
}
use internet_ms.WorkReports.Reports.Validity.{IsValid}
use internet_ms.WorkReports.Reports.Lifecycle.{
  Step, Reaches, is_move, step-IsValid, step_moves, approved_forever,
}

abbrev technician : Membership
technician = record {
  pk = 3;
  tenant_id = 1;
  user_id = 30;
  base_role = BaseRole.technician;
  is_active = true;
  permission_grants = [];
}

abbrev manager : Membership
manager = record technician { pk = 4; user_id = 40; base_role = BaseRole.admin_manager }

abbrev empty : Store
empty = record {
  memberships = technician ∷ manager ∷ [];
  customers = [];
  reports = [];
  service_days = [];
  history = [];
  payments = [];
  batches = [];
  payment_history = [];
  active_tenant_ids = 1 ∷ [];
  next_id = 1;
}

abbrev details : Details
details = record {
  customer_id = none;
  work_title = codes "Install";
  client_name = [];
  work_location = [];
  activity_description = codes "Cabling";
  agreed_amount = pos 5000000;
  internal_notes = [];
}

abbrev cleaned : Cleaned
cleaned = record { details = details; service_date = none }

-- Two days, the later one first.
abbrev rows : List DayRow
rows =
    (record { service_date = some 12; activity_note = codes " second " })
    ∷ (record { service_date = some 11; activity_note = [] })
    ∷ []

abbrev days : List Day
days =
    (record { service_date = 11; activity_note = [] })
    ∷ (record { service_date = 12; activity_note = codes "second" })
    ∷ []

abbrev any_fields : Report → Bool
any_fields _ = true

abbrev value {ℓ κ} : {E : Type ℓ} {A : Type κ} → A → Result E A → A
value default (ok a) = a
value default (err _) = default

abbrev no_report : Report
no_report = record {
  pk = 0;
  tenant_id = 0;
  technician_id = 0;
  details = details;
  service_date = 0;
  status = ReportStatus.draft;
  rejection_reason = [];
  submitted_at = none;
  approved_at = none;
  approved_by_id = none;
}

abbrev written : Report × Store
written =
    value (no_report, empty) (create_report any_fields 20 technician cleaned (some rows) empty)

abbrev sent : Report × Store
sent = value written (submit_report any_fields 7 20 1 technician written.1)

abbrev accepted : Report × Store
accepted = value sent (approve_report any_fields 8 20 1 manager none sent.1)

days-pass : validated_service_days 20 rows ≡ ok days
unfolding validated_service_days normalize sort_days strip
days-pass = refl

create-succeeds :
    create_report any_fields 20 technician cleaned (some rows) empty ≡ ok (written.0, written.1)
unfolding create_report validated_service_days normalize sort_days strip insert_report
    replace_service_days history require has_tenant_permission contains permissions_for_membership
    role_permissions technician_baseline delegable_permissions clean service_days_from_legacy
create-succeeds = refl

submit-succeeds : submit_report any_fields 7 20 1 technician written.1 ≡ ok (sent.0, sent.1)
unfolding create_report validated_service_days normalize sort_days strip insert_report
    replace_service_days history require has_tenant_permission contains permissions_for_membership
    role_permissions technician_baseline delegable_permissions clean service_days_from_legacy
    submit_report save
submit-succeeds = refl

approve-succeeds :
    approve_report any_fields 8 20 1 manager none sent.1 ≡ ok (accepted.0, accepted.1)
unfolding create_report validated_service_days normalize sort_days strip insert_report
    replace_service_days history require has_tenant_permission contains permissions_for_membership
    role_permissions technician_baseline delegable_permissions clean service_days_from_legacy
    submit_report save approve_report manager_report tenant_operation_permissions
approve-succeeds = refl

empty-IsValid : IsValid empty
unfolding Distinct
empty-IsValid = record { distinct = tt; below = tt; reviewed = tt }

abbrev creation : Step any_fields empty written.1
creation = Step.creates 20 technician cleaned (some rows) empty written.0 written.1 create-succeeds

validated_dates_example :
    (1 ≤ length days)
    × (length days ≡ length rows)
    × All (Fits 20) days
    × Ascending days
    × ((date : ℕ) → has_date date days ≡ any (row_has_date date) rows)
validated_dates_example = validated_dates 20 rows days days-pass

step-IsValid_example : IsValid written.1
step-IsValid_example = step-IsValid any_fields empty written.1 creation empty-IsValid

abbrev second : Report × Store
second = value accepted (create_report any_fields 20 technician cleaned (some rows) accepted.1)

abbrev key_is : ℕ → Report → Bool
key_is k r = r.pk == k

written-found : find (key_is 1) written.1.reports ≡ some written.0
unfolding create_report validated_service_days normalize sort_days strip insert_report
    replace_service_days history require has_tenant_permission contains permissions_for_membership
    role_permissions technician_baseline delegable_permissions clean service_days_from_legacy
written-found = refl

accepted-found :
    (find (key_is 1) accepted.1.reports ≡ some accepted.0)
    × (accepted.0.status ≡ ReportStatus.approved)
unfolding create_report validated_service_days normalize sort_days strip insert_report
    replace_service_days history require has_tenant_permission contains permissions_for_membership
    role_permissions technician_baseline delegable_permissions clean service_days_from_legacy
    submit_report save approve_report manager_report tenant_operation_permissions
accepted-found = (refl, refl)

second-succeeds :
    create_report any_fields 20 technician cleaned (some rows) accepted.1 ≡ ok (second.0, second.1)
unfolding create_report validated_service_days normalize sort_days strip insert_report
    replace_service_days history require has_tenant_permission contains permissions_for_membership
    role_permissions technician_baseline delegable_permissions clean service_days_from_legacy
    submit_report save approve_report manager_report tenant_operation_permissions
second-succeeds = refl

abbrev submission : Step any_fields written.1 sent.1
submission = Step.submits 7 20 1 technician written.1 sent.0 sent.1 submit-succeeds

abbrev approval : Step any_fields sent.1 accepted.1
approval = Step.approves 8 20 1 manager none sent.1 accepted.0 accepted.1 approve-succeeds

abbrev another : Step any_fields accepted.1 second.1
another =
    Step.creates 20 technician cleaned (some rows) accepted.1 second.0 second.1 second-succeeds

written-IsValid : IsValid written.1
written-IsValid = step-IsValid any_fields empty written.1 creation empty-IsValid

accepted-IsValid : IsValid accepted.1
accepted-IsValid =
    step-IsValid any_fields sent.1 accepted.1 approval
      (step-IsValid any_fields written.1 sent.1 submission written-IsValid)

step_moves_example :
    (y : Report) × (find (key_is 1) sent.1.reports ≡ some y)
    × (is_move written.0.status y.status ≡ true)
step_moves_example =
    step_moves any_fields written.1 sent.1 submission written-IsValid 1 written.0 written-found

approved_forever_example :
    (y : Report) × (find (key_is 1) second.1.reports ≡ some y)
    × (y.status ≡ ReportStatus.approved)
    × (y.approved_by_id ≡ accepted.0.approved_by_id)
    × (y.approved_at ≡ accepted.0.approved_at)
    × (is_some y.approved_by_id ≡ true)
    × (is_some y.approved_at ≡ true)
approved_forever_example =
    approved_forever any_fields accepted.1 second.1 (Reaches.follows another Reaches.stays)
      accepted-IsValid 1 accepted.0 accepted-found.0 accepted-found.1
