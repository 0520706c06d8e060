-- ===== src/WorkReports/Settlement/Tests.antt =====
-- Runs of the payment services, and the theorem at a concrete technician and manager.
use internet_ms.Base.{◌≡◌, ◌≢◌, any, refl, arith, Bool, true, none, some, [], ◌∷◌, Distinct}
use internet_ms.Base.Int.{pos}
use internet_ms.Base.Text.{codes, strip}
use internet_ms.Base.Result.{Result, ok, err}
use internet_ms.Users.PermissionSets.{
  manager_finance_permissions, technician_baseline, delegable_permissions,
  tenant_operation_permissions,
}
use internet_ms.Users.Models.{BaseRole, Membership}
use internet_ms.Users.Permissions.{
  contains, role_permissions, permissions_for_membership, has_tenant_permission,
}
use internet_ms.WorkReports.PaymentRows.{Payment, Batch, PaymentMethod}
use internet_ms.WorkReports.Models.{Report, ReportStatus, Details, Store}
use internet_ms.WorkReports.Reports.{require}
use internet_ms.WorkReports.Reports.Validity.{IsValid}
use internet_ms.WorkReports.PaymentChecks.{
  is_active_for, require_payment_manager, require_payment_technician, payment_history,
  clean_payment,
}
use internet_ms.WorkReports.Payments.{
  PaymentForm, awaiting, insert_payment, save_payment, record_technician_payment,
  confirm_technician_payment, void_technician_payment, replace_technician_payment,
}
use internet_ms.WorkReports.Settlement.{IsSettled, OneActive}
use internet_ms.WorkReports.Settlement.Refusals.{record-refused}
use internet_ms.WorkReports.Settlement.Runs.{Runs, PaymentStep, runs-IsSettled}

abbrev technician : Membership
technician = record {
  pk = 3;
  tenant_id = 1;
  user_id = 30;
  base_role = BaseRole.technician;
  is_active = true;
  permission_grants = [];
}

abbrev manager : Membership
manager = record technician { pk = 4; user_id = 40; base_role = BaseRole.admin_manager }

abbrev details : Details
details = record {
  customer_id = none;
  work_title = codes "Install";
  client_name = [];
  work_location = [];
  activity_description = codes "Cabling";
  agreed_amount = pos 5000000;
  internal_notes = [];
}

abbrev approved_report : Report
approved_report = record {
  pk = 1;
  tenant_id = 1;
  technician_id = 3;
  details = details;
  service_date = 12;
  status = ReportStatus.approved;
  rejection_reason = [];
  submitted_at = some 7;
  approved_at = some 8;
  approved_by_id = some 4;
}

abbrev unpaid : Store
unpaid = record {
  memberships = technician ∷ manager ∷ [];
  customers = [];
  reports = approved_report ∷ [];
  service_days = [];
  history = [];
  payments = [];
  batches = [];
  payment_history = [];
  active_tenant_ids = 1 ∷ [];
  next_id = 2;
}

abbrev form : PaymentForm
form = record {
  amount_paid = pos 5000000;
  payment_date = 20;
  payment_method = PaymentMethod.cash;
  reference = codes " R1 ";
  manager_note = [];
  adjustment_reason = [];
  confirm_adjusted_amount = true;
}

abbrev any_report : Report → Bool
any_report _ = true

abbrev any_payment : Payment → Bool
any_payment _ = true

abbrev any_batch : Batch → Bool
any_batch _ = true

abbrev value {ℓ κ} : {E : Type ℓ} {A : Type κ} → A → Result E A → A
value default (ok a) = a
value default (err _) = default

abbrev no_payment : Payment
no_payment = record {
  pk = 0;
  tenant_id = 0;
  report_id = 0;
  agreed_amount_snapshot = pos 0;
  amount_paid = pos 0;
  payment_date = 0;
  payment_method = PaymentMethod.cash;
  reference = [];
  manager_note = [];
  adjustment_reason = [];
  recorded_by_id = 0;
  replaces_id = none;
  batch_id = none;
  lifecycle = awaiting;
}

abbrev paid : Payment × Store
paid =
    value (no_payment, unpaid)
      (record_technician_payment any_payment 1 manager form none none unpaid)

abbrev received : Payment × Store
received = value paid (confirm_technician_payment any_payment 21 2 technician none paid.1)

abbrev withdrawn : Payment × Store
withdrawn =
    value received
      (void_technician_payment any_payment 22 2 manager (codes "Wrong amount") none received.1)

abbrev renewed : Payment × Store
renewed = value withdrawn (replace_technician_payment any_payment 2 manager form withdrawn.1)

record-succeeds :
    record_technician_payment any_payment 1 manager form none none unpaid ≡ ok (paid.0, paid.1)
unfolding record_technician_payment confirm_technician_payment void_technician_payment
    replace_technician_payment insert_payment save_payment require_payment_manager
    require_payment_technician payment_history clean_payment strip require has_tenant_permission
    contains permissions_for_membership role_permissions technician_baseline delegable_permissions
    tenant_operation_permissions manager_finance_permissions
record-succeeds = refl

confirm-succeeds :
    confirm_technician_payment any_payment 21 2 technician none paid.1 ≡ ok (received.0, received.1)
unfolding record_technician_payment confirm_technician_payment void_technician_payment
    replace_technician_payment insert_payment save_payment require_payment_manager
    require_payment_technician payment_history clean_payment strip require has_tenant_permission
    contains permissions_for_membership role_permissions technician_baseline delegable_permissions
    tenant_operation_permissions manager_finance_permissions
confirm-succeeds = refl

void-succeeds :
    void_technician_payment any_payment 22 2 manager (codes "Wrong amount") none received.1
    ≡ ok (withdrawn.0, withdrawn.1)
unfolding record_technician_payment confirm_technician_payment void_technician_payment
    replace_technician_payment insert_payment save_payment require_payment_manager
    require_payment_technician payment_history clean_payment strip require has_tenant_permission
    contains permissions_for_membership role_permissions technician_baseline delegable_permissions
    tenant_operation_permissions manager_finance_permissions
void-succeeds = refl

replace-succeeds :
    replace_technician_payment any_payment 2 manager form withdrawn.1 ≡ ok (renewed.0, renewed.1)
unfolding record_technician_payment confirm_technician_payment void_technician_payment
    replace_technician_payment insert_payment save_payment require_payment_manager
    require_payment_technician payment_history clean_payment strip require has_tenant_permission
    contains permissions_for_membership role_permissions technician_baseline delegable_permissions
    tenant_operation_permissions manager_finance_permissions
replace-succeeds = refl

unpaid-IsValid : IsValid unpaid
unfolding Distinct
unpaid-IsValid = record {
  distinct = (tt, tt);
  below = (omega arith, tt);
  reviewed = (((λ _. (refl, refl)), (λ h. cc)), tt);
}

unpaid-IsSettled : IsSettled unpaid
unfolding Distinct OneActive
unpaid-IsSettled = record { distinct = tt; below = tt; one_active = tt; agreed = tt }

abbrev calls : Runs any_report any_payment any_batch unpaid renewed.1
calls =
    Runs.pays (PaymentStep.records 1 manager form none none unpaid paid.0 paid.1 record-succeeds) (
      Runs.pays
        (PaymentStep.confirms 21 2 technician none paid.1 received.0 received.1 confirm-succeeds)
        (Runs.pays
          (PaymentStep.voids 22 2 manager (codes "Wrong amount") none received.1 withdrawn.0
            withdrawn.1 void-succeeds)
          (Runs.pays
            (PaymentStep.replaces 2 manager form withdrawn.1 renewed.0 renewed.1 replace-succeeds)
            Runs.ends)))

runs-IsSettled_example : IsValid renewed.1 × IsSettled renewed.1
runs-IsSettled_example =
    runs-IsSettled any_report any_payment any_batch unpaid renewed.1 calls unpaid-IsValid
      unpaid-IsSettled

paid-IsSettled : IsSettled paid.1
paid-IsSettled =
    (runs-IsSettled any_report any_payment any_batch unpaid paid.1
      (Runs.pays (PaymentStep.records 1 manager form none none unpaid paid.0 paid.1 record-succeeds)
        Runs.ends)
      unpaid-IsValid unpaid-IsSettled).1

paid-active : any (is_active_for 1) paid.1.payments ≡ true
unfolding record_technician_payment confirm_technician_payment void_technician_payment
    replace_technician_payment insert_payment save_payment require_payment_manager
    require_payment_technician payment_history clean_payment strip require has_tenant_permission
    contains permissions_for_membership role_permissions technician_baseline delegable_permissions
    tenant_operation_permissions manager_finance_permissions
paid-active = refl

record-refused_example :
    record_technician_payment any_payment 1 manager form none none paid.1 ≢ ok (paid.0, paid.1)
record-refused_example =
    record-refused any_payment 1 manager form none none paid.1 paid-IsSettled paid-active paid.0
      paid.1
