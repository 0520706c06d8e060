-- ===== src/Users/Tests.antt =====
-- Runs of the permission checks, and the theorems at concrete members.
use internet_ms.Base.{
  Mem, ℕ, ◌≡◌, refl, true, false, ◌&&◌, ◌||◌, Option, none, some, List, [], ◌∷◌, arith, All, ◌⊎◌,
  ◌≢◌,
}
use internet_ms.Base.Int.{pos, ◌*ℤ◌, max_ℤ}
use internet_ms.Base.Decimal.{round_half_up}
use internet_ms.Base.Result.{ok}
use internet_ms.Billing.Models.{Document, DocumentType, Status}
use internet_ms.Users.PermissionCode
use internet_ms.Users.PermissionSets.{
  sales_baseline, delegable_permissions, tenant_operation_permissions, platform_permissions,
  manager_finance_permissions,
}
use internet_ms.Users.Models.{BaseRole, Scope, Grant, Membership, is_technician}
use internet_ms.Users.Permissions.{
  contains, granted_codes, role_permissions, permissions_for_membership, membership_for,
  has_tenant_permission, maximum_discount_for, discount_authorization_error, permission_grant_for,
  validate_delegated_grant,
}
use internet_ms.Users.Permissions.Boundary.{
  reserved, baseline, is_manager, permissions_exact, reserved_never_held, manager_below_super,
  has_tenant_permission_sound,
}
use internet_ms.Users.Permissions.Discounts.{
  WithinPercent, WithinAmount, authorized_discount_bounds,
}
use internet_ms.Users.Permissions.Delegation.{delegation_sound}
use internet_ms.Users.Access.{
  Request, present, require_permission, sales_document_queryset_for, is_own, can_record_payment,
  takes_payment, can_view_sales_document,
}
use internet_ms.Users.Access.Scoping.{
  sales_documents_scoped, can_record_payment_sound, require_permission_sound,
}

-- 10.00 percent, at most 50.00.
abbrev discount_grant : Grant
discount_grant = record {
  action_code = PermissionCode.cart_discount_apply;
  scope = Scope.own;
  max_discount_percent = some (pos 1000);
  max_discount_amount = some (pos 5000);
}

-- A row that no delegation would write.
abbrev tampered : Grant
tampered = record {
  action_code = PermissionCode.platform_tenants_manage;
  scope = Scope.tenant_all;
  max_discount_percent = none;
  max_discount_amount = none;
}

abbrev seller : Membership
seller = record {
  pk = 7;
  tenant_id = 1;
  user_id = 70;
  base_role = BaseRole.sales;
  is_active = true;
  permission_grants = discount_grant ∷ tampered ∷ [];
}

abbrev manager : Membership
manager = record {
  pk = 8;
  tenant_id = 1;
  user_id = 80;
  base_role = BaseRole.admin_manager;
  is_active = true;
  permission_grants = [];
}

abbrev root : Membership
root = record manager { pk = 9; base_role = BaseRole.super_admin }

abbrev rows : List Membership
rows = seller ∷ manager ∷ root ∷ []

abbrev purchase_grant : Grant
purchase_grant = record tampered {
  action_code = PermissionCode.purchases_create;
  scope = Scope.own;
}

abbrev open_invoice : Document
open_invoice = record {
  pk = 20;
  organization_id = 1;
  tenant_id = 1;
  document_type = DocumentType.invoice;
  status = Status.issued;
  customer_id = 5;
  is_walk_in_sale = false;
  issue_date = 100;
  tax_rate = pos 1800;
  subtotal = pos 10000;
  tax_amount = pos 1800;
  total = pos 11800;
  balance_brought_forward = pos 0;
  invoice_id = none;
  corrected_invoice_id = none;
  is_current_version = true;
  converted_invoice_id = none;
  payment_date = none;
  payment_method = [];
  payment_reference = [];
  created_by_membership_id = some 7;
  responsible_membership_id = some 7;
  sent_at = none;
  accepted_at = none;
  rejected_at = none;
  expired_at = none;
  voided_at = none;
}

seller-maximum : maximum_discount_for (some seller) (pos 30000) ≡ some (pos 3000)
unfolding maximum_discount_for permissions_for_membership role_permissions contains
    permission_grant_for sales_baseline delegable_permissions round_half_up ◌*ℤ◌
seller-maximum = refl

seller-allowed : discount_authorization_error (some seller) (pos 30000) (pos 2500) ≡ none
unfolding discount_authorization_error maximum_discount_for permissions_for_membership
    role_permissions contains permission_grant_for sales_baseline delegable_permissions
    round_half_up ◌*ℤ◌
seller-allowed = refl

platform-reserved : contains reserved PermissionCode.platform_tenants_manage ≡ true
unfolding contains reserved
platform-reserved = refl

manager-views :
    contains (permissions_for_membership (some manager)) PermissionCode.users_view ≡ true
unfolding contains permissions_for_membership role_permissions tenant_operation_permissions
manager-views = refl

seller-pays :
    has_tenant_permission rows
      (some (record { pk = 70; is_authenticated = true }))
      (some 1)
      PermissionCode.payments_record_own
      none
    ≡ true
unfolding has_tenant_permission membership_for contains permissions_for_membership role_permissions
    sales_baseline delegable_permissions
seller-pays = refl

purchase-accepted :
    validate_delegated_grant manager seller PermissionCode.purchases_create Scope.own ≡ none
unfolding validate_delegated_grant contains delegable_permissions manager_finance_permissions
    platform_permissions
purchase-accepted = refl

abbrev invoice_rows : List Document
invoice_rows = open_invoice ∷ []

seller-records : can_record_payment rows invoice_rows none open_invoice (some seller) ≡ true
unfolding can_record_payment has_tenant_permission contains permissions_for_membership
    role_permissions sales_baseline delegable_permissions sales_document_queryset_for
    can_view_sales_document
seller-records = refl

abbrev seller_request : Request
seller_request = record { user = none; tenant = some 1; membership = some seller }

seller-passes :
    require_permission rows seller_request PermissionCode.products_view (some (present (some 1)))
    ≡ ok true
unfolding require_permission has_tenant_permission contains permissions_for_membership
    role_permissions sales_baseline delegable_permissions
seller-passes = refl

permissions_exact_example :
    contains (permissions_for_membership (some seller)) PermissionCode.platform_tenants_manage ≡ (
      contains (baseline BaseRole.sales) PermissionCode.platform_tenants_manage
      || (contains (granted_codes seller) PermissionCode.platform_tenants_manage
          && contains delegable_permissions PermissionCode.platform_tenants_manage))
permissions_exact_example = permissions_exact seller PermissionCode.platform_tenants_manage refl

reserved_never_held_example :
    contains (permissions_for_membership (some seller)) PermissionCode.platform_tenants_manage
    ≡ false
reserved_never_held_example =
    reserved_never_held seller PermissionCode.platform_tenants_manage refl platform-reserved

manager_below_super_example :
    (contains (permissions_for_membership (some root)) PermissionCode.users_view ≡ true)
    × (contains platform_permissions PermissionCode.users_view ≡ false)
manager_below_super_example =
    manager_below_super manager root PermissionCode.users_view refl refl refl manager-views

has_tenant_permission_sound_example :
    (m : Membership) × ((none ≡ some m)
      ⊎ ((◌≡◌ {A = Option Membership} none none)
          × Mem m rows
          × (m.user_id ≡ 70)
          × (m.tenant_id ≡ 1)))
    × ((m.tenant_id ≡ 1) ⊎ (m.base_role ≡ BaseRole.super_admin))
    × (m.is_active ≡ true)
    × (contains (permissions_for_membership (some m)) PermissionCode.payments_record_own ≡ true)
has_tenant_permission_sound_example =
    has_tenant_permission_sound rows (record { pk = 70; is_authenticated = true }) 1
      PermissionCode.payments_record_own none seller-pays

authorized_discount_bounds_example :
    (g : Grant) × (permission_grant_for (some seller) PermissionCode.cart_discount_apply ≡ some g)
    × WithinPercent (max_ℤ (pos 30000) (pos 0)) g.max_discount_percent 2500
    × WithinAmount g.max_discount_amount 2500
    × ((g.max_discount_percent ≢ none) ⊎ (g.max_discount_amount ≢ none))
authorized_discount_bounds_example =
    authorized_discount_bounds seller (pos 30000) 2500 refl (omega arith) seller-allowed

delegation_sound_example :
    (manager.base_role ≡ BaseRole.admin_manager)
    × (manager.tenant_id ≡ seller.tenant_id)
    × (manager.pk ≢ seller.pk)
    × (false ≡ false)
    × (contains reserved PermissionCode.purchases_create ≡ false)
delegation_sound_example =
    delegation_sound manager seller PermissionCode.purchases_create Scope.own purchase-accepted

sales_documents_scoped_example :
    All
      (λ d. (d.tenant_id ≡ 1) × ((is_manager BaseRole.sales ≡ true) ⊎ (is_own seller d ≡ true)))
      (sales_document_queryset_for rows none (some 1) invoice_rows (some seller))
sales_documents_scoped_example = sales_documents_scoped rows none 1 invoice_rows seller

can_record_payment_sound_example :
    (DocumentType.invoice ≡ DocumentType.invoice)
    × (takes_payment Status.issued ≡ true)
    × (is_technician BaseRole.sales ≡ false)
    × (has_tenant_permission rows none (some 1) PermissionCode.payments_record_own (some seller)
        ≡ true)
    × ((d : Document) × Mem d invoice_rows
        × (d.pk ≡ 20)
        × (d.tenant_id ≡ 1)
        × ((is_manager BaseRole.sales ≡ true) ⊎ (is_own seller d ≡ true)))
can_record_payment_sound_example =
    can_record_payment_sound rows invoice_rows none open_invoice seller seller-records

require_permission_sound_example :
    (t : ℕ) × (some 1 ≡ some t)
    × (some 1 ≡ some t)
    × (has_tenant_permission rows none (some t) PermissionCode.products_view (some seller) ≡ true)
require_permission_sound_example =
    require_permission_sound rows seller_request PermissionCode.products_view (some 1) seller-passes
