-- ===== src/Users/Access.antt =====
-- users/permissions.py: requests, and which sales documents a member may see or take money for.
pub mod Scoping
use internet_ms.Base.{
  ℕ, String, Bool, true, false, not, ◌&&◌, ◌||◌, Option, none, some, List, [], any, filter, ◌==◌,
  if◌then◌else◌,
}
use internet_ms.Base.Result.{Result, ok, err, ◌>>=◌, ◌>>◌, raise_if, or_raise}
use internet_ms.Billing.Models.{Document, DocumentType, Status, is_invoice}
use internet_ms.Users.PermissionCode
use internet_ms.Users.Models.{
  Membership, User, is_super_admin, is_admin_manager, is_sales, same_key,
}
use internet_ms.Users.Permissions.{same_tenant, or_membership_for, has_tenant_permission}

-- What the middleware puts on a request.
pub record Request : Type 0 where
  pub user : Option User
  pub tenant : Option ℕ
  pub membership : Option Membership

-- The reasons of `PermissionDenied`.
pub data Denied : Type 0 where
  context_required not_available insufficient : Denied

-- `getattr(obj, "tenant_id", …)`: the object may have no such attribute.
pub data TenantAttribute : Type 0 where
  absent : TenantAttribute
  present : Option ℕ → TenantAttribute

unfoldable pub require_tenant_context : Request → Result Denied ℕ
require_tenant_context request = or_raise request.tenant context_required

abbrev pub attribute_matches : TenantAttribute → ℕ → Bool
attribute_matches absent tenant = true
attribute_matches (present none) tenant = false
attribute_matches (present (some t)) tenant = t == tenant

unfoldable pub ensure_object_tenant_access : Request → TenantAttribute → Result Denied (Unit {0})
unfolding require_tenant_context
ensure_object_tenant_access request obj = do
  tenant ← require_tenant_context request
  raise_if (not (attribute_matches obj tenant)) not_available

abbrev pub check_object : Request → Option TenantAttribute → Result Denied (Unit {0})
check_object request none = ok tt
check_object request (some obj) = ensure_object_tenant_access request obj

unfoldable pub require_permission :
    List Membership → Request → String → Option TenantAttribute → Result Denied Bool
unfolding require_tenant_context ensure_object_tenant_access
require_permission table request permission obj = do
  tenant ← require_tenant_context request
  raise_if
      (not (has_tenant_permission table request.user (some tenant) permission request.membership))
      insufficient
  check_object request obj
  ok true

-- `Q(created_by_membership=membership) | Q(responsible_membership=membership)`
abbrev pub is_own : Membership → Document → Bool
is_own m d =
    same_key d.created_by_membership_id (some m.pk)
    || same_key d.responsible_membership_id (some m.pk)

abbrev pub visible_to : Option Membership → List Document → List Document
visible_to none rows = []
visible_to (some m) rows =
    if is_super_admin m.base_role || is_admin_manager m.base_role
    then rows
    else if not (is_sales m.base_role)
    then []
    else filter (is_own m) rows

unfoldable pub sales_document_queryset_for :
    List Membership → Option User → Option ℕ → List Document → Option Membership → List Document
sales_document_queryset_for table user tenant queryset membership =
    visible_to (or_membership_for table user tenant membership)
      (filter (λ d. same_tenant d.tenant_id tenant) queryset)

-- The query runs over the table of documents.
unfoldable pub can_view_sales_document :
    List Membership → List Document → Option User → Document → Option Membership → Bool
unfolding sales_document_queryset_for
can_view_sales_document table documents user document membership =
    any (λ d. d.pk == document.pk)
      (sales_document_queryset_for table user (some document.tenant_id) documents membership)

abbrev pub takes_payment : Status → Bool
takes_payment Status.issued = true
takes_payment Status.sent = true
takes_payment Status.partially_paid = true
takes_payment _ = false

unfoldable pub can_record_payment :
    List Membership → List Document → Option User → Document → Option Membership → Bool
can_record_payment table documents user invoice membership =
    if not (is_invoice invoice.document_type)
    then false
    else if not (takes_payment invoice.status)
    then false
    else (let m = or_membership_for table user (some invoice.tenant_id) membership in
        if not (
          has_tenant_permission table user (some invoice.tenant_id)
            PermissionCode.payments_record_own m)
        then false
        else can_view_sales_document table documents user invoice m)

unfoldable pub financial_report_queryset_for :
    List Membership → Option User → Option ℕ → List Document → Option Membership → List Document
financial_report_queryset_for table user tenant queryset membership =
    if not (
      has_tenant_permission table user tenant PermissionCode.finance_sales_reports_view
        (or_membership_for table user tenant membership))
    then []
    else filter (λ d. same_tenant d.tenant_id tenant) queryset
