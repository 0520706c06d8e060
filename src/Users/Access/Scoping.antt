-- ===== src/Users/Access/Scoping.antt =====
-- Tenant isolation of users/permissions.py: what a request may reach.
use internet_ms.Base.{
  ℕ, String, ◌≡◌, ◌⊎◌, inl, inr, true, false, Option, some, List, [], arith, All, All-map, All-both,
  All-Mem, Mem, any-All, All-filter, All-filter_keep, filter, Bool-cases, Option-cases,
}
use internet_ms.Base.Result.{ok}
use internet_ms.Billing.Models.{Document, DocumentType}
use internet_ms.Users.PermissionCode
use internet_ms.Users.Models.{Membership, User, is_sales, is_technician}
use internet_ms.Users.Permissions.{same_tenant, has_tenant_permission}
use internet_ms.Users.Permissions.Boundary.{is_manager}
use internet_ms.Users.Access.{
  Request, present, require_permission, sales_document_queryset_for, is_own, can_record_payment,
  can_view_sales_document, visible_to, takes_payment,
}

same_tenant_lem : (a : ℕ) (t : ℕ) → same_tenant a (some t) ≡ true → a ≡ t
same_tenant_lem a t h = ground arith

in_tenant :
    (t : ℕ) (documents : List Document)
    → All (λ d. d.tenant_id ≡ t) (filter (λ d. same_tenant d.tenant_id (some t)) documents)
in_tenant t documents = All-filter _ _ documents (λ d e. same_tenant_lem d.tenant_id t e)

-- What a member who is given may see of a tenant's document.
abbrev pub MaySee : ℕ → Membership → Document → Type 0
MaySee t m d = (d.tenant_id ≡ t) × ((is_manager m.base_role ≡ true) ⊎ (is_own m d ≡ true))

visible_to-MaySee :
    (t : ℕ) (m : Membership) (rows : List Document)
    → All (λ d. d.tenant_id ≡ t) rows
    → All (MaySee t m) (visible_to (some m) rows)
visible_to-MaySee t m rows h = elim (Bool-cases (is_manager m.base_role)) [
  | inl manager ↦ rw manager (All-map (λ d. d.tenant_id ≡ t) _ rows (λ d e. (e, inl manager)) h)
  | inr staff ↦ rw staff (elim (Bool-cases (is_sales m.base_role)) [
    | inl sales ↦ rw sales (
        All-both (λ d. d.tenant_id ≡ t) _ _ (All-filter_keep _ (is_own m) rows h)
          (All-filter _ (is_own m) rows (λ d e. inr e)))
    | inr others ↦ rw others tt
  ])
]

-- What all rows are, those that are shown are.
visible_to-keeps {κ} :
    (P : Document → Type κ) (m : Membership) (rows : List Document)
    → All P rows
    → All P (visible_to (some m) rows)
visible_to-keeps P m rows h = elim (Bool-cases (is_manager m.base_role)) [
  | inl manager ↦ rw manager h
  | inr staff ↦ rw staff (elim (Bool-cases (is_sales m.base_role)) [
    | inl sales ↦ rw sales (All-filter_keep P (is_own m) rows h)
    | inr others ↦ rw others tt
  ])
]

-- The rows of a sales-document query belong to the tenant asked for, and for a member who is given
-- and is no manager they are the member's own.
pub sales_documents_scoped :
    (table : List Membership) (user : Option User) (t : ℕ) (documents : List Document)
    (m : Membership)
    → All
        (λ d. (d.tenant_id ≡ t) × ((is_manager m.base_role ≡ true) ⊎ (is_own m d ≡ true)))
        (sales_document_queryset_for table user (some t) documents (some m))
unfolding sales_document_queryset_for
sales_documents_scoped table user t documents m = visible_to-MaySee t m _ (in_tenant t documents)

technician_sees_none :
    (m : Membership) (rows : List Document)
    → is_technician m.base_role ≡ true
    → visible_to (some m) rows ≡ []
technician_sees_none m rows h = ground arith

viewed :
    (table : List Membership) (documents : List Document) (user : Option User) (invoice : Document)
    (m : Membership)
    → can_view_sales_document table documents user invoice (some m) ≡ true
    → (d : Document) × Mem d documents
      × (d.pk ≡ invoice.pk)
      × (d.tenant_id ≡ invoice.tenant_id)
      × ((is_manager m.base_role ≡ true) ⊎ (is_own m d ≡ true))
unfolding can_view_sales_document
viewed table documents user invoice m h =
    let shown =
      All-both (λ d. Mem d documents) (MaySee invoice.tenant_id m) _
        (visible_to-keeps (λ d. Mem d documents) m _
          (All-filter_keep (λ d. Mem d documents) _ documents (All-Mem documents)))
        (visible_to-MaySee invoice.tenant_id m _ (in_tenant _ documents)) in
    let (d, same, (there, seen)) = any-All _ _ _ shown h in
    (d, there, ground (arith, same), seen.0, seen.1)

technician_views_none :
    (table : List Membership) (documents : List Document) (user : Option User) (invoice : Document)
    (m : Membership)
    → can_view_sales_document table documents user invoice (some m) ≡ true
    → is_technician m.base_role ≡ false
unfolding can_view_sales_document
technician_views_none table documents user invoice m h =
    elim (Bool-cases (is_technician m.base_role)) [
      | inl technician ↦ cc (rw (technician_sees_none m _ technician) at h)
      | inr others ↦ others
    ]

-- A member who may record a payment for an invoice is no Technician, holds the permission in an
-- open invoice's tenant, and is a manager or made or answers for a document of the table, of that tenant and
-- with the invoice's key.
pub can_record_payment_sound :
    (table : List Membership) (documents : List Document) (user : Option User) (invoice : Document)
    (m : Membership)
    → can_record_payment table documents user invoice (some m) ≡ true
    → (invoice.document_type ≡ DocumentType.invoice)
      × (takes_payment invoice.status ≡ true)
      × (is_technician m.base_role ≡ false)
      × (has_tenant_permission table user
            (some invoice.tenant_id)
            PermissionCode.payments_record_own
            (some m)
          ≡ true)
      × ((d : Document) × Mem d documents
          × (d.pk ≡ invoice.pk)
          × (d.tenant_id ≡ invoice.tenant_id)
          × ((is_manager m.base_role ≡ true) ⊎ (is_own m d ≡ true)))
unfolding can_record_payment
can_record_payment_sound table documents user invoice m h = (
  ground arith,
  ground arith,
  technician_views_none table documents user invoice m (ground arith),
  ground arith,
  viewed table documents user invoice m (ground arith),
)

-- A request that `require_permission` lets through for an object with a tenant has that tenant, and
-- the permission in it.
pub require_permission_sound :
    (table : List Membership) (request : Request) (code : String) (owner : Option ℕ)
    → require_permission table request code (some (present owner)) ≡ ok true
    → (t : ℕ) × (request.tenant ≡ some t)
      × (owner ≡ some t)
      × (has_tenant_permission table request.user (some t) code request.membership ≡ true)
unfolding require_permission
require_permission_sound table request code owner h = elim (Option-cases request.tenant) [
  | inl missing ↦ cc (rw missing at h)
  | inr (t, found) ↦ (t, found, ground arith, ground arith)
]
