-- ===== src/Users/Permissions.antt =====
-- users/permissions.py: which action codes a membership holds, and the checks built on them.
-- The `TenantMembership` table is a list of rows; `none` stands for Python's `None`.
pub mod Boundary
pub mod Discounts
pub mod Delegation
use internet_ms.Base.{
  ℕ, String, Bool, true, false, not, ◌&&◌, ◌||◌, Option, none, some, List, [], ◌∷◌, ◌++◌, map,
  str_eq, any, filter, find, ◌==◌, if◌then◌else◌,
}
use internet_ms.Base.Int.{ℤ, pos, ◌*ℤ◌, leb_ℤ, eq_ℤ, min_ℤ, max_ℤ}
use internet_ms.Base.Decimal.{round_half_up}
use internet_ms.Users.PermissionCode
use internet_ms.Users.PermissionSets.{
  manager_finance_permissions, platform_permissions, sales_baseline, technician_baseline,
  tenant_operation_permissions, delegable_permissions,
}
use internet_ms.Users.Models.{
  BaseRole, Scope, Grant, Membership, User, is_super_admin, is_admin_manager, is_sales,
  is_technician, is_tenant_all,
}

-- `code in codes`
unfoldable pub contains : List String → String → Bool
contains codes code = any (str_eq code) codes

-- `user is None or not user.is_authenticated`
abbrev pub is_anonymous : Option User → Bool
is_anonymous none = true
is_anonymous (some u) = not u.is_authenticated

abbrev pub same_tenant : ℕ → Option ℕ → Bool
same_tenant tenant_id none = false
same_tenant tenant_id (some t) = tenant_id == t

abbrev pub is_user : ℕ → Option User → Bool
is_user user_id none = false
is_user user_id (some u) = user_id == u.pk

unfoldable pub membership_for : List Membership → Option User → Option ℕ → Option Membership
membership_for table user tenant =
    if is_anonymous user
    then none
    else find (λ m. is_user m.user_id user && same_tenant m.tenant_id tenant && m.is_active) table

abbrev pub granted_codes : Membership → List String
granted_codes m = map (λ g. g.action_code) m.permission_grants

-- The branches on the role of `permissions_for_membership`.
unfoldable pub role_permissions : BaseRole → List String → List String
role_permissions BaseRole.super_admin grants = tenant_operation_permissions ++ platform_permissions
role_permissions BaseRole.admin_manager grants = tenant_operation_permissions
role_permissions BaseRole.sales grants =
    sales_baseline ++ filter (contains delegable_permissions) grants
role_permissions BaseRole.technician grants =
    technician_baseline ++ filter (contains delegable_permissions) grants
role_permissions BaseRole.other grants = filter (contains delegable_permissions) grants

unfoldable pub permissions_for_membership : Option Membership → List String
permissions_for_membership none = []
permissions_for_membership (some m) =
    if not m.is_active then [] else role_permissions m.base_role (granted_codes m)

-- `membership or membership_for(user, tenant)`
abbrev pub or_membership_for :
    List Membership → Option User → Option ℕ → Option Membership → Option Membership
or_membership_for table user tenant (some m) = some m
or_membership_for table user tenant none = membership_for table user tenant

abbrev pub holds : Option ℕ → String → Option Membership → Bool
holds tenant action_code none = false
holds tenant action_code (some m) =
    if not (is_super_admin m.base_role) && not (same_tenant m.tenant_id tenant)
    then false
    else contains (permissions_for_membership (some m)) action_code

unfoldable pub has_tenant_permission :
    List Membership → Option User → Option ℕ → String → Option Membership → Bool
has_tenant_permission table user tenant action_code membership =
    holds tenant action_code (or_membership_for table user tenant membership)

unfoldable pub permission_grant_for : Option Membership → String → Option Grant
permission_grant_for none action_code = none
permission_grant_for (some m) action_code =
    if is_super_admin m.base_role || is_admin_manager m.base_role
    then none
    else find (λ g. str_eq g.action_code action_code) m.permission_grants

-- The limits of a grant, in ten-thousandths of a cent: a percentage is exact at that scale.
abbrev pub percent_limit : ℤ → Option ℤ → List ℤ
percent_limit gross none = []
percent_limit gross (some percent) = gross *ℤ percent ∷ []

abbrev pub amount_limit : Option ℤ → List ℤ
amount_limit none = []
amount_limit (some amount) = amount *ℤ pos 10000 ∷ []

-- `min(limits) if limits else 0`
abbrev pub min_or_zero : List ℤ → ℤ
min_or_zero [] = pos 0
min_or_zero (x ∷ []) = x
min_or_zero (x ∷ y ∷ r) = min_ℤ x (min_or_zero (y ∷ r))

abbrev pub grant_cap : ℤ → Option Grant → ℤ
grant_cap gross none = pos 0
grant_cap gross (some g) =
    round_half_up
      (max_ℤ
        (min_or_zero
          (percent_limit gross g.max_discount_percent ++ amount_limit g.max_discount_amount))
        (pos 0))
      10000

-- `none` means unlimited.
unfoldable pub maximum_discount_for : Option Membership → ℤ → Option ℤ
maximum_discount_for none gross = some (pos 0)
maximum_discount_for (some m) gross =
    if not m.is_active
    then some (pos 0)
    else if is_super_admin m.base_role || is_admin_manager m.base_role
    then none
    else if not (contains (permissions_for_membership (some m)) PermissionCode.cart_discount_apply)
    then some (pos 0)
    else some (
        grant_cap (max_ℤ gross (pos 0))
          (permission_grant_for (some m) PermissionCode.cart_discount_apply))

pub data DiscountError : Type 0 where
  no_permission : DiscountError
  above_limit : ℤ → DiscountError

abbrev pub over_limit : Option Membership → ℤ → Option ℤ → Option DiscountError
over_limit membership total_discount none = none
over_limit membership total_discount (some permitted) =
    if leb_ℤ total_discount permitted
    then none
    else if eq_ℤ permitted (pos 0)
        && not (contains (permissions_for_membership membership) PermissionCode.cart_discount_apply)
    then some no_permission
    else some (above_limit permitted)

unfoldable pub discount_authorization_error : Option Membership → ℤ → ℤ → Option DiscountError
discount_authorization_error membership gross_subtotal total_discount =
    if leb_ℤ total_discount (pos 0)
    then none
    else over_limit membership total_discount (maximum_discount_for membership gross_subtotal)

-- The memberships are the user's own active rows.
unfoldable pub user_has_permission : List Membership → User → String → Bool
user_has_permission table user permission =
    any (λ m. contains (permissions_for_membership (some m)) permission)
      (filter (λ m. m.user_id == user.pk && m.is_active) table)

-- The reasons of `PermissionDenied` in `validate_delegated_grant`, in order.
pub data GrantError : Type 0 where
  own_access cross_tenant not_manager platform_managed not_delegable tenant_scope : GrantError

-- `none` where the function returns.
unfoldable pub validate_delegated_grant :
    Membership → Membership → String → Scope → Option GrantError
validate_delegated_grant actor target action_code scope =
    if actor.pk == target.pk
    then some own_access
    else if not (actor.tenant_id == target.tenant_id)
    then some cross_tenant
    else if not (is_admin_manager actor.base_role)
    then some not_manager
    else if is_super_admin target.base_role
    then some platform_managed
    else if not (contains delegable_permissions action_code)
        || contains (manager_finance_permissions ++ platform_permissions) action_code
    then some not_delegable
    else if (is_sales target.base_role || is_technician target.base_role) && is_tenant_all scope
    then some tenant_scope
    else none
