-- ===== src/Users/Models.antt =====
-- users/models.py: the rows that the permission checks read.
use internet_ms.Base.{ℕ, String, Bool, true, false, Option, none, some, List, ◌==◌}
use internet_ms.Base.Int.{ℤ}

-- `TenantMembership.BaseRole`; `other` is any text in the column that is no choice.
pub data BaseRole : Type 0 where
  super_admin admin_manager sales technician other : BaseRole

pub data Scope : Type 0 where
  own assigned tenant_all : Scope

-- `TenantPermissionGrant`: the percentage in hundredths of a percent, the amount in cents.
pub record Grant : Type 0 where
  pub action_code : String
  pub scope : Scope
  pub max_discount_percent : Option ℤ
  pub max_discount_amount : Option ℤ

-- `TenantMembership`, with its `permission_grants` rows.
pub record Membership : Type 0 where
  pub pk : ℕ
  pub tenant_id : ℕ
  pub user_id : ℕ
  pub base_role : BaseRole
  pub is_active : Bool
  pub permission_grants : List Grant

pub record User : Type 0 where
  pub pk : ℕ
  pub is_authenticated : Bool

abbrev pub is_super_admin : BaseRole → Bool
is_super_admin BaseRole.super_admin = true
is_super_admin _ = false

abbrev pub is_admin_manager : BaseRole → Bool
is_admin_manager BaseRole.admin_manager = true
is_admin_manager _ = false

abbrev pub is_sales : BaseRole → Bool
is_sales BaseRole.sales = true
is_sales _ = false

abbrev pub is_technician : BaseRole → Bool
is_technician BaseRole.technician = true
is_technician _ = false

-- `==` on the primary keys of two nullable foreign keys
abbrev pub same_key : Option ℕ → Option ℕ → Bool
same_key none none = true
same_key (some a) (some b) = a == b
same_key _ _ = false

abbrev pub is_tenant_all : Scope → Bool
is_tenant_all Scope.tenant_all = true
is_tenant_all _ = false
