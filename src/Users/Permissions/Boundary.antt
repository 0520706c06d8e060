-- ===== src/Users/Permissions/Boundary.antt =====
-- The boundary of users/permissions.py: what a role and its grants can and cannot confer.
use internet_ms.Base.{
  String, ap, ◌∙◌, ◌≡◌, refl, Bool, true, false, not, ◌&&◌, ◌||◌, some, List, [], ◌∷◌, ◌++◌, arith,
  str_eq, eq_iff, all, filter, ℕ, Option, any-append, find-satisfies, find-All, All-Mem, Mem, none,
  ◌⊎◌, inl, inr, Bool-cases, Option-cases,
}
use internet_ms.Users.Models.{BaseRole, Membership, User, is_super_admin, is_admin_manager}
use internet_ms.Users.PermissionSets.{
  manager_finance_permissions, platform_permissions, sales_baseline, technician_baseline,
  work_report_management_permissions, tenant_operation_permissions, delegable_permissions,
}
use internet_ms.Users.Permissions.{
  contains, granted_codes, role_permissions, permissions_for_membership, membership_for,
  has_tenant_permission, holds,
}

pub contains-append :
    (xs ys : List String) (c : String) → contains (xs ++ ys) c ≡ (contains xs c || contains ys c)
unfolding contains
contains-append xs ys c = any-append (str_eq c) xs ys

-- A test that holds of every member holds of each code in the set.
pub contains-all :
    (p : String → Bool) (xs : List String) (c : String)
    → all p xs ≡ true
    → contains xs c ≡ true
    → p c ≡ true
unfolding contains
contains-all p [] c a h = cc
contains-all p (x ∷ xs) c a h = elim (Bool-cases (str_eq c x)) [
  | inl e ↦ ground (arith, (eq_iff c x).0 e)
  | inr e ↦ ground (arith, contains-all p xs c)
]

pub contains-filter :
    (p : String → Bool) (xs : List String) (c : String)
    → contains (filter p xs) c ≡ (contains xs c && p c)
unfolding contains
contains-filter p [] c = refl
contains-filter p (x ∷ xs) c = elim (Bool-cases (str_eq c x)) [
  | inl e ↦ ground (arith, contains-filter p xs c, (eq_iff c x).0 e)
  | inr e ↦ ground (arith, contains-filter p xs c)
]

-- The codes that no delegation may confer.
unfoldable pub reserved : List String
unfolding manager_finance_permissions platform_permissions work_report_management_permissions
reserved = manager_finance_permissions ++ platform_permissions ++ work_report_management_permissions

-- A role's own codes, with no grant.
unfoldable pub baseline : BaseRole → List String
baseline BaseRole.sales = sales_baseline
baseline BaseRole.technician = technician_baseline
baseline _ = []

abbrev pub is_manager : BaseRole → Bool
is_manager r = is_super_admin r || is_admin_manager r

abbrev pub outside : List String → String → Bool
outside codes c = not (contains codes c)

pub delegable-reserved : all (outside reserved) delegable_permissions ≡ true
unfolding reserved delegable_permissions contains
delegable-reserved = refl

sales-reserved : all (outside reserved) sales_baseline ≡ true
unfolding reserved sales_baseline contains
sales-reserved = refl

technician-reserved : all (outside reserved) technician_baseline ≡ true
unfolding reserved technician_baseline contains
technician-reserved = refl

operations-platform : all (outside platform_permissions) tenant_operation_permissions ≡ true
unfolding platform_permissions tenant_operation_permissions contains
operations-platform = refl

role_exact :
    (r : BaseRole) (grants : List String) (c : String)
    → is_manager r ≡ false
    → contains (role_permissions r grants) c
      ≡ (contains (baseline r) c || (contains grants c && contains delegable_permissions c))
unfolding role_permissions baseline
role_exact BaseRole.super_admin grants c h = cc
role_exact BaseRole.admin_manager grants c h = cc
role_exact BaseRole.sales grants c h = simp (contains-append, contains-filter)
role_exact BaseRole.technician grants c h = simp (contains-append, contains-filter)
role_exact BaseRole.other grants c h = unfold contains in contains-filter _ grants c

contains-permissions :
    (m : Membership) (c : String)
    → contains (permissions_for_membership (some m)) c
      ≡ (m.is_active && contains (role_permissions m.base_role (granted_codes m)) c)
unfolding permissions_for_membership contains
contains-permissions m c = elim (Bool-cases m.is_active) [ inl e ↦ rw e | inr e ↦ rw e ]

baseline-reserved :
    (r : BaseRole) (c : String) → contains reserved c ≡ true → contains (baseline r) c ≡ false
unfolding baseline
baseline-reserved BaseRole.super_admin c h = unfold contains in refl
baseline-reserved BaseRole.admin_manager c h = unfold contains in refl
baseline-reserved BaseRole.other c h = unfold contains in refl
baseline-reserved BaseRole.sales c h =
    ground (arith, contains-all (outside reserved) sales_baseline c sales-reserved)
baseline-reserved BaseRole.technician c h =
    ground (arith, contains-all (outside reserved) technician_baseline c technician-reserved)

-- A member who is no manager holds exactly the codes of the role, and of the granted codes those
-- that may be delegated; an inactive one holds none.
pub permissions_exact :
    (m : Membership) (c : String)
    → is_manager m.base_role ≡ false
    → contains (permissions_for_membership (some m)) c ≡ (
        m.is_active
        && (contains (baseline m.base_role) c
            || (contains (granted_codes m) c && contains delegable_permissions c)))
permissions_exact m c h =
    contains-permissions m c
    ∙ ap (λ b. m.is_active && b) (role_exact m.base_role (granted_codes m) c h)

-- A code that only managers may hold is never held by another member, whatever the grants in the
-- database say.
pub reserved_never_held :
    (m : Membership) (c : String)
    → is_manager m.base_role ≡ false
    → contains reserved c ≡ true
    → contains (permissions_for_membership (some m)) c ≡ false
reserved_never_held m c h r = rw (permissions_exact m c h) (
    ground (
      arith,
      baseline-reserved m.base_role c,
      contains-all (outside reserved) delegable_permissions c delegable-reserved,
    ))

manager_codes :
    (grants : List String) (c : String)
    → contains (role_permissions BaseRole.admin_manager grants) c
      ≡ contains tenant_operation_permissions c
unfolding role_permissions
manager_codes grants c = refl

super_codes :
    (grants : List String) (c : String)
    → contains (role_permissions BaseRole.super_admin grants) c
      ≡ (contains tenant_operation_permissions c || contains platform_permissions c)
unfolding role_permissions
super_codes grants c = contains-append tenant_operation_permissions platform_permissions c

-- An Administrator / Manager never holds a platform permission, and holds no more than a Super
-- Administrator does.
pub manager_below_super :
    (m s : Membership) (c : String)
    → m.base_role ≡ BaseRole.admin_manager
    → s.base_role ≡ BaseRole.super_admin
    → s.is_active ≡ true
    → contains (permissions_for_membership (some m)) c ≡ true
    → (contains (permissions_for_membership (some s)) c ≡ true)
      × (contains platform_permissions c ≡ false)
manager_below_super m s c hm hs active held = ground (
  arith,
  contains-permissions m c,
  contains-permissions s c,
  ap (λ r. contains (role_permissions r (granted_codes m)) c) hm,
  ap (λ r. contains (role_permissions r (granted_codes s)) c) hs,
  manager_codes (granted_codes m) c,
  super_codes (granted_codes s) c,
  contains-all (outside platform_permissions) tenant_operation_permissions c operations-platform,
)

-- The row that `membership_for` finds is in the table, active, and of this user and tenant.
pub membership_for_lem :
    (table : List Membership) (u : User) (t : ℕ) (m : Membership)
    → membership_for table (some u) (some t) ≡ some m
    → Mem m table × (m.user_id ≡ u.pk) × (m.tenant_id ≡ t) × (m.is_active ≡ true)
unfolding membership_for
membership_for_lem table u t m h = elim (Bool-cases u.is_authenticated) [
  | inl known ↦
      let found = rw known at h in
      let passes = find-satisfies _ table m found in
      (
        find-All (λ x. Mem x table) _ table m (All-Mem table) found,
        ground (arith, passes),
        ground (arith, passes),
        ground (arith, passes),
      )
  | inr anonymous ↦ cc (rw anonymous at h)
]

active_of_contains :
    (m : Membership) (code : String)
    → contains (permissions_for_membership (some m)) code ≡ true
    → m.is_active ≡ true
active_of_contains m code h = ground (arith, contains-permissions m code)

holds_sound :
    (t : ℕ) (code : String) (m : Membership)
    → holds (some t) code (some m) ≡ true
    → ((m.tenant_id ≡ t) ⊎ (m.base_role ≡ BaseRole.super_admin))
      × (m.is_active ≡ true)
      × (contains (permissions_for_membership (some m)) code ≡ true)
holds_sound t code m h = ground (arith, active_of_contains m code)

-- A permission that is granted with no membership given comes from an active row of the table, the user's in
-- the tenant, and a membership that is given counts only in its own tenant or for a Super Administrator.
pub has_tenant_permission_sound :
    (table : List Membership) (u : User) (t : ℕ) (code : String) (given : Option Membership)
    → has_tenant_permission table (some u) (some t) code given ≡ true
    → (m : Membership) × ((given ≡ some m)
        ⊎ ((given ≡ none) × Mem m table × (m.user_id ≡ u.pk) × (m.tenant_id ≡ t)))
      × ((m.tenant_id ≡ t) ⊎ (m.base_role ≡ BaseRole.super_admin))
      × (m.is_active ≡ true)
      × (contains (permissions_for_membership (some m)) code ≡ true)
unfolding has_tenant_permission
has_tenant_permission_sound table u t code (some m) h =
    let sound = holds_sound t code m h in (m, inl refl, sound.0, sound.1, sound.2)
has_tenant_permission_sound table u t code none h =
    elim (Option-cases (membership_for table (some u) (some t))) [
      | inl missing ↦ cc (rw missing at h)
      | inr (m, found) ↦
          let sound = holds_sound t code m (rw found at h) in
          let row = membership_for_lem table u t m found in
          (m, inr (refl, row.0, row.1, row.2), sound.0, sound.1, sound.2)
    ]
