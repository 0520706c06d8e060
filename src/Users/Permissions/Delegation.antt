-- ===== src/Users/Permissions/Delegation.antt =====
-- Which delegations are accepted: users/permissions.py, `validate_delegated_grant`.
use internet_ms.Base.{String, ◌≡◌, ◌≢◌, true, false, none, arith}
use internet_ms.Users.PermissionSets.{delegable_permissions}
use internet_ms.Users.Models.{BaseRole, Membership, Scope, is_super_admin}
use internet_ms.Users.Permissions.{contains, validate_delegated_grant}
use internet_ms.Users.Permissions.Boundary.{reserved, contains-all, delegable-reserved, outside}

granted_code-delegable :
    (actor target : Membership) (code : String) (scope : Scope)
    → validate_delegated_grant actor target code scope ≡ none
    → contains delegable_permissions code ≡ true
unfolding validate_delegated_grant
granted_code-delegable actor target code scope h = ground arith

accepted :
    (actor target : Membership) (code : String) (scope : Scope)
    → validate_delegated_grant actor target code scope ≡ none
    → (actor.base_role ≡ BaseRole.admin_manager)
      × (actor.tenant_id ≡ target.tenant_id)
      × (actor.pk ≢ target.pk)
      × (is_super_admin target.base_role ≡ false)
unfolding validate_delegated_grant
accepted actor target code scope h = (ground arith, ground arith, ground arith, ground arith)

-- An accepted delegation comes from an Administrator / Manager of the target's tenant who is not the
-- target, and its code is neither a finance nor a platform permission.
pub delegation_sound :
    (actor target : Membership) (code : String) (scope : Scope)
    → validate_delegated_grant actor target code scope ≡ none
    → (actor.base_role ≡ BaseRole.admin_manager)
      × (actor.tenant_id ≡ target.tenant_id)
      × (actor.pk ≢ target.pk)
      × (is_super_admin target.base_role ≡ false)
      × (contains reserved code ≡ false)
delegation_sound actor target code scope h =
    let given = accepted actor target code scope h in
    (
      given.0,
      given.1,
      given.2,
      given.3,
      ground (
        arith,
        contains-all (outside reserved) delegable_permissions code delegable-reserved,
        granted_code-delegable actor target code scope h,
      ),
    )
