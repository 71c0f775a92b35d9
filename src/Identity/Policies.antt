-- ===== src/Identity/Policies.antt =====
-- domain/policies/tenant_policy.py and domain/policies/sessions.py of
-- apps/identity-service. Instants and spans are counted in microseconds.
use bu_vi.Base.{
  ℕ, ◌+◌, ◌-◌, ◌*◌, ◌≡◌, refl, String, Bool, true, false, ◌&&◌, ◌||◌, Option, none, some, List, [],
  ◌∷◌, ◌++◌, arith, leb, if◌then◌else◌, ◌=s◌, has, has-append, any, has-if, =s_sym,
}
use bu_vi.Auth.Permissions.{
  permissions_for_roles, role_permissions, has-permissions_for_roles, wildcard_role,
}

-- `Policies`
pub record Policies : Type 0 where
  pub client_can_share_dashboards : Bool
  pub developer_can_manage_mcp : Bool
  pub org_admin_requires_webauthn : Bool

abbrev pub default_policies : Policies
default_policies = record {
  client_can_share_dashboards = false;
  developer_can_manage_mcp = false;
  org_admin_requires_webauthn = false;
}

unfoldable pub effective_permissions : List String → Policies → List String
effective_permissions roles policies =
    permissions_for_roles roles
    ++ (if policies.client_can_share_dashboards && has "client" roles
        then "dashboard:share" ∷ []
        else [])
    ++ (if policies.developer_can_manage_mcp && has "developer" roles
        then "mcp:manage" ∷ []
        else [])

unfoldable pub webauthn_required : List String → Policies → List String → Bool
webauthn_required roles policies permissions =
    if has "platform_super_admin" roles || has "platform:*" permissions
    then true
    else policies.org_admin_requires_webauthn && has "org_admin" roles

-- Under any tenant policies, a caller holds a permission exactly when one of the roles carries it,
-- or it is `dashboard:share` and a client's tenant lets clients share, or it is `mcp:manage` and a
-- developer's tenant lets developers manage MCP.
pub has-effective_permissions :
    (p : String) (roles : List String) (policies : Policies)
    → has p (effective_permissions roles policies) ≡ (
        any (λ key. has p (role_permissions key)) roles
        || p =s "dashboard:share" && (policies.client_can_share_dashboards && has "client" roles)
        || p =s "mcp:manage" && (policies.developer_can_manage_mcp && has "developer" roles))
unfolding effective_permissions
has-effective_permissions p roles policies =
    simp (has-append, has-if, has-permissions_for_roles) (unfold has in ground arith)

wildcard-roles :
    (roles : List String)
    → any (λ key. has "platform:*" (role_permissions key)) roles ≡ has "platform_super_admin" roles
unfolding has
wildcard-roles [] = refl
wildcard-roles (key ∷ roles) =
    rw (wildcard_role key, wildcard-roles roles, =s_sym key "platform_super_admin")

-- No tenant policy gives the platform wildcard: under any policies a caller holds it exactly when
-- one of the roles is `platform_super_admin`.
pub effective_permissions-wildcard :
    (roles : List String) (policies : Policies)
    → has "platform:*" (effective_permissions roles policies) ≡ has "platform_super_admin" roles
effective_permissions-wildcard roles policies =
    rw (has-effective_permissions, wildcard-roles) (ground arith)

-- `SessionLifetime`
pub record SessionLifetime : Type 0 where
  pub idle_timeout : ℕ
  pub absolute_lifetime : ℕ

unfoldable pub from_hours_and_days : ℕ → ℕ → SessionLifetime
from_hours_and_days idle_hours absolute_days = record {
  idle_timeout = idle_hours * 3600000000;
  absolute_lifetime = absolute_days * 86400000000;
}

unfoldable pub absolute_expiry : ℕ → SessionLifetime → ℕ
absolute_expiry created_at lifetime = created_at + lifetime.absolute_lifetime

-- `is_expired`; a session last seen after `now` is not idle, unless the timeout is 0.
unfoldable pub is_expired : ℕ → ℕ → ℕ → Option ℕ → SessionLifetime → Bool
is_expired now last_seen_at expires_at (some _) lifetime = true
is_expired now last_seen_at expires_at none lifetime =
    if leb expires_at now then true else leb lifetime.idle_timeout (now - last_seen_at)
