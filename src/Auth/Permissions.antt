-- ===== src/Auth/Permissions.antt =====
-- permissions.py of packages/python/platform-auth: roles, permissions and the matrix.
-- A frozenset of texts is a list of texts, read through `has` alone.
use bu_vi.Base.{
  String, ◌≡◌, refl, List, [], ◌∷◌, ◌++◌, arith, if◌then◌else◌, ◌=s◌, has, has-if, =s_exclusive,
  has-append, any,
}

abbrev pub tenant_roles : List String
tenant_roles = "org_admin" ∷ "billing_admin" ∷ "developer" ∷ "client" ∷ "auditor" ∷ []

unfoldable pub all_permissions : List String
all_permissions =
    "chat:use" ∷ "dashboard:read" ∷ "dashboard:pin" ∷ "dashboard:share" ∷ "artifact:read"
    ∷ "sql:execute" ∷ "data:manage" ∷ "catalog:read" ∷ "semantic:manage" ∷ "mcp:manage"
    ∷ "run:debug" ∷ "user:manage" ∷ "role:manage" ∷ "policy:manage" ∷ "billing:read"
    ∷ "billing:manage" ∷ "audit:read" ∷ []

abbrev client_permissions : List String
client_permissions = "chat:use" ∷ "dashboard:read" ∷ "dashboard:pin" ∷ "artifact:read" ∷ []

abbrev developer_permissions : List String
developer_permissions =
    "chat:use" ∷ "dashboard:read" ∷ "dashboard:pin" ∷ "dashboard:share" ∷ "artifact:read"
    ∷ "sql:execute" ∷ "data:manage" ∷ "catalog:read" ∷ "semantic:manage" ∷ "run:debug" ∷ []

abbrev org_admin_permissions : List String
org_admin_permissions =
    "chat:use" ∷ "dashboard:read" ∷ "dashboard:pin" ∷ "dashboard:share" ∷ "artifact:read"
    ∷ "sql:execute" ∷ "data:manage" ∷ "catalog:read" ∷ "semantic:manage" ∷ "mcp:manage"
    ∷ "run:debug" ∷ "user:manage" ∷ "role:manage" ∷ "policy:manage" ∷ "billing:read"
    ∷ "billing:manage" ∷ "audit:read" ∷ []

abbrev auditor_permissions : List String
auditor_permissions =
    "catalog:read" ∷ "dashboard:read" ∷ "artifact:read" ∷ "run:debug" ∷ "audit:read" ∷ []

-- `ROLE_PERMISSIONS.get(key, frozenset())`
unfoldable pub role_permissions : String → List String
role_permissions key =
    if key =s "client"
    then client_permissions
    else if key =s "developer"
    then developer_permissions
    else if key =s "org_admin"
    then org_admin_permissions
    else if key =s "billing_admin"
    then "billing:read" ∷ "billing:manage" ∷ []
    else if key =s "auditor"
    then auditor_permissions
    else if key =s "platform_super_admin"
    then "platform:*" ∷ []
    else if key =s "service_account"
    then []
    else if key =s "guest"
    then "dashboard:read" ∷ []
    else []

-- `permissions_for_roles`: the union over the roles.
unfoldable pub permissions_for_roles : List String → List String
permissions_for_roles [] = []
permissions_for_roles (key ∷ keys) = role_permissions key ++ permissions_for_roles keys

-- A permission is resolved exactly when one of the roles carries it.
pub has-permissions_for_roles :
    (p : String) (keys : List String)
    → has p (permissions_for_roles keys) ≡ any (λ key. has p (role_permissions key)) keys
unfolding permissions_for_roles
has-permissions_for_roles p [] = unfold has in refl
has-permissions_for_roles p (key ∷ keys) = rw (has-append, has-permissions_for_roles p keys)

-- Only `platform_super_admin` carries the wildcard.
pub wildcard_role :
    (key : String) → has "platform:*" (role_permissions key) ≡ (key =s "platform_super_admin")
unfolding role_permissions has
wildcard_role key = simp has-if (
    ground (
      arith,
      =s_exclusive key "client" "platform_super_admin" refl,
      =s_exclusive key "developer" "platform_super_admin" refl,
      =s_exclusive key "org_admin" "platform_super_admin" refl,
      =s_exclusive key "billing_admin" "platform_super_admin" refl,
      =s_exclusive key "auditor" "platform_super_admin" refl,
    ))
