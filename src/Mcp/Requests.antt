-- ===== src/Mcp/Requests.antt =====
-- application/services/registry.py of apps/mcp-gateway: grants of tools, and the registry over a sequence of
-- requests in which the calls of live servers interleave.
use bu_vi.Base.{
  ℕ, ◌-◌, String, Bool, true, false, not, ◌&&◌, Option, none, some, List, [], ◌∷◌, any,
  if◌then◌else◌, ◌=s◌, ◌==◌, has, Result, ok, err, guard, ◌>>=◌, ◌>>◌,
}
use bu_vi.Auth.Permissions.{tenant_roles}
use bu_vi.Mcp.ToolPolicy.{needs_step_up}
use bu_vi.Mcp.Registry.{
  ToolRow, GrantRow, tool_granted, grant_revoked, Registry, RegistryError, tool_not_found,
  step_up_needed, grant_exists, grant_not_found, grant_invalid, unknown_role, NewServer, register,
  Approval, begin_approval, Discovery, finish_approval, disable, reject, Answer,
}

-- `tool`
unfoldable pub find_tool : String → String → List ToolRow → Option ToolRow
find_tool server name [] = none
find_tool server name (t ∷ ts) =
    if t.server_id =s server && t.tool_name =s name then some t else find_tool server name ts

abbrev pub same_name : Option String → Option String → Bool
same_name none none = true
same_name (some x) (some y) = x =s y
same_name _ _ = false

-- Whether a grant is one of a tool to a grantee.
unfoldable pub is_grant_of : String → Option String → Option String → GrantRow → Bool
is_grant_of tool role user g =
    g.tool_id =s tool && (same_name g.grantee_role role && same_name g.grantee_user_id user)

-- the first two checks of `grant`
unfoldable pub check_grantee : Option String → Option String → Result RegistryError (Unit {0})
check_grantee none none = err grant_invalid
check_grantee (some role) (some user) = err grant_invalid
check_grantee none (some user) = ok tt
check_grantee (some role) none = guard (has role tenant_roles) unknown_role

-- What `grant` is asked: the grantee, the id of the row, the granting user and the step-up.
pub record NewGrant : Type 0 where
  pub id : String
  pub server_id : String
  pub tool_name : String
  pub role : Option String
  pub user : Option String
  pub granted_by : String
  pub step_up_fresh : Bool

unfoldable pub tool_or : Option ToolRow → Result RegistryError ToolRow
tool_or none = err tool_not_found
tool_or (some t) = ok t

-- `grant` up to its insertion
unfoldable pub permit_grant : NewGrant → Registry → Result RegistryError ToolRow
permit_grant g r =
    check_grantee g.role g.user
    >> (tool_or (find_tool g.server_id g.tool_name r.tools) >>= λ t.
        guard (not (needs_step_up t.tool_class && not g.step_up_fresh)) step_up_needed
        >> (guard (not (any (is_grant_of t.id g.role g.user) r.grants)) grant_exists >> ok t))

unfoldable pub grant_row : NewGrant → ToolRow → GrantRow
grant_row g t = record {
  id = g.id;
  tool_id = t.id;
  grantee_role = g.role;
  grantee_user_id = g.user;
  granted_by = g.granted_by;
}

abbrev pub granted_or : NewGrant → Registry → Result RegistryError ToolRow → Answer
granted_or g r (err e) = (err e, r)
granted_or g r (ok t) =
    (ok tt, record r { grants = grant_row g t ∷ r.grants; audits = tool_granted g.id ∷ r.audits })

-- `grant`
unfoldable pub grant : NewGrant → Registry → Answer
grant g r = granted_or g r (permit_grant g r)

-- `delete_grant`
unfoldable pub is_deleted : String → String → GrantRow → Bool
is_deleted tool id g = g.id =s id && g.tool_id =s tool

unfoldable pub delete_grant : String → String → List GrantRow → List GrantRow
delete_grant tool id [] = []
delete_grant tool id (g ∷ gs) =
    let rest = delete_grant tool id gs in if is_deleted tool id g then rest else g ∷ rest

abbrev pub revoked_or : String → Registry → Option ToolRow → Answer
revoked_or id r none = (err tool_not_found, r)
revoked_or id r (some t) =
    if any (is_deleted t.id id) r.grants
    then (
      ok tt,
      record r { grants = delete_grant t.id id r.grants; audits = grant_revoked id ∷ r.audits },
    )
    else (err grant_not_found, r)

-- `revoke`
unfoldable pub revoke_grant : String → String → String → Registry → Answer
revoke_grant server name id r = revoked_or id r (find_tool server name r.tools)

-- A request, or one of the two parts of an approval: the second is that of the approval that began at a
-- place in the list of those under way.
pub data Request : Type 0 where
  registers : NewServer → (user : String) → Request
  begins_approval : (id : String) → (endpoint_allowed has_secret : Bool) → Request
  finishes_approval : (place : ℕ) → Discovery → (user : String) → Request
  disables rejects : (id : String) → Request
  grants_tool : NewGrant → Request
  revokes_grant : (server name id : String) → Request

-- The rows, and the approvals that wait for the answer of a live server.
pub record System : Type 0 where
  pub registry : Registry
  pub under_way : List Approval

unfoldable pub approval_at : ℕ → List Approval → Option Approval
approval_at n [] = none
approval_at n (a ∷ approvals) = if n == 0 then some a else approval_at (n - 1) approvals

abbrev pub begun : Result RegistryError Approval → System → System
begun (err e) s = s
begun (ok a) s = record s { under_way = a ∷ s.under_way }

abbrev pub finished : Option Approval → Discovery → String → System → System
finished none d user s = s
finished (some a) d user s = record s { registry = (finish_approval a d user s.registry).1 }

unfoldable pub handle : Request → System → System
handle (registers new user) s = record s { registry = (register new user s.registry).1 }
handle (begins_approval id endpoint_allowed has_secret) s =
    begun (begin_approval id endpoint_allowed has_secret s.registry) s
handle (finishes_approval place d user) s = finished (approval_at place s.under_way) d user s
handle (disables id) s = record s { registry = (disable id s.registry).1 }
handle (rejects id) s = record s { registry = (reject id s.registry).1 }
handle (grants_tool g) s = record s { registry = (grant g s.registry).1 }
handle (revokes_grant server name id) s = record s {
  registry = (revoke_grant server name id s.registry).1;
}

unfoldable pub after_all : List Request → System → System
after_all [] s = s
after_all (q ∷ qs) s = after_all qs (handle q s)
