-- ===== src/Mcp/Registry.antt =====
-- application/services/registry.py of apps/mcp-gateway with its statements of
-- infrastructure/db/repositories/mcp_repository.py, over the rows of one tenant. What is returned for the
-- caller to read is not modelled, and neither is the order of a manifest's problems. Endpoints, the secret store and live servers are what a request
-- says of them.
use bu_vi.Base.{
  String, Bool, true, false, not, ◌&&◌, Option, none, some, List, [], ◌∷◌, ◌++◌, map, any,
  if◌then◌else◌, ◌=s◌, has, Result, ok, err,
}
use bu_vi.Mcp.ToolPolicy.{
  Problem, DiscoveredTool, default_policy, manifest_problems, verification_problems,
}

-- `Server`
pub record ServerRow : Type 0 where
  pub id : String
  pub name : String
  pub endpoint_url : String
  pub auth_secret_ref : Option String
  pub status : String
  pub created_by : String
  pub approved_by : Option String

-- `Tool`
pub record ToolRow : Type 0 where
  pub id : String
  pub server_id : String
  pub tool_name : String
  pub tool_class : String
  pub default_policy : String

-- `ToolGrant`
pub record GrantRow : Type 0 where
  pub id : String
  pub tool_id : String
  pub grantee_role : Option String
  pub grantee_user_id : Option String
  pub granted_by : String

-- The events of `_record`, with the server's status before, or the grant.
pub data AuditEvent : Type 0 where
  server_registered : (id : String) → AuditEvent
  server_moved : (id before after : String) → AuditEvent
  tool_granted grant_revoked : (id : String) → AuditEvent

pub record Registry : Type 0 where
  pub servers : List ServerRow
  pub tools : List ToolRow
  pub grants : List GrantRow
  pub secrets : List String
  pub audits : List AuditEvent

pub data RegistryError : Type 0 where
  endpoint_invalid secret_store_unavailable server_not_found invalid_transition : RegistryError
  row_refused tool_not_found step_up_needed grant_exists grant_not_found : RegistryError
  grant_invalid unknown_role destination_refused : RegistryError
  manifest_invalid manifest_mismatch : List Problem → RegistryError
  upstream_error : String → RegistryError

-- `APPROVABLE`
abbrev pub approvable : List String
approvable = "pending_approval" ∷ "disabled" ∷ []

unfoldable pub find_server : String → List ServerRow → Option ServerRow
find_server id [] = none
find_server id (s ∷ ss) = if s.id =s id then some s else find_server id ss

-- `transition`, on one row and on all; whether a row was changed is `can_move`.
unfoldable pub is_movable : String → List String → ServerRow → Bool
is_movable id from s = s.id =s id && has s.status from

abbrev pub or_same : Option String → Option String → Option String
or_same none old = old
or_same (some new) old = some new

unfoldable pub move_row : String → List String → String → Option String → ServerRow → ServerRow
move_row id from to by s =
    if is_movable id from s
    then record s { status = to; approved_by = or_same by s.approved_by }
    else s

unfoldable pub can_move : String → List String → List ServerRow → Bool
can_move id from servers = any (is_movable id from) servers

unfoldable pub transition :
    String → List String → String → Option String → List ServerRow → List ServerRow
transition id from to by servers = map (move_row id from to by) servers

-- What `register` meets: the endpoint as the egress rules accept it, the answers of the secret store
-- and whether the rows can be inserted.
pub record NewServer : Type 0 where
  pub id : String
  pub name : String
  pub endpoint : Option String
  pub auth_token : Option String
  pub tools : List (String × String)
  pub tool_id : String → String
  pub secret_ref : String
  pub can_write_secret : Bool
  pub can_insert : Bool
  pub can_delete_secret : Bool

abbrev pub has_token : Option String → Bool
has_token none = false
has_token (some token) = not (token =s "")

unfoldable pub new_tool : NewServer → String × String → ToolRow
new_tool new (name, tool_class) = record {
  id = new.tool_id name;
  server_id = new.id;
  tool_name = name;
  tool_class = tool_class;
  default_policy = default_policy tool_class;
}

unfoldable pub new_server : NewServer → String → String → ServerRow
new_server new url user = record {
  id = new.id;
  name = new.name;
  endpoint_url = url;
  auth_secret_ref = if has_token new.auth_token then some new.secret_ref else none;
  status = "pending_approval";
  created_by = user;
  approved_by = none;
}

-- `add_server` in its transaction; a taken id is refused as its rows are.
unfoldable pub can_add : NewServer → List ServerRow → Bool
can_add new servers = new.can_insert && not (any (λ s. s.id =s new.id) servers)

unfoldable pub without_secret : String → List String → List String
without_secret ref [] = []
without_secret ref (x ∷ xs) =
    let rest = without_secret ref xs in if x =s ref then rest else x ∷ rest

abbrev pub Answer : Type 0
Answer = Result RegistryError (Unit {0}) × Registry

-- `register` from the insertion on
unfoldable pub insert_server : NewServer → String → String → Registry → Answer
insert_server new url user r =
    if can_add new r.servers
    then (
      ok tt,
      record r {
        servers = new_server new url user ∷ r.servers;
        tools = map (new_tool new) new.tools ++ r.tools;
        audits = server_registered new.id ∷ r.audits;
      },
    )
    else (
      err row_refused,
      record r {
        secrets =
            if has_token new.auth_token && new.can_delete_secret
            then without_secret new.secret_ref r.secrets
            else r.secrets;
      },
    )

abbrev pub manifest_or : NewServer → String → String → Registry → List Problem → Answer
manifest_or new url user r (problem ∷ problems) = (err (manifest_invalid (problem ∷ problems)), r)
manifest_or new url user r [] =
    if not (has_token new.auth_token)
    then insert_server new url user r
    else if new.can_write_secret
    then insert_server new url user (record r { secrets = new.secret_ref ∷ r.secrets })
    else (err secret_store_unavailable, r)

abbrev pub endpoint_or : NewServer → String → Registry → Option String → Answer
endpoint_or new user r none = (err endpoint_invalid, r)
endpoint_or new user r (some url) = manifest_or new url user r (manifest_problems new.tools)

-- `register`
unfoldable pub register : NewServer → String → Registry → Answer
register new user r = endpoint_or new user r new.endpoint

unfoldable pub tools_of : String → List ToolRow → List (String × String)
tools_of id [] = []
tools_of id (t ∷ ts) =
    let rest = tools_of id ts in
    if t.server_id =s id then (t.tool_name, t.tool_class) ∷ rest else rest

-- An approval that has begun: what `approve` has read before it calls the live server.
pub record Approval : Type 0 where
  pub server_id : String
  pub previous : String
  pub declared : List (String × String)

abbrev pub may_approve : Bool → Bool → Registry → Option ServerRow → Result RegistryError Approval
may_approve endpoint_allowed has_secret r none = err server_not_found
may_approve endpoint_allowed has_secret r (some s) =
    if not (has s.status approvable)
    then err invalid_transition
    else if not endpoint_allowed
    then err endpoint_invalid
    else if not has_secret
    then err secret_store_unavailable
    else ok (record { server_id = s.id; previous = s.status; declared = tools_of s.id r.tools })

-- `approve` up to the commit before the call: whether `stored_endpoint` and `server_token` succeed
unfoldable pub begin_approval : String → Bool → Bool → Registry → Result RegistryError Approval
begin_approval id endpoint_allowed has_secret r =
    may_approve endpoint_allowed has_secret r (find_server id r.servers)

-- How `discover` ends.
pub data Discovery : Type 0 where
  not_allowed : Discovery
  fails : (reason : String) → Discovery
  offers : List DiscoveredTool → Discovery

abbrev pub moved_or :
    String → List String → String → String → Option String → Registry → Bool → Answer
moved_or id from before to by r false = (err invalid_transition, r)
moved_or id from before to by r true = (
  ok tt,
  record r {
    servers = transition id from to by r.servers;
    audits = server_moved id before to ∷ r.audits;
  },
)

-- a status change and its audit event, where the row is in one of the statuses
unfoldable pub change : String → List String → String → String → Option String → Registry → Answer
change id from before to by r = moved_or id from before to by r (can_move id from r.servers)

abbrev pub verified_or : Approval → String → Registry → List Problem → Answer
verified_or a user r (problem ∷ problems) = (err (manifest_mismatch (problem ∷ problems)), r)
verified_or a user r [] = change a.server_id (a.previous ∷ []) a.previous "approved" (some user) r

-- `approve` from the answer of the live server on
abbrev pub finish_approval : Approval → Discovery → String → Registry → Answer
finish_approval a not_allowed user r = (err destination_refused, r)
finish_approval a (fails reason) user r = (err (upstream_error reason), r)
finish_approval a (offers live) user r =
    verified_or a user r (verification_problems a.declared live)

abbrev pub known_or_missing : String → List String → String → Registry → Option ServerRow → Answer
known_or_missing id from to r none = (err server_not_found, r)
known_or_missing id from to r (some s) = change id from s.status to none r

-- `_move`
unfoldable pub move : String → List String → String → Registry → Answer
move id from to r = known_or_missing id from to r (find_server id r.servers)

-- `disable` and `reject`
unfoldable pub disable : String → Registry → Answer
disable id r = move id ("approved" ∷ []) "disabled" r

unfoldable pub reject : String → Registry → Answer
reject id r = move id ("pending_approval" ∷ []) "rejected" r
