-- ===== src/Mcp/Invocation.antt =====
-- `invoke` of application/services/invocation.py of apps/mcp-gateway, with what it records. The
-- upstream server, the secret store and the egress rules are what `Attempt` says of them. Payloads,
-- durations and the summary of an answer are not modelled, and an audit event is written.
use bu_vi.Base.{
  ℕ, ◌+◌, String, Bool, not, Option, none, some, List, ◌∷◌, ltb, if◌then◌else◌, Result, ok, err,
}
use bu_vi.Mcp.ToolPolicy.{DenialReason, step_up_required, GrantRef, denial}

pub record Server : Type 0 where
  pub status : String

pub record Tool : Type 0 where
  pub id : String
  pub tool_class : String
  pub default_policy : String
  pub grants : List GrantRef

-- How the call of the upstream server ends.
pub data Upstream : Type 0 where
  not_allowed : Upstream
  fails : (reason : String) → Upstream
  answers : (is_error : Bool) → Upstream

-- What `stored_endpoint`, `server_token` and the call give.
pub record Attempt : Type 0 where
  pub user_id : String
  pub roles : List String
  pub step_up_fresh : Bool
  pub argument_bytes : ℕ
  pub endpoint_allowed : Bool
  pub has_token : Bool
  pub upstream : Upstream

-- Why an attempt is denied.
pub data Reason : Type 0 where
  by_policy : DenialReason → Reason
  destination_not_allowed unknown_tool : Reason

-- `response_status`, with its summary
pub data Status : Type 0 where
  answered tool_error secret_store_unavailable : Status
  upstream_error : String → Status
  denied : Reason → Status

pub data Refusal : Type 0 where
  arguments_too_large server_not_found tool_not_found step_up_needed : Refusal
  secret_store_refusal : Refusal
  invocation_denied : Reason → Refusal
  upstream_refusal : String → Refusal

-- The rows of `mcp.invocations` as tools and statuses, the audit events, the events that announce a
-- denial, and the number of calls made to upstream servers.
pub record Trail : Type 0 where
  pub invocations : List (String × Status)
  pub audits : List Status
  pub denials : List Reason
  pub calls : ℕ

-- `_record`
unfoldable pub record_attempt : Tool → Status → Trail → Trail
record_attempt tool status t = record t {
  invocations = (tool.id, status) ∷ t.invocations;
  audits = status ∷ t.audits;
}

abbrev pub refusal_of : Reason → Refusal
refusal_of (by_policy step_up_required) = step_up_needed
refusal_of reason = invocation_denied reason

-- `_deny`; whether the event could be published does not matter to the caller.
unfoldable pub deny : Tool → Reason → Trail → Result Refusal Bool × Trail
deny tool reason t =
    let recorded = record_attempt tool (denied reason) t in
    (err (refusal_of reason), record recorded { denials = reason ∷ recorded.denials })

-- The end of `invoke`, with whether the tool reported an error.
unfoldable pub call_tool : Tool → Upstream → Trail → Result Refusal Bool × Trail
call_tool tool not_allowed t = deny tool destination_not_allowed (record t { calls = t.calls + 1 })
call_tool tool (fails reason) t = (
  err (upstream_refusal reason),
  record_attempt tool (upstream_error reason) (record t { calls = t.calls + 1 }),
)
call_tool tool (answers is_error) t = (
  ok is_error,
  record_attempt tool (if is_error then tool_error else answered)
      (record t { calls = t.calls + 1 }),
)

abbrev pub reason_of : Server → Tool → Attempt → Option DenialReason
reason_of server tool a =
    denial server.status tool.tool_class tool.default_policy tool.grants a.user_id a.roles
      a.step_up_fresh

-- from the decision of the policy on
abbrev pub permitted_or : Tool → Attempt → Trail → Option DenialReason → Result Refusal Bool × Trail
permitted_or tool a t (some reason) = deny tool (by_policy reason) t
permitted_or tool a t none =
    if not a.endpoint_allowed
    then deny tool destination_not_allowed t
    else if not a.has_token
    then (err secret_store_refusal, record_attempt tool secret_store_unavailable t)
    else call_tool tool a.upstream t

abbrev pub declared_or : Server → Attempt → Trail → Option Tool → Result Refusal Bool × Trail
declared_or server a t none =
    (err tool_not_found, record t { audits = denied unknown_tool ∷ t.audits })
declared_or server a t (some tool) = permitted_or tool a t (reason_of server tool a)

abbrev pub known_or : Option Tool → Attempt → Trail → Option Server → Result Refusal Bool × Trail
known_or tool a t none = (err server_not_found, t)
known_or tool a t (some server) = declared_or server a t tool

unfoldable pub invoke :
    ℕ → Option Server → Option Tool → Attempt → Trail → Result Refusal Bool × Trail
invoke max_argument_bytes server tool a t =
    if ltb max_argument_bytes a.argument_bytes
    then (err arguments_too_large, t)
    else known_or tool a t server
