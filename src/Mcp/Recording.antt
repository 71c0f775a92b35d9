-- ===== src/Mcp/Recording.antt =====
-- What an attempt to invoke a tool leaves in the records, and when it reaches the upstream server.
use bu_vi.Base.{
  ℕ, ◌+◌, ◌≡◌, ◌≢◌, refl, Bool, true, false, not, ◌||◌, Option, none, some, ◌∷◌, ltb, if◌then◌else◌,
  Result, ok, err, Bool-cases, inl, inr, any, has, ◌=s◌,
}
use bu_vi.Mcp.ToolPolicy.{DenialReason, step_up_required, grants_to}
use bu_vi.Mcp.Invoking.{denial-none_iff}
use bu_vi.Mcp.Invocation.{
  Server, Tool, Upstream, not_allowed, fails, answers, Attempt, Reason, by_policy,
  destination_not_allowed, unknown_tool, Status, answered, tool_error, secret_store_unavailable,
  upstream_error, denied, Refusal, step_up_needed, secret_store_refusal, invocation_denied,
  upstream_refusal, Trail, record_attempt, refusal_of, deny, call_tool, reason_of, permitted_or,
  invoke,
}

-- What the row of an attempt says of its outcome.
abbrev pub Tells : Result Refusal Bool → Status → Type 0
Tells (ok is_error) status = status ≡ (if is_error then tool_error else answered)
Tells (err (upstream_refusal reason)) status = status ≡ upstream_error reason
Tells (err (invocation_denied reason)) status = status ≡ denied reason
Tells (err step_up_needed) status = status ≡ denied (by_policy step_up_required)
Tells (err secret_store_refusal) status = status ≡ secret_store_unavailable
Tells (err _) status = ⊥

-- One row and one audit event more, which say what the caller is answered.
abbrev pub Recorded : Tool → Trail → Result Refusal Bool × Trail → Type 0
Recorded tool t (out, t') =
    (status : Status) × (t'.invocations ≡ (tool.id, status) ∷ t.invocations)
    × (t'.audits ≡ status ∷ t.audits)
    × Tells out status

deny-Recorded : (tool : Tool) (reason : Reason) (t : Trail) → Recorded tool t (deny tool reason t)
unfolding deny record_attempt
deny-Recorded tool reason t = (denied reason, refl, refl, tells reason)
  where
    tells : (reason : Reason) → Tells (err (refusal_of reason)) (denied reason)
    tells (by_policy step_up_required) = refl
    tells (by_policy DenialReason.server_not_approved) = refl
    tells (by_policy DenialReason.tool_denied_by_policy) = refl
    tells (by_policy DenialReason.not_granted) = refl
    tells (by_policy DenialReason.admin_only) = refl
    tells destination_not_allowed = refl
    tells unknown_tool = refl

call_tool-Recorded :
    (tool : Tool) (upstream : Upstream) (t : Trail) → Recorded tool t (call_tool tool upstream t)
unfolding call_tool record_attempt
call_tool-Recorded tool not_allowed t =
    deny-Recorded tool destination_not_allowed (record t { calls = t.calls + 1 })
call_tool-Recorded tool (fails reason) t = (upstream_error reason, refl, refl, refl)
call_tool-Recorded tool (answers e) t = (if e then tool_error else answered, refl, refl, refl)

if-Recorded :
    (tool : Tool) (t : Trail) (b : Bool) (x y : Result Refusal Bool × Trail)
    → Recorded tool t x
    → Recorded tool t y
    → Recorded tool t (if b then x else y)
if-Recorded tool t true x y h k = h
if-Recorded tool t false x y h k = k

permitted-Recorded :
    (tool : Tool) (a : Attempt) (t : Trail) (reason : Option DenialReason)
    → Recorded tool t (permitted_or tool a t reason)
unfolding record_attempt
permitted-Recorded tool a t (some reason) = deny-Recorded tool (by_policy reason) t
permitted-Recorded tool a t none =
    let store : Result Refusal Bool × Trail =
      (err secret_store_refusal, record_attempt tool secret_store_unavailable t) in
    if-Recorded tool t (not a.endpoint_allowed) (deny tool destination_not_allowed t)
      (if not a.has_token then store else call_tool tool a.upstream t)
      (deny-Recorded tool destination_not_allowed t)
      (if-Recorded tool t (not a.has_token) store (call_tool tool a.upstream t)
        (secret_store_unavailable, refl, refl, refl) (call_tool-Recorded tool a.upstream t))

-- Every attempt at a declared tool, with arguments that fit, leaves exactly one row and one audit
-- event more, whether it is denied, fails on the way, or is answered, and both tell the outcome that
-- the caller is given.
pub invoke-Recorded :
    (max_argument_bytes : ℕ) (server : Server) (tool : Tool) (a : Attempt) (t : Trail)
    → ltb max_argument_bytes a.argument_bytes ≡ false
    → Recorded tool t (invoke max_argument_bytes (some server) (some tool) a t)
unfolding invoke
invoke-Recorded max_argument_bytes server tool a t fits =
    rw (fits, invoke) (permitted-Recorded tool a t (reason_of server tool a))

permitted_call :
    (tool : Tool) (a : Attempt) (t : Trail) (reason : Option DenialReason)
    → (permitted_or tool a t reason).1.calls ≢ t.calls
    → (reason ≡ none) × (a.endpoint_allowed ≡ true) × (a.has_token ≡ true)
unfolding deny record_attempt
permitted_call tool a t (some reason) h = absurd (h refl)
permitted_call tool a t none h = elim (Bool-cases a.endpoint_allowed) [
  | inr e ↦ absurd (h (rw e refl))
  | inl e ↦ elim (Bool-cases a.has_token) [
    | inr k ↦ absurd (h (rw (e, k) refl))
    | inl k ↦ (refl, e, k)
  ]
]

-- An attempt that reaches the upstream server is one that the policy lets through: the server is
-- approved, the tool's policy is `require_grant` and a grant names the caller or a role, an `admin`
-- tool has an `org_admin` as its caller, and a `write` or an `admin` tool a fresh step-up; and the
-- egress rules allow the endpoint, and the token could be read.
pub invoke-calls :
    (max_argument_bytes : ℕ) (server : Server) (tool : Tool) (a : Attempt) (t : Trail)
    → (invoke max_argument_bytes (some server) (some tool) a t).1.calls ≢ t.calls
    → ((server.status ≡ "approved")
        × (tool.default_policy ≡ "require_grant")
        × (any (grants_to a.user_id a.roles) tool.grants ≡ true)
        × ((not (tool.tool_class =s "admin") || has "org_admin" a.roles) ≡ true)
        × ((not (tool.tool_class =s "write" || tool.tool_class =s "admin") || a.step_up_fresh)
            ≡ true))
      × ((a.endpoint_allowed ≡ true) × (a.has_token ≡ true))
unfolding invoke
invoke-calls max_argument_bytes server tool a t h =
    elim (Bool-cases (ltb max_argument_bytes a.argument_bytes)) [
      | inl e ↦ absurd (h (rw (e, invoke) refl))
      | inr e ↦
          let (r, endpoint, token) =
            permitted_call tool a t (reason_of server tool a) (rw (e, invoke) at h) in
          (
            (denial-none_iff server.status tool.tool_class tool.default_policy tool.grants a.user_id
                  a.roles a.step_up_fresh).0
                r,
            (endpoint, token),
          )
    ]
