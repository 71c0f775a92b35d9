-- ===== src/Mcp/UnderWay.antt =====
-- Approvals under way in application/services/registry.py of apps/mcp-gateway, while other requests go on.
use bu_vi.Base.{
  not_both, ℕ, ◌-◌, ◌≡◌, refl, sym, ◌∙◌, ap, String, Bool, true, false, not, ◌&&◌, Option, none,
  some, List, [], ◌∷◌, arith, if◌then◌else◌, ◌=s◌, ◌==◌, =s_iff, =s_refl, has, Result, ok, err,
  Bool-cases, inl, inr, ◌⊎◌,
}
use bu_vi.Mcp.ToolPolicy.{Problem, DiscoveredTool, verification_problems}
use bu_vi.Mcp.Registry.{
  ToolRow, ServerRow, Registry, RegistryError, invalid_transition, endpoint_invalid,
  secret_store_unavailable, approvable, find_server, tools_of, Approval, may_approve,
  begin_approval, Discovery, not_allowed, fails, offers, can_move, moved_or, change, verified_or,
  finish_approval, disable, reject, Answer,
}
use bu_vi.Mcp.Requests.{
  Request, registers, begins_approval, finishes_approval, disables, rejects, grants_tool,
  revokes_grant, granted_or, grant, permit_grant, revoked_or, revoke_grant, find_tool, System,
  approval_at, begun, finished, handle,
}
use bu_vi.Mcp.Registering.{register-Calm}
use bu_vi.Mcp.Offering.{AllOffered, verification_problems-AllOffered}
use bu_vi.Mcp.Keeping.{
  status_of, moved_status, is_known, transition-status, Keeps, Calm, calm, Calm-same, change-Keeps,
  move-Calm,
}

-- An approval under way of a known server that may be approved, with the tools that it declares.
pub record IsUnderWay (r : Registry) (a : Approval) : Type 0 where
  pub may_follow : has a.previous approvable ≡ true
  pub declared : a.declared ≡ tools_of a.server_id r.tools
  pub known : is_known a.server_id r.servers ≡ true

abbrev pub AllUnderWay : Registry → List Approval → Type 0
AllUnderWay r [] = Unit
AllUnderWay r (a ∷ approvals) = IsUnderWay r a × AllUnderWay r approvals

abbrev pub IsReady : System → Type 0
IsReady s = AllUnderWay s.registry s.under_way

Keeps-AllUnderWay :
    {r r' : Registry} (approvals : List Approval)
    → Keeps r r'
    → AllUnderWay r approvals
    → AllUnderWay r' approvals
Keeps-AllUnderWay [] k h = tt
Keeps-AllUnderWay (a ∷ approvals) k (first, rest) = (
  record {
    may_follow = first.may_follow;
    declared = first.declared ∙ sym (k.tools a.server_id first.known);
    known = k.known a.server_id first.known;
  },
  Keeps-AllUnderWay approvals k rest,
)

-- A server that a request turned approved: the request finishes an approval, with a live server that
-- offers every tool that the server declares.
pub record IsVerified (q : Request) (s : System) (id : String) : Type 0 where
  pub place : ℕ
  pub live : List DiscoveredTool
  pub user : String
  pub asked : q ≡ finishes_approval place (offers live) user
  pub offered : AllOffered id live s.registry.tools

-- What one request does to the rows.
pub record Follows (q : Request) (s : System) (r' : Registry) : Type 0 where
  pub keeps : Keeps s.registry r'
  pub approves :
      (id : String)
      → status_of id r'.servers ≡ some "approved"
      → (status_of id s.registry.servers ≡ some "approved") ⊎ IsVerified q s id

Calm-Follows : {q : Request} {s : System} {r' : Registry} → Calm s.registry r' → Follows q s r'
Calm-Follows (calm keeps back) = record { keeps = keeps; approves = λ id h. inl (back id h) }

not_final :
    (previous : String) → has previous approvable ≡ true → has "rejected" (previous ∷ []) ≡ false
unfolding has
not_final previous h = elim (Bool-cases ("rejected" =s previous)) [
  | inr e ↦ rw e refl
  | inl e ↦ absurd (not_both (rw (sym ((=s_iff "rejected" previous).0 e)) at h) refl)
]

module _ (s : System) (place : ℕ) (user : String) where
  verified :
      (a : Approval) (live : List DiscoveredTool)
      → IsUnderWay s.registry a
      → verification_problems a.declared live ≡ []
      → Follows
          (finishes_approval place (offers live) user)
          s
          (change a.server_id (a.previous ∷ []) a.previous "approved" (some user) s.registry).1
  unfolding change
  verified a live ready clean = record {
    keeps =
        change-Keeps a.server_id (a.previous ∷ []) a.previous "approved" (some user) s.registry
          (not_final a.previous ready.may_follow);
    approves = by_rows (can_move a.server_id (a.previous ∷ []) s.registry.servers);
  }
    where
      by_name :
          (id st : String) (b : Bool)
          → (a.server_id ≡ id → IsVerified (finishes_approval place (offers live) user) s id)
          → (id =s a.server_id) ≡ b
          → some (if b && has st (a.previous ∷ []) then "approved" else st) ≡ some "approved"
          → (some st ≡ some "approved")
            ⊎ IsVerified (finishes_approval place (offers live) user) s id
      by_name id st true own e h = inr (own (sym ((=s_iff id a.server_id).0 e)))
      by_name id st false own e h = inl h

      own :
          (id : String)
          → a.server_id ≡ id
          → IsVerified (finishes_approval place (offers live) user) s id
      own id e = record {
        place = place;
        live = live;
        user = user;
        asked = refl;
        offered = verification_problems-AllOffered id live s.registry.tools (
            ap (λ k. verification_problems (tools_of k s.registry.tools) live) (sym e)
            ∙ ap (λ ds. verification_problems ds live) (sym ready.declared)
            ∙ clean);
      }

      by_status :
          (id : String) (o : Option String)
          → moved_status id a.server_id (a.previous ∷ []) "approved" o ≡ some "approved"
          → (o ≡ some "approved") ⊎ IsVerified (finishes_approval place (offers live) user) s id
      by_status id none h = inl h
      by_status id (some st) h = by_name id st (id =s a.server_id) (own id) refl h

      by_rows :
          (b : Bool) (id : String)
          → status_of id
              (moved_or a.server_id
                (a.previous ∷ [])
                a.previous
                "approved"
                (some user)
                s.registry
                b).1.servers
            ≡ some "approved"
          → (status_of id s.registry.servers ≡ some "approved")
            ⊎ IsVerified (finishes_approval place (offers live) user) s id
      by_rows false id h = inl h
      by_rows true id h = by_status id (status_of id s.registry.servers) (
          sym (
            transition-status id a.server_id (a.previous ∷ []) "approved" (some user)
              s.registry.servers)
          ∙ h)

  finish-Follows :
      (a : Approval) (d : Discovery)
      → IsUnderWay s.registry a
      → Follows (finishes_approval place d user) s (finish_approval a d user s.registry).1
  finish-Follows a not_allowed ready = Calm-Follows (Calm-same refl refl)
  finish-Follows a (fails reason) ready = Calm-Follows (Calm-same refl refl)
  finish-Follows a (offers live) ready = by_problems (verification_problems a.declared live) refl
    where
      by_problems :
          (ps : List Problem)
          → verification_problems a.declared live ≡ ps
          → Follows
              (finishes_approval place (offers live) user)
              s
              (verified_or a user s.registry ps).1
      by_problems (p ∷ ps) e = Calm-Follows (Calm-same refl refl)
      by_problems [] e = verified a live ready e

  finished-Follows :
      (o : Option Approval) (d : Discovery)
      → ((a : Approval) → o ≡ some a → IsUnderWay s.registry a)
      → Follows (finishes_approval place d user) s (finished o d user s).registry
  finished-Follows none d ready = Calm-Follows (Calm-same refl refl)
  finished-Follows (some a) d ready = finish-Follows a d (ready a refl)

approval_at-ready :
    (r : Registry) (approvals : List Approval) (place : ℕ) (a : Approval)
    → AllUnderWay r approvals
    → approval_at place approvals ≡ some a
    → IsUnderWay r a
unfolding approval_at
approval_at-ready r [] place a ready h = cc
approval_at-ready r (b ∷ approvals) place a (first, rest) h = elim (Bool-cases (place == 0)) [
  | inl e ↦ let same : b ≡ a = found (rw e at h) in rw (sym same) first
  | inr e ↦ approval_at-ready r approvals (place - 1) a rest (rw e at h)
]
  where
    found : some b ≡ some a → b ≡ a
    found h = cc

find-known :
    (id : String) (ss : List ServerRow) (s : ServerRow)
    → find_server id ss ≡ some s
    → is_known s.id ss ≡ true
unfolding find_server is_known
find-known id [] s h = cc
find-known id (t ∷ ss) s h = elim (Bool-cases (t.id =s id)) [
  | inl e ↦ let same : t ≡ s = found (rw e at h) in rw (sym same, =s_refl) refl
  | inr e ↦ ground (arith, find-known id ss s (rw e at h))
]
  where
    found : some t ≡ some s → t ≡ s
    found h = cc

begin-IsUnderWay :
    (id : String) (endpoint_allowed has_secret : Bool) (r : Registry) (a : Approval)
    → begin_approval id endpoint_allowed has_secret r ≡ ok a
    → IsUnderWay r a
unfolding begin_approval
begin-IsUnderWay id endpoint_allowed has_secret r a h = by_server (find_server id r.servers) refl h
  where
    by_tests :
        (s : ServerRow) (status allowed secret : Bool)
        → find_server id r.servers ≡ some s
        → has s.status approvable ≡ status
        → let begun : Approval = record {
          server_id = s.id;
          previous = s.status;
          declared = tools_of s.id r.tools;
        } in
          let out : Result RegistryError Approval =
            if not status
            then err invalid_transition
            else if not allowed
            then err endpoint_invalid
            else if not secret
            then err secret_store_unavailable
            else ok begun in
          out ≡ ok a → IsUnderWay r a
    by_tests s false allowed secret e f h = cc
    by_tests s true false secret e f h = cc
    by_tests s true true false e f h = cc
    by_tests s true true true e f h =
        let begun : Approval = record {
          server_id = s.id;
          previous = s.status;
          declared = tools_of s.id r.tools;
        } in
        let same : begun ≡ a = cc in
        rw (sym same)
          (record { may_follow = f; declared = refl; known = find-known id r.servers s e })

    by_server :
        (o : Option ServerRow)
        → find_server id r.servers ≡ o
        → may_approve endpoint_allowed has_secret r o ≡ ok a
        → IsUnderWay r a
    by_server none e h = cc
    by_server (some s) e h =
        by_tests s (has s.status approvable) endpoint_allowed has_secret e refl h

pub handle-Follows : (q : Request) (s : System) → IsReady s → Follows q s (handle q s).registry
unfolding handle disable reject grant revoke_grant has
handle-Follows (registers new user) s ready = Calm-Follows (register-Calm new user s.registry)
handle-Follows (begins_approval id e h) s ready = by_answer (begin_approval id e h s.registry)
  where
    by_answer :
        (o : Result RegistryError Approval)
        → Follows (begins_approval id e h) s (begun o s).registry
    by_answer (err x) = Calm-Follows (Calm-same refl refl)
    by_answer (ok a) = Calm-Follows (Calm-same refl refl)
handle-Follows (finishes_approval place d user) s ready =
    finished-Follows s place user (approval_at place s.under_way) d
      (λ a e. approval_at-ready s.registry s.under_way place a ready e)
handle-Follows (disables id) s ready =
    Calm-Follows (move-Calm id ("approved" ∷ []) "disabled" s.registry refl refl)
handle-Follows (rejects id) s ready =
    Calm-Follows (move-Calm id ("pending_approval" ∷ []) "rejected" s.registry refl refl)
handle-Follows (grants_tool g) s ready = by_permit (permit_grant g s.registry)
  where
    by_permit :
        (o : Result RegistryError ToolRow) → Follows (grants_tool g) s (granted_or g s.registry o).1
    by_permit (err e) = Calm-Follows (Calm-same refl refl)
    by_permit (ok t) = Calm-Follows (Calm-same refl refl)
handle-Follows (revokes_grant server name id) s ready =
    by_tool (find_tool server name s.registry.tools)
  where
    by_row :
        (b : Bool) (r : Registry)
        → r.servers ≡ s.registry.servers
        → r.tools ≡ s.registry.tools
        → let out : Answer =
            if b then (ok tt, r) else (err RegistryError.grant_not_found, s.registry) in
          Follows (revokes_grant server name id) s out.1
    by_row true r e f = Calm-Follows (Calm-same e f)
    by_row false r e f = Calm-Follows (Calm-same refl refl)

    by_tool :
        (o : Option ToolRow)
        → Follows (revokes_grant server name id) s (revoked_or id s.registry o).1
    by_tool none = Calm-Follows (Calm-same refl refl)
    by_tool (some t) = by_row _ _ refl refl

pub handle-IsReady : (q : Request) (s : System) → IsReady s → IsReady (handle q s)
unfolding handle
handle-IsReady (registers new user) s ready =
    Keeps-AllUnderWay s.under_way (handle-Follows (registers new user) s ready).keeps ready
handle-IsReady (begins_approval id e h) s ready = by_answer (begin_approval id e h s.registry) refl
  where
    by_answer :
        (o : Result RegistryError Approval)
        → begin_approval id e h s.registry ≡ o
        → IsReady (begun o s)
    by_answer (err x) same = ready
    by_answer (ok a) same = (begin-IsUnderWay id e h s.registry a same, ready)
handle-IsReady (finishes_approval place d user) s ready =
    by_approval (approval_at place s.under_way)
      (handle-Follows (finishes_approval place d user) s ready).keeps
  where
    by_approval :
        (o : Option Approval)
        → Keeps s.registry (finished o d user s).registry
        → IsReady (finished o d user s)
    by_approval none k = ready
    by_approval (some a) k = Keeps-AllUnderWay s.under_way k ready
handle-IsReady (disables id) s ready =
    Keeps-AllUnderWay s.under_way (handle-Follows (disables id) s ready).keeps ready
handle-IsReady (rejects id) s ready =
    Keeps-AllUnderWay s.under_way (handle-Follows (rejects id) s ready).keeps ready
handle-IsReady (grants_tool g) s ready =
    Keeps-AllUnderWay s.under_way (handle-Follows (grants_tool g) s ready).keeps ready
handle-IsReady (revokes_grant server name id) s ready =
    Keeps-AllUnderWay s.under_way (handle-Follows (revokes_grant server name id) s ready).keeps
      ready
