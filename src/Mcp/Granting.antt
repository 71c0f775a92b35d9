-- ===== src/Mcp/Granting.antt =====
-- The grants of tools in application/services/registry.py of apps/mcp-gateway.
use bu_vi.Base.{
  not_both, =s_refl, ◌≡◌, refl, sym, String, Bool, true, false, not, ◌&&◌, Option, none, some, List,
  [], ◌∷◌, any, if◌then◌else◌, has, Result, ok, err, guard-ok, guard-true, >>=-eq-ok, ◌||◌,
}
use bu_vi.Auth.Permissions.{tenant_roles}
use bu_vi.Mcp.ToolPolicy.{Problem, manifest_problems, verification_problems, needs_step_up}
use bu_vi.Mcp.Registry.{
  ServerRow, ToolRow, GrantRow, Registry, RegistryError, NewServer, has_token, can_add,
  insert_server, manifest_or, endpoint_or, register, Approval, begin_approval, Discovery,
  not_allowed, fails, offers, can_move, moved_or, change, verified_or, finish_approval,
  known_or_missing, move, find_server, disable, reject, Answer,
}
use bu_vi.Mcp.Requests.{
  same_name, is_grant_of, check_grantee, NewGrant, tool_or, permit_grant, grant_row, granted_or,
  grant, is_deleted, delete_grant, revoked_or, revoke_grant, find_tool, Request, registers,
  begins_approval, finishes_approval, disables, rejects, grants_tool, revokes_grant, System,
  approval_at, begun, finished, handle, after_all,
}
use bu_vi.Mcp.Approving.{no_servers}

-- One grantee: a user, or a role of a tenant.
abbrev pub is_grantee : Option String → Option String → Bool
is_grantee (some role) none = has role tenant_roles
is_grantee none (some user) = true
is_grantee _ _ = false

-- Two rows that grant one tool to one grantee.
abbrev pub IsSameGrant : GrantRow → GrantRow → Type 0
IsSameGrant g h =
    (h.tool_id ≡ g.tool_id)
    × (h.grantee_role ≡ g.grantee_role)
    × (h.grantee_user_id ≡ g.grantee_user_id)

abbrev pub AllOther : GrantRow → List GrantRow → Type 0
AllOther g [] = Unit
AllOther g (h ∷ hs) = (¬ IsSameGrant g h) × AllOther g hs

-- Each grant has one grantee, and no tool is granted twice to the same one.
abbrev pub AreLawful : List GrantRow → Type 0
AreLawful [] = Unit
AreLawful (g ∷ gs) =
    (is_grantee g.grantee_role g.grantee_user_id ≡ true) × AllOther g gs × AreLawful gs

same_name_refl : (x : Option String) → same_name x x ≡ true
same_name_refl none = refl
same_name_refl (some x) = =s_refl x

same-is_grant_of :
    (g h : GrantRow)
    → IsSameGrant g h
    → is_grant_of g.tool_id g.grantee_role g.grantee_user_id h ≡ true
unfolding is_grant_of
same-is_grant_of g h (tool, role, user) =
    rw (tool, role, user, =s_refl, same_name_refl g.grantee_role, same_name_refl g.grantee_user_id)
      refl

AllOther-any :
    (g : GrantRow) (gs : List GrantRow)
    → any (is_grant_of g.tool_id g.grantee_role g.grantee_user_id) gs ≡ false
    → AllOther g gs
AllOther-any g [] h = tt
AllOther-any g (x ∷ xs) h =
    let (first, rest) = neither _ _ h in
    (λ same. not_both (same-is_grant_of g x same) first, AllOther-any g xs rest)
  where
    neither : (a b : Bool) → (a || b) ≡ false → (a ≡ false) × (b ≡ false)
    neither true b h = cc
    neither false b h = (refl, h)

AllOther-delete_grant :
    (g : GrantRow) (tool id : String) (gs : List GrantRow)
    → AllOther g gs
    → AllOther g (delete_grant tool id gs)
unfolding delete_grant
AllOther-delete_grant g tool id [] h = tt
AllOther-delete_grant g tool id (x ∷ xs) (first, rest) =
    by_test (is_deleted tool id x) (AllOther-delete_grant g tool id xs rest)
  where
    by_test :
        (gone : Bool)
        → AllOther g (delete_grant tool id xs)
        → AllOther g (if gone then delete_grant tool id xs else x ∷ delete_grant tool id xs)
    by_test true later = later
    by_test false later = (first, later)

delete_grant-AreLawful :
    (tool id : String) (gs : List GrantRow) → AreLawful gs → AreLawful (delete_grant tool id gs)
unfolding delete_grant
delete_grant-AreLawful tool id [] h = tt
delete_grant-AreLawful tool id (g ∷ gs) (grantee, single, rest) =
    by_test (is_deleted tool id g) (delete_grant-AreLawful tool id gs rest)
  where
    by_test :
        (gone : Bool)
        → AreLawful (delete_grant tool id gs)
        → AreLawful (if gone then delete_grant tool id gs else g ∷ delete_grant tool id gs)
    by_test true later = later
    by_test false later = (grantee, AllOther-delete_grant g tool id gs single, later)

check_grantee-ok :
    (role user : Option String) → check_grantee role user ≡ ok tt → is_grantee role user ≡ true
unfolding check_grantee
check_grantee-ok none none h = cc
check_grantee-ok (some role) (some user) h = cc
check_grantee-ok none (some user) h = refl
check_grantee-ok (some role) none h = guard-true (has role tenant_roles) _ h

negated : (b : Bool) → not b ≡ true → b ≡ false
negated true h = cc
negated false h = refl

permit_grant-ok :
    (g : NewGrant) (r : Registry) (t : ToolRow)
    → permit_grant g r ≡ ok t
    → (is_grantee g.role g.user ≡ true) × (any (is_grant_of t.id g.role g.user) r.grants ≡ false)
unfolding permit_grant
permit_grant-ok g r t h =
    let (done, grantee, rest) = >>=-eq-ok (check_grantee g.role g.user) _ h in
    let (u, finds, checks) =
      >>=-eq-ok (tool_or (find_tool g.server_id g.tool_name r.tools)) _ rest in
    let a = guard-ok (not (needs_step_up u.tool_class && not g.step_up_fresh)) _ _ checks in
    let b = guard-ok (not (any (is_grant_of u.id g.role g.user) r.grants)) _ _ a.1 in
    let same : u ≡ t = cc in (check_grantee-ok g.role g.user grantee, rw (sym same) (negated _ b.0))

grant-AreLawful :
    (g : NewGrant) (r : Registry) → AreLawful r.grants → AreLawful (grant g r).1.grants
unfolding grant grant_row
grant-AreLawful g r h = by_permit (permit_grant g r) refl
  where
    by_permit :
        (o : Result RegistryError ToolRow)
        → permit_grant g r ≡ o
        → AreLawful (granted_or g r o).1.grants
    by_permit (err e) same = h
    by_permit (ok t) same =
        let (grantee, single) = permit_grant-ok g r t same in
        (grantee, AllOther-any (grant_row g t) r.grants single, h)

revoke-AreLawful :
    (server name id : String) (r : Registry)
    → AreLawful r.grants
    → AreLawful (revoke_grant server name id r).1.grants
unfolding revoke_grant
revoke-AreLawful server name id r h = by_tool (find_tool server name r.tools)
  where
    by_row :
        (b : Bool) (kept : Registry)
        → AreLawful kept.grants
        → let out : Answer = if b then (ok tt, kept) else (err RegistryError.grant_not_found, r) in
          AreLawful out.1.grants
    by_row true kept k = k
    by_row false kept k = h

    by_tool : (o : Option ToolRow) → AreLawful (revoked_or id r o).1.grants
    by_tool none = h
    by_tool (some t) = by_row _ _ (delete_grant-AreLawful t.id id r.grants h)

change-grants :
    (id : String) (from : List String) (before to : String) (by : Option String) (r : Registry)
    → (change id from before to by r).1.grants ≡ r.grants
unfolding change
change-grants id from before to by r = by_rows (can_move id from r.servers)
  where
    by_rows : (b : Bool) → (moved_or id from before to by r b).1.grants ≡ r.grants
    by_rows true = refl
    by_rows false = refl

move-grants :
    (id : String) (from : List String) (to : String) (r : Registry)
    → (move id from to r).1.grants ≡ r.grants
unfolding move
move-grants id from to r = by_server (find_server id r.servers)
  where
    by_server : (o : Option ServerRow) → (known_or_missing id from to r o).1.grants ≡ r.grants
    by_server none = refl
    by_server (some s) = change-grants id from s.status to none r

finish-grants :
    (a : Approval) (d : Discovery) (user : String) (r : Registry)
    → (finish_approval a d user r).1.grants ≡ r.grants
finish-grants a not_allowed user r = refl
finish-grants a (fails reason) user r = refl
finish-grants a (offers live) user r = by_problems (verification_problems a.declared live)
  where
    by_problems : (ps : List Problem) → (verified_or a user r ps).1.grants ≡ r.grants
    by_problems (p ∷ ps) = refl
    by_problems [] = change-grants a.server_id (a.previous ∷ []) a.previous "approved" (some user) r

insert-grants :
    (new : NewServer) (url user : String) (r : Registry)
    → (insert_server new url user r).1.grants ≡ r.grants
unfolding insert_server
insert-grants new url user r = by_row (can_add new r.servers) _ _ refl refl
  where
    by_row :
        (b : Bool) (x y : Answer)
        → x.1.grants ≡ r.grants
        → y.1.grants ≡ r.grants
        → (if b then x else y).1.grants ≡ r.grants
    by_row true x y h k = h
    by_row false x y h k = k

register-grants :
    (new : NewServer) (user : String) (r : Registry) → (register new user r).1.grants ≡ r.grants
unfolding register
register-grants new user r = by_endpoint new.endpoint
  where
    with_secret :
        (given written : Bool) (url : String)
        → (if not given
            then insert_server new url user r
            else if written
            then insert_server new url user (record r { secrets = new.secret_ref ∷ r.secrets })
            else (err RegistryError.secret_store_unavailable, r)).1.grants
          ≡ r.grants
    with_secret false written url = insert-grants new url user r
    with_secret true false url = refl
    with_secret true true url =
        insert-grants new url user (record r { secrets = new.secret_ref ∷ r.secrets })

    by_manifest :
        (url : String) (ps : List Problem) → (manifest_or new url user r ps).1.grants ≡ r.grants
    by_manifest url (p ∷ ps) = refl
    by_manifest url [] = with_secret (has_token new.auth_token) new.can_write_secret url

    by_endpoint : (o : Option String) → (endpoint_or new user r o).1.grants ≡ r.grants
    by_endpoint none = refl
    by_endpoint (some url) = by_manifest url (manifest_problems new.tools)

same-AreLawful : {gs hs : List GrantRow} → hs ≡ gs → AreLawful gs → AreLawful hs
same-AreLawful e h = rw e h

handle-AreLawful :
    (q : Request) (s : System)
    → AreLawful s.registry.grants
    → AreLawful (handle q s).registry.grants
unfolding handle disable reject
handle-AreLawful (registers new user) s h = same-AreLawful (register-grants new user s.registry) h
handle-AreLawful (begins_approval id e k) s h = by_answer (begin_approval id e k s.registry)
  where
    by_answer : (o : Result RegistryError Approval) → AreLawful (begun o s).registry.grants
    by_answer (err x) = h
    by_answer (ok a) = h
handle-AreLawful (finishes_approval place d user) s h = by_approval (approval_at place s.under_way)
  where
    by_approval : (o : Option Approval) → AreLawful (finished o d user s).registry.grants
    by_approval none = h
    by_approval (some a) = same-AreLawful (finish-grants a d user s.registry) h
handle-AreLawful (disables id) s h =
    same-AreLawful (move-grants id ("approved" ∷ []) "disabled" s.registry) h
handle-AreLawful (rejects id) s h =
    same-AreLawful (move-grants id ("pending_approval" ∷ []) "rejected" s.registry) h
handle-AreLawful (grants_tool g) s h = grant-AreLawful g s.registry h
handle-AreLawful (revokes_grant server name id) s h = revoke-AreLawful server name id s.registry h

later-AreLawful :
    (qs : List Request) (s : System)
    → AreLawful s.registry.grants
    → AreLawful (after_all qs s).registry.grants
unfolding after_all
later-AreLawful [] s h = h
later-AreLawful (q ∷ qs) s h = later-AreLawful qs (handle q s) (handle-AreLawful q s h)

-- After any requests, one after another, each grant is to one user or to one of a tenant's roles, never to both and never to
-- neither, and no tool is granted twice to the same grantee.
pub after_all-AreLawful : (qs : List Request) → AreLawful (after_all qs no_servers).registry.grants
after_all-AreLawful qs = later-AreLawful qs no_servers tt
