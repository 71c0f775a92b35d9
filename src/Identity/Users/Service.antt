-- ===== src/Identity/Users/Service.antt =====
-- application/services/user_service.py of apps/identity-service: `change_roles`, `delete_user` and
-- `force_revoke_sessions` over the rows of `Db`. Each runs in one transaction, so a raise leaves the
-- rows as they were. Audit events are not modelled; the answer of the cascade in the other services
-- is an argument.
use bu_vi.Base.{
  ◌+◌, ℕ, String, Bool, true, false, not, ◌&&◌, none, some, List, [], ◌∷◌, if◌then◌else◌, ◌=s◌, has,
  Result, ok, err, ◌>>=◌, ◌>>◌, ◌++◌,
}
use bu_vi.Identity.Roles.{
  Error, not_found, cascade_unavailable, RoleChange, minus, apply_role_change,
  assert_not_self_target, assert_tenant_keeps_an_org_admin,
}
use bu_vi.Identity.Db.{
  User, Db, Session, is_revoked, get_user, get_user_role_keys, update_user, count_active_org_admins,
  revoke_for_user, revoke_keys,
}

-- `grant_role` for each key, then `revoke_role` for each key, on the user's rows of `user_roles`
unfoldable pub grant_roles : List String → User → User
grant_roles [] u = u
grant_roles (key ∷ keys) u =
    grant_roles keys (if has key u.roles then u else record u { roles = u.roles ++ key ∷ [] })

unfoldable pub revoke_roles : List String → User → User
revoke_roles [] u = u
revoke_roles (key ∷ keys) u = revoke_roles keys (record u { roles = minus u.roles (key ∷ []) })

-- The two loops of `change_roles`.
unfoldable pub store_roles : List String → List String → User → User
store_roles current resulting u =
    revoke_roles (minus current resulting) (grant_roles (minus resulting current) u)

-- The checks when the change takes the admin role away.
unfoldable pub check_admin_removal : Db → String → String → String → Bool → Result Error (Unit {0})
check_admin_removal db tenant_id actor target removes =
    if removes
    then (do
      assert_not_self_target actor target
      assert_tenant_keeps_an_org_admin (count_active_org_admins db tenant_id) true false)
    else ok tt

-- `RoleChangeOutcome` is the pair of the roles before and after.
unfoldable pub change_roles :
    Db → String → String → String → RoleChange → Result Error ((List String × List String) × Db)
change_roles db tenant_id actor target change = elim (get_user db tenant_id target) [
  | none ↦ err not_found
  | some _ ↦ do
    let current = get_user_role_keys db target
    resulting ← apply_role_change current change
    check_admin_removal db tenant_id actor target
        (has "org_admin" current && not (has "org_admin" resulting))
    ok (
      (current, resulting),
      record db { users = update_user (store_roles current resulting) target db.users },
    )
]

-- What is written once every check of `delete_user` has passed.
unfoldable pub deactivate : Db → String → String → ℕ → Db
deactivate db tenant_id target now = record db {
  users =
      update_user (λ u. if u.tenant_id =s tenant_id then record u { status = "deactivated" } else u)
        target db.users;
  sessions = revoke_for_user tenant_id target now db.sessions;
  api_keys = revoke_keys tenant_id target now db.api_keys;
}

-- `cascade` is whether the share links of the user could be revoked.
unfoldable pub delete_user : Bool → Db → String → String → String → ℕ → Result Error Db
delete_user cascade db tenant_id actor target now = elim (get_user db tenant_id target) [
  | none ↦ err not_found
  | some _ ↦ do
    assert_not_self_target actor target
    assert_tenant_keeps_an_org_admin (count_active_org_admins db tenant_id)
        (has "org_admin" (get_user_role_keys db target)) false
    if cascade then ok (deactivate db tenant_id target now) else err cascade_unavailable
]

-- The rows that `revoke_all_sessions_for_user` changes: those of the user that are not revoked.
unfoldable pub count_open : String → String → List Session → ℕ
count_open tenant_id user_id [] = 0
count_open tenant_id user_id (s ∷ ss) =
    (if s.tenant_id =s tenant_id && s.user_id =s user_id && not (is_revoked s) then 1 else 0)
    + count_open tenant_id user_id ss

-- `force_revoke_sessions`, with the number of sessions that it ended
unfoldable pub force_revoke_sessions : Db → String → String → ℕ → Result Error (ℕ × Db)
force_revoke_sessions db tenant_id target now = elim (get_user db tenant_id target) [
  | none ↦ err not_found
  | some _ ↦ ok (
    count_open tenant_id target db.sessions,
    record db { sessions = revoke_for_user tenant_id target now db.sessions },
  )
]

-- One request of an administrator, and the rows after it: a raise rolls the transaction back.
pub data Request : Type 0 where
  change : (tenant_id actor target : String) → RoleChange → Request
  delete : (tenant_id actor target : String) → ℕ → Bool → Request

unfoldable pub handle : Db → Request → Db
handle db (change tenant_id actor target c) = elim (change_roles db tenant_id actor target c) [
  | ok (_, after) ↦ after
  | err _ ↦ db
]
handle db (delete tenant_id actor target now cascade) =
    elim (delete_user cascade db tenant_id actor target now) [ ok after ↦ after | err _ ↦ db ]

unfoldable pub handle_all : Db → List Request → Db
handle_all db [] = db
handle_all db (r ∷ rs) = handle_all (handle db r) rs
