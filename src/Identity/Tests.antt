-- ===== src/Identity/Tests.antt =====
-- Roles, sessions and users of a concrete tenant.
use bu_vi.Base.{
  if◌then◌else◌, ◌-◌, ◌≡◌, ◌<◌, refl, String, true, false, none, some, List, [], ◌∷◌, arith, has,
  ◌=s◌, err,
}
use bu_vi.Auth.Principal.{is_platform_operator}
use bu_vi.Identity.Roles.{RoleChange, assert_tenant_keeps_an_org_admin, assert_not_self_target}
use bu_vi.Identity.Policies.{default_policies, SessionLifetime, is_expired}
use bu_vi.Identity.Db.{
  User, Session, Db, find_user, get_user, get_user_role_keys, count_active_org_admins, count_admins,
  find_session, update_session,
}
use bu_vi.Identity.Sessions.{
  Tokens, session_expired, lookup_token, resolve_row, resolve, principal_of, resolve-ok,
}
use bu_vi.Identity.Users.Service.{Request, change, delete, handle_all, delete_user, deactivate}
use bu_vi.Identity.Users.Admins.{handle_all-keeps_admin}
use bu_vi.Identity.Users.Deletion.{delete_user-resolve}

abbrev promote : RoleChange
promote = record { grant = "developer" ∷ "auditor" ∷ []; revoke = "auditor" ∷ "client" ∷ [] }

abbrev client : List String
client = "client" ∷ []

abbrev ann : User
ann = record { id = "u1"; tenant_id = "t1"; status = "active"; roles = "org_admin" ∷ [] }

abbrev ben : User
ben = record { id = "u2"; tenant_id = "t1"; status = "active"; roles = "client" ∷ [] }

abbrev ben_session : Session
ben_session = record {
  id = "s2";
  user_id = "u2";
  tenant_id = "t1";
  token_hash = "h2";
  created_at = 1000;
  last_seen_at = 2000;
  expires_at = 90000;
  revoked_at = none;
  mfa_verified_at = none;
  mfa_verified_method = none;
}

abbrev db : Db
db = record {
  users = ann ∷ ben ∷ [];
  sessions = ben_session ∷ [];
  api_keys = [];
  policies = λ t. default_policies;
}

-- A hash that changes one token alone.
abbrev tokens : Tokens
tokens = record { hash_token = λ t. if t =s "2" then "h2" else t; len = λ t. 1 }

abbrev lifetime : SessionLifetime
lifetime = record { idle_timeout = 50000; absolute_lifetime = 89000 }

resolve-ok_example :
    (find_session (tokens.hash_token "2") db.sessions ≡ some ben_session)
    × (ben_session.revoked_at ≡ none)
    × (3000 < ben_session.expires_at)
    × (3000 - ben_session.last_seen_at < lifetime.idle_timeout)
    × (ben.id ≡ ben_session.user_id)
    × (ben.tenant_id ≡ ben_session.tenant_id)
    × (find_user ben_session.user_id db.users ≡ some ben)
    × (ben.status ≡ "active")
    × ((principal_of db ben_session ben).user_id ≡ ben_session.user_id)
    × ((principal_of db ben_session ben).tenant_id ≡ ben_session.tenant_id)
    × ((principal_of db ben_session ben).session_id ≡ some ben_session.id)
    × ((principal_of db ben_session ben).roles ≡ get_user_role_keys db "u2")
    × (is_platform_operator (principal_of db ben_session ben)
        ≡ has "platform_super_admin" (principal_of db ben_session ben).roles)
unfolding resolve lookup_token find_session resolve_row is_expired get_user find_user update_session
resolve-ok_example =
    resolve-ok tokens lifetime db
      (record db { sessions = record ben_session { last_seen_at = 3000 } ∷ [] }) 3000 "2"
      ben_session ben (principal_of db ben_session ben) refl

-- Ben is promoted, deletes Ann, and then tries to step down.
abbrev requests : List Request
requests =
    change "t1" "u1" "u2" (record { grant = "org_admin" ∷ []; revoke = [] })
    ∷ delete "t1" "u2" "u1" 5000 true
    ∷ change "t1" "u2" "u2" (record { grant = []; revoke = "org_admin" ∷ [] })
    ∷ []

handle_all-keeps_admin_example : 0 < count_active_org_admins (handle_all db requests) "t1"
unfolding count_active_org_admins count_admins has
handle_all-keeps_admin_example = handle_all-keeps_admin requests db "t1" (omega arith)

delete_user-resolve_example :
    (resolve tokens lifetime (deactivate db "t1" "u2" 2500) 3000 "2" ≡ err session_expired)
    × ((u : User) × (get_user (deactivate db "t1" "u2" 2500) "t1" "u2" ≡ some u)
        × (u.status ≡ "deactivated"))
    × (("u1" =s "u2") ≡ false)
unfolding delete_user get_user find_user get_user_role_keys assert_tenant_keeps_an_org_admin
    assert_not_self_target has find_session count_active_org_admins count_admins
delete_user-resolve_example =
    delete_user-resolve tokens lifetime true db (deactivate db "t1" "u2" 2500) "t1" "u1" "u2" 2500
      3000 "2" ben_session refl refl refl refl
