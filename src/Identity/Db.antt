-- ===== src/Identity/Db.antt =====
-- infrastructure/db of apps/identity-service: the rows that the session and the user services read
-- and write, and the repository's statements over them. `id` is a primary key and `token_hash` a
-- unique index, so a statement that names one touches the first row that has it.
use bu_vi.Base.{
  ℕ, ◌+◌, String, Bool, false, ◌&&◌, Option, none, some, List, [], ◌∷◌, if◌then◌else◌, ◌=s◌, has,
  true,
}
use bu_vi.Auth.Principal.{MfaMethod}
use bu_vi.Identity.Policies.{Policies}

-- `User`, with its rows of `user_roles`
pub record User : Type 0 where
  pub id : String
  pub tenant_id : String
  pub status : String
  pub roles : List String

-- `Session`
pub record Session : Type 0 where
  pub id : String
  pub user_id : String
  pub tenant_id : String
  pub token_hash : String
  pub created_at : ℕ
  pub last_seen_at : ℕ
  pub expires_at : ℕ
  pub revoked_at : Option ℕ
  pub mfa_verified_at : Option ℕ
  pub mfa_verified_method : Option MfaMethod

-- `ApiKey`
pub record ApiKey : Type 0 where
  pub id : String
  pub tenant_id : String
  pub owner_user_id : Option String
  pub scopes : List String
  pub expires_at : Option ℕ
  pub revoked_at : Option ℕ

pub record Db : Type 0 where
  pub users : List User
  pub sessions : List Session
  pub api_keys : List ApiKey
  -- `get_policies`, by tenant
  pub policies : String → Policies

unfoldable pub find_user : String → List User → Option User
find_user id [] = none
find_user id (u ∷ us) = if u.id =s id then some u else find_user id us

-- `get_user`
unfoldable pub get_user : Db → String → String → Option User
get_user db tenant_id user_id = elim (find_user user_id db.users) [
  | none ↦ none
  | some u ↦ if u.tenant_id =s tenant_id then some u else none
]

-- `get_user_role_keys`
unfoldable pub get_user_role_keys : Db → String → List String
get_user_role_keys db user_id = elim (find_user user_id db.users) [ none ↦ [] | some u ↦ u.roles ]

unfoldable pub update_user : (User → User) → String → List User → List User
update_user f id [] = []
update_user f id (u ∷ us) = if u.id =s id then f u ∷ us else u ∷ update_user f id us

-- An active `org_admin` of the tenant.
abbrev pub is_active_admin : String → User → Bool
is_active_admin tenant_id u =
    u.tenant_id =s tenant_id && (u.status =s "active" && has "org_admin" u.roles)

unfoldable pub count_admins : String → List User → ℕ
count_admins tenant_id [] = 0
count_admins tenant_id (u ∷ us) =
    (if is_active_admin tenant_id u then 1 else 0) + count_admins tenant_id us

-- `count_active_org_admins`
unfoldable pub count_active_org_admins : Db → String → ℕ
count_active_org_admins db tenant_id = count_admins tenant_id db.users

-- `get_session_by_token_hash`
unfoldable pub find_session : String → List Session → Option Session
find_session h [] = none
find_session h (s ∷ ss) = if s.token_hash =s h then some s else find_session h ss

unfoldable pub find_by_id : String → List Session → Option Session
find_by_id id [] = none
find_by_id id (s ∷ ss) = if s.id =s id then some s else find_by_id id ss

abbrev pub is_revoked : Session → Bool
is_revoked s = elim s.revoked_at [ none ↦ false | some _ ↦ true ]

unfoldable pub update_session : (Session → Session) → String → List Session → List Session
update_session f id [] = []
update_session f id (s ∷ ss) = if s.id =s id then f s ∷ ss else s ∷ update_session f id ss

-- `revoke_session`: sets `revoked_at` where it is null
abbrev pub revoked : ℕ → Session → Session
revoked now s = elim s.revoked_at [ none ↦ record s { revoked_at = some now } | some _ ↦ s ]

-- `revoke_all_sessions_for_user`
unfoldable pub revoke_for_user : String → String → ℕ → List Session → List Session
revoke_for_user tenant_id user_id now [] = []
revoke_for_user tenant_id user_id now (s ∷ ss) =
    (if s.tenant_id =s tenant_id && s.user_id =s user_id then revoked now s else s)
    ∷ revoke_for_user tenant_id user_id now ss

abbrev pub is_owner : String → Option String → Bool
is_owner user_id none = false
is_owner user_id (some o) = o =s user_id

abbrev pub revoked_key : ℕ → ApiKey → ApiKey
revoked_key now k = elim k.revoked_at [ none ↦ record k { revoked_at = some now } | some _ ↦ k ]

-- `revoke_api_keys_for_owner`
unfoldable pub revoke_keys : String → String → ℕ → List ApiKey → List ApiKey
revoke_keys tenant_id user_id now [] = []
revoke_keys tenant_id user_id now (k ∷ ks) =
    (if k.tenant_id =s tenant_id && is_owner user_id k.owner_user_id then revoked_key now k else k)
    ∷ revoke_keys tenant_id user_id now ks
