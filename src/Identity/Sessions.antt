-- ===== src/Identity/Sessions.antt =====
-- application/services/session_service.py of apps/identity-service: `create`, `resolve`, `revoke`,
-- `revoke_all_for_user` and `mark_mfa_verified` over the rows of `Db`. SHA-256 is a parameter.
-- The secret store of the IdP's tokens is not modelled.
use bu_vi.Base.{
  ℕ, refl, String, true, false, not, ◌||◌, Option, none, some, ltb, if◌then◌else◌, ◌=s◌, Result, ok,
  err, ◌>>=◌, ◌≡◌, ◌∷◌, ◌<◌, ◌-◌, arith, has, Option-cases, inl, inr, [], ◌∷◌, ap, =s_iff, Bool,
  List, ◌&&◌, Bool-cases, =s_refl, sym, ◌∙◌,
}
use bu_vi.Auth.Principal.{Principal, session, is_platform_operator, MfaMethod}
use bu_vi.Identity.Policies.{
  SessionLifetime, is_expired, effective_permissions, webauthn_required, absolute_expiry,
  effective_permissions-wildcard,
}
use bu_vi.Identity.Db.{
  User, Session, Db, get_user, get_user_role_keys, find_session, update_session, revoke_for_user,
  find_by_id, revoked, is_revoked, find_user,
}

pub data SessionError : Type 0 where
  session_expired user_not_active : SessionError

abbrev pub max_session_token_length : ℕ
max_session_token_length = 256

-- `hash_token` is SHA-256 on text, and `len` counts characters.
pub record Tokens : Type 0 where
  pub hash_token : String → String
  pub len : String → ℕ

unfoldable pub principal_of : Db → Session → User → Principal
principal_of db row user =
    let role_keys = get_user_role_keys db user.id in
    let policies = db.policies user.tenant_id in
    let permissions = effective_permissions role_keys policies in
    record {
      user_id = user.id;
      tenant_id = user.tenant_id;
      permissions = permissions;
      auth_method = session;
      mfa_verified = elim row.mfa_verified_at [ none ↦ false | some _ ↦ true ];
      session_id = some row.id;
      mfa_verified_at = row.mfa_verified_at;
      roles = role_keys;
      mfa_method = row.mfa_verified_method;
      webauthn_required = webauthn_required role_keys policies permissions;
    }

not_expired :
    (now last_seen_at expires_at : ℕ) (revoked_at : Option ℕ) (lifetime : SessionLifetime)
    → is_expired now last_seen_at expires_at revoked_at lifetime ≡ false
    → (revoked_at ≡ none) × (now < expires_at) × (now - last_seen_at < lifetime.idle_timeout)
unfolding is_expired
not_expired now last_seen_at expires_at (some t) lifetime h = cc
not_expired now last_seen_at expires_at none lifetime h = ground arith

hash-revoked : (now : ℕ) (s : Session) → (revoked now s).token_hash ≡ s.token_hash
hash-revoked now s = ground arith

hash-revoke_if :
    (now : ℕ) (b : Bool) (s : Session) → (if b then revoked now s else s).token_hash ≡ s.token_hash
hash-revoke_if now true s = hash-revoked now s
hash-revoke_if now false s = refl

find_user-id : (id : String) (us : List User) (u : User) → find_user id us ≡ some u → u.id ≡ id
unfolding find_user
find_user-id id [] u h = cc
find_user-id id (x ∷ us) u h = elim (Bool-cases (x.id =s id)) [
  | inl e ↦ let same : x ≡ u = ground arith in rw (sym same) ((=s_iff x.id id).0 e)
  | inr e ↦ find_user-id id us u (rw e at h)
]

-- The user of an id, who belongs to the tenant.
get_user-some :
    (db : Db) (tenant_id user_id : String) (u : User)
    → get_user db tenant_id user_id ≡ some u
    → (find_user user_id db.users ≡ some u) × (u.id ≡ user_id) × (u.tenant_id ≡ tenant_id)
unfolding get_user
get_user-some db tenant_id user_id u h = elim (Option-cases (find_user user_id db.users)) [
  | inl e ↦ absurd (ground arith)
  | inr (x, e) ↦
      let same : x ≡ u = ground arith in
      let found : find_user user_id db.users ≡ some u = rw (sym same) e in
      (
        found,
        find_user-id user_id db.users u found,
        (=s_iff u.tenant_id tenant_id).0 (ground arith),
      )
]

module _ (tokens : Tokens) (lifetime : SessionLifetime) where
  -- the row of a presented token
  unfoldable pub lookup_token : Db → String → Option Session
  lookup_token db token =
      if token =s "" || ltb max_session_token_length (tokens.len token)
      then none
      else find_session (tokens.hash_token token) db.sessions

  unfoldable pub resolve_row : Db → ℕ → Session → Result SessionError (Session × User × Principal)
  resolve_row db now row =
      if is_expired now row.last_seen_at row.expires_at row.revoked_at lifetime
      then err session_expired
      else elim (get_user db row.tenant_id row.user_id) [
        | none ↦ err session_expired
        | some user ↦
            if not (user.status =s "active")
            then err user_not_active
            else ok (row, user, principal_of db row user)
      ]

  -- `touch_session` writes the row that was read
  unfoldable pub resolve : Db → ℕ → String → Result SessionError ((Session × User × Principal) × Db)
  resolve db now token = elim (lookup_token db token) [
    | none ↦ err session_expired
    | some row ↦ do
      found ← resolve_row db now row
      ok (
        found,
        record db {
          sessions = update_session (λ s. record s { last_seen_at = now }) row.id db.sessions;
        },
      )
  ]

  -- `create`: the new row; its id and its token are drawn at random by the caller.
  unfoldable pub create : Db → ℕ → User → String → String → Session × Db
  create db now user session_id token =
      let row : Session = record {
        id = session_id;
        user_id = user.id;
        tenant_id = user.tenant_id;
        token_hash = tokens.hash_token token;
        created_at = now;
        last_seen_at = now;
        expires_at = absolute_expiry now lifetime;
        revoked_at = none;
        mfa_verified_at = none;
        mfa_verified_method = none;
      } in
      (row, record db { sessions = row ∷ db.sessions })

  -- the guards of `resolve`, on a row that was found
  resolve_row-ok :
      (db : Db) (now : ℕ) (row row' : Session) (user : User) (p : Principal)
      → resolve_row db now row ≡ ok (row', user, p)
      → (row.revoked_at ≡ none)
        × (now < row.expires_at)
        × (now - row.last_seen_at < lifetime.idle_timeout)
        × (row' ≡ row)
        × (user.status ≡ "active")
        × (p ≡ principal_of db row user)
        × (get_user db row.tenant_id row.user_id ≡ some user)
  unfolding resolve_row
  resolve_row-ok db now row row' user p h =
      let live : is_expired now row.last_seen_at row.expires_at row.revoked_at lifetime ≡ false =
        ground arith in
      let g = not_expired now row.last_seen_at row.expires_at row.revoked_at lifetime live in
      (
        g.0,
        g.1,
        g.2,
        ground arith,
        (=s_iff user.status "active").0 (ground arith),
        ground arith,
        ground arith,
      )

  resolve-parts :
      (db db' : Db) (now : ℕ) (token : String) (t : Session × User × Principal)
      → resolve db now token ≡ ok (t, db')
      → (found : Session) × (lookup_token db token ≡ some found) × (resolve_row db now found ≡ ok t)
  unfolding resolve
  resolve-parts db db' now token t h = elim (Option-cases (lookup_token db token)) [
    | inl e ↦ absurd (ground arith)
    | inr (found, e) ↦ (found, e, ground arith)
  ]

  lookup_token-find :
      (db : Db) (token : String) (row : Session)
      → lookup_token db token ≡ some row
      → find_session (tokens.hash_token token) db.sessions ≡ some row
  unfolding lookup_token
  lookup_token-find db token row h = ground arith

  -- A token that is accepted names a session row that is not revoked, before its absolute end and
  -- not idle. The user is the stored one with the row's user id, belongs to the row's tenant and is
  -- active; the caller is that user, in that tenant and session, with the roles stored for the user,
  -- and is a platform operator exactly when one of them is `platform_super_admin`.
  pub resolve-ok :
      (db db' : Db) (now : ℕ) (token : String) (row : Session) (user : User) (p : Principal)
      → resolve db now token ≡ ok ((row, user, p), db')
      → (find_session (tokens.hash_token token) db.sessions ≡ some row)
        × (row.revoked_at ≡ none)
        × (now < row.expires_at)
        × (now - row.last_seen_at < lifetime.idle_timeout)
        × (user.id ≡ row.user_id)
        × (user.tenant_id ≡ row.tenant_id)
        × (find_user row.user_id db.users ≡ some user)
        × (user.status ≡ "active")
        × (p.user_id ≡ row.user_id)
        × (p.tenant_id ≡ row.tenant_id)
        × (p.session_id ≡ some row.id)
        × (p.roles ≡ get_user_role_keys db user.id)
        × (is_platform_operator p ≡ has "platform_super_admin" p.roles)
  unfolding principal_of is_platform_operator
  resolve-ok db db' now token row user p h =
      let (found, e, r) = resolve-parts db db' now token (row, user, p) h in
      let (unrevoked, before, recent, same, active, built, gets) =
        resolve_row-ok db now found row user p r in
      let (stored, own, tenant) = get_user-some db found.tenant_id found.user_id user gets in
      (
        rw same (lookup_token-find db token found e),
        rw same unrevoked,
        rw same before,
        rw same recent,
        own ∙ ap (λ x. x.user_id) (sym same),
        tenant ∙ ap (λ x. x.tenant_id) (sym same),
        ap (λ x. find_user x.user_id db.users) same ∙ stored,
        active,
        ap (λ x. x.user_id) built ∙ own ∙ ap (λ x. x.user_id) (sym same),
        ap (λ x. x.tenant_id) built ∙ tenant ∙ ap (λ x. x.tenant_id) (sym same),
        ap (λ x. x.session_id) built ∙ ap (λ x. some x.id) (sym same),
        rw built,
        rw built (
            effective_permissions-wildcard (get_user_role_keys db user.id)
              (db.policies user.tenant_id)),
      )

  -- `revoke_all_for_user`
  unfoldable pub revoke_all_for_user : Db → String → String → ℕ → Db
  revoke_all_for_user db tenant_id user_id now = record db {
    sessions = revoke_for_user tenant_id user_id now db.sessions;
  }

  -- `revoke`: whether a row was revoked
  unfoldable pub revoke : Db → String → String → ℕ → Bool × Db
  revoke db tenant_id session_id now = elim (find_by_id session_id db.sessions) [
    | none ↦ (false, db)
    | some s ↦
        if s.tenant_id =s tenant_id && not (is_revoked s)
        then (true, record db { sessions = update_session (revoked now) session_id db.sessions })
        else (false, db)
  ]

  -- `mark_mfa_verified`
  unfoldable pub mark_mfa_verified : Db → String → ℕ → MfaMethod → Db
  mark_mfa_verified db session_id at method = record db {
    sessions =
        update_session
          (λ s. record s { mfa_verified_at = some at; mfa_verified_method = some method })
          session_id db.sessions;
  }

  find-revoke_for_user :
      (t u : String) (now : ℕ) (h : String) (ss : List Session) (s : Session)
      → find_session h ss ≡ some s
      → (s.tenant_id =s t) ≡ true
      → (s.user_id =s u) ≡ true
      → find_session h (revoke_for_user t u now ss) ≡ some (revoked now s)
  unfolding find_session revoke_for_user
  find-revoke_for_user t u now h [] s f a b = cc
  find-revoke_for_user t u now h (x ∷ ss) s f a b = elim (Bool-cases (x.token_hash =s h)) [
    | inl here ↦
        let e : x ≡ s = ground arith in
        let touched : (x.tenant_id =s t && x.user_id =s u) ≡ true = rw e (rw (a, b)) in
        rw touched (rw (hash-revoked now x, here) (ap (λ y. some (revoked now y)) e))
    | inr there ↦
        rw (hash-revoke_if now (x.tenant_id =s t && x.user_id =s u) x, there)
          (find-revoke_for_user t u now h ss s (rw there at f) a b)
  ]

  resolve_row-revoked :
      (db : Db) (now at : ℕ) (row : Session)
      → resolve_row db now (revoked at row) ≡ err session_expired
  unfolding resolve_row is_expired
  resolve_row-revoked db now at row = ground arith

  -- A token of a row that was revoked with all its user's rows is refused.
  pub resolve-revoked_rows :
      (db : Db) (ss : List Session) (at now : ℕ) (token : String) (row : Session)
      → find_session (tokens.hash_token token) ss ≡ some row
      → db.sessions ≡ revoke_for_user row.tenant_id row.user_id at ss
      → resolve db now token ≡ err session_expired
  resolve-revoked_rows db ss at now token row h rows =
      let kept : find_session (tokens.hash_token token) db.sessions ≡ some (revoked at row) =
        rw rows (
          find-revoke_for_user row.tenant_id row.user_id at (tokens.hash_token token) ss row h
            (=s_refl row.tenant_id) (=s_refl row.user_id)) in
      elim (Option-cases (lookup_token db token)) [
        | inl e ↦ unfold resolve in rw (e, resolve)
        | inr (r, e) ↦
            let same : r ≡ revoked at row = ground (arith, lookup_token-find db token r e) in
            let refused : resolve_row db now r ≡ err session_expired =
              rw same (resolve_row-revoked db now at row) in
            unfold resolve in rw (e, refused, resolve)
      ]

  -- Once all sessions of a user are revoked, a token that names one of them is refused at any time.
  pub resolve-revoke_all_for_user :
      (db : Db) (at now : ℕ) (token : String) (row : Session)
      → find_session (tokens.hash_token token) db.sessions ≡ some row
      → resolve (revoke_all_for_user db row.tenant_id row.user_id at) now token
        ≡ err session_expired
  unfolding revoke_all_for_user
  resolve-revoke_all_for_user db at now token row h =
      resolve-revoked_rows (revoke_all_for_user db row.tenant_id row.user_id at) db.sessions at now
        token row h refl
