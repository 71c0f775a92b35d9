-- ===== src/Identity/Users/Deletion.antt =====
-- What a deleted user can still do: nothing that starts from a session.
use bu_vi.Base.{
  Option-cases, ◌&&◌, ℕ, ◌≡◌, refl, String, Bool, true, false, some, List, [], ◌∷◌, arith,
  if◌then◌else◌, ◌=s◌, Bool-cases, inl, inr, ok, err, ap, ◌∙◌, =s_refl, =s_iff,
}
use bu_vi.Identity.Policies.{SessionLifetime}
use bu_vi.Identity.Db.{
  User, Session, Db, find_user, get_user, update_user, find_session, revoke_for_user,
}
use bu_vi.Identity.Sessions.{Tokens, session_expired, resolve, resolve-revoked_rows}
use bu_vi.Identity.Users.Service.{deactivate, delete_user, count_open, force_revoke_sessions}
use bu_vi.Identity.Users.Admins.{delete_user-parts}

find-update_user :
    (f : User → User) (id : String) (us : List User) (u : User)
    → find_user id us ≡ some u
    → (f u).id ≡ u.id
    → find_user id (update_user f id us) ≡ some (f u)
unfolding find_user update_user
find-update_user f id [] u h e = cc
find-update_user f id (x ∷ us) u h e = elim (Bool-cases (x.id =s id)) [
  | inl here ↦
      let same : x ≡ u = ground arith in
      let at : ((f u).id =s id) ≡ true = rw e (rw same at here) in
      rw (here, same) (rw (at, find_user))
  | inr there ↦ rw (there, there) (find-update_user f id us u (rw there at h) e)
]

deactivate-sessions :
    (db : Db) (t target : String) (at : ℕ)
    → (deactivate db t target at).sessions ≡ revoke_for_user t target at db.sessions
unfolding deactivate
deactivate-sessions db t target at = refl

get_user-of_find :
    (db : Db) (t id : String) (v : User)
    → find_user id db.users ≡ some v
    → (v.tenant_id =s t) ≡ true
    → get_user db t id ≡ some v
unfolding get_user
get_user-of_find db t id v h e = rw (h, get_user) (rw e)

deactivate-user :
    (db : Db) (t target : String) (at : ℕ) (u : User)
    → get_user db t target ≡ some u
    → get_user (deactivate db t target at) t target ≡ some (record u { status = "deactivated" })
unfolding get_user deactivate
deactivate-user db t target at u h =
    let found : find_user target db.users ≡ some u = ground arith in
    let mine : (u.tenant_id =s t) ≡ true = ground arith in
    let f : User → User =
      λ v. if v.tenant_id =s t then record v { status = "deactivated" } else v in
    let e : f u ≡ record u { status = "deactivated" } = rw mine in
    let now : find_user target (update_user f target db.users) ≡ some (f u) =
      find-update_user f target db.users u found (ap (λ (v : User). v.id) e) in
    get_user-of_find (deactivate db t target at) t target (record u { status = "deactivated" })
      (now ∙ ap some e) mine

-- After a user is deleted, by somebody else, the user's row is deactivated, and a token of any
-- session of the user in that tenant is refused at any time.
pub delete_user-resolve :
    (tokens : Tokens) (lifetime : SessionLifetime) (cascade : Bool) (db after : Db)
    (t actor target : String) (at now : ℕ) (token : String) (row : Session)
    → delete_user cascade db t actor target at ≡ ok after
    → find_session (tokens.hash_token token) db.sessions ≡ some row
    → row.tenant_id ≡ t
    → row.user_id ≡ target
    → (resolve tokens lifetime after now token ≡ err session_expired)
      × ((u : User) × (get_user after t target ≡ some u) × (u.status ≡ "deactivated"))
      × ((actor =s target) ≡ false)
delete_user-resolve tokens lifetime cascade db after t actor target at now token row h found mine
      whose =
    let (u, here, other, e, _) = delete_user-parts cascade db t actor target at after h in
    let rows : after.sessions ≡ revoke_for_user row.tenant_id row.user_id at db.sessions =
      rw (e, mine, whose) (deactivate-sessions db t target at) in
    (
      resolve-revoked_rows tokens lifetime after db.sessions at now token row found rows,
      (record u { status = "deactivated" }, rw e (deactivate-user db t target at u here), refl),
      other,
    )

count_open-revoke_for_user :
    (t u : String) (now : ℕ) (t' u' : String) (ss : List Session)
    → count_open t' u' (revoke_for_user t u now ss)
      ≡ (if t =s t' && u =s u' then 0 else count_open t' u' ss)
unfolding count_open revoke_for_user
count_open-revoke_for_user t u now t' u' [] = ground arith
count_open-revoke_for_user t u now t' u' (s ∷ ss) = ground (
  arith,
  count_open-revoke_for_user t u now t' u' ss,
  =s_iff s.tenant_id t,
  =s_iff s.tenant_id t',
  =s_iff s.user_id u,
  =s_iff s.user_id u',
  =s_iff t t',
  =s_iff u u',
)

-- A forced logout that succeeds reports the number of sessions of the user in the tenant that were
-- not revoked; afterwards the user has none of them, and every other user has as many as before.
pub force_revoke_sessions-count_open :
    (db after : Db) (t target : String) (now n : ℕ) (t' u' : String)
    → force_revoke_sessions db t target now ≡ ok (n, after)
    → (n ≡ count_open t target db.sessions)
      × (count_open t target after.sessions ≡ 0)
      × (count_open t' u' after.sessions
          ≡ (if t =s t' && target =s u' then 0 else count_open t' u' db.sessions))
unfolding force_revoke_sessions
force_revoke_sessions-count_open db after t target now n t' u' h =
    elim (Option-cases (get_user db t target)) [
      | inl e ↦ absurd (ground arith)
      | inr (u, e) ↦ (
        ground arith,
        ground (
          arith,
          count_open-revoke_for_user t target now t target db.sessions,
          =s_refl t,
          =s_refl target,
        ),
        ground (arith, count_open-revoke_for_user t target now t' u' db.sessions),
      )
    ]
