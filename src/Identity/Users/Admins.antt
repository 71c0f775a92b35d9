-- ===== src/Identity/Users/Admins.antt =====
-- A tenant that has an active org_admin keeps one, whatever its administrators request.
use bu_vi.Base.{
  ℕ, ◌+◌, ◌≤◌, ◌<◌, ◌≡◌, String, Bool, true, false, not, ◌&&◌, ◌||◌, some, List, [], ◌∷◌, ◌++◌,
  arith, if◌then◌else◌, ◌=s◌, =s_iff, has, has-append, Bool-cases, Option-cases, inl, inr, ok, ◌>>◌,
  ◌⊎◌, ap, >>=-eq-ok, Result-cases,
}
use bu_vi.Identity.Roles.{
  RoleChange, minus, has-minus, has_transport, apply_role_change, assert_not_self_target,
  assert_tenant_keeps_an_org_admin,
}
use bu_vi.Identity.Db.{
  User, Db, find_user, get_user, get_user_role_keys, update_user, is_active_admin, count_admins,
  count_active_org_admins,
}
use bu_vi.Identity.Users.Service.{
  grant_roles, revoke_roles, store_roles, check_admin_removal, change_roles, deactivate,
  delete_user, Request, change, delete, handle, handle_all,
}

abbrev admin_flag : String → User → ℕ
admin_flag t u = if is_active_admin t u then 1 else 0

flag_le : (t : String) (u : User) → admin_flag t u ≤ 1
flag_le t u = ground arith

-- Updating one row changes the count by that row alone.
count-update_user :
    (t : String) (f : User → User) (id : String) (us : List User) (u : User)
    → find_user id us ≡ some u
    → count_admins t (update_user f id us) + admin_flag t u ≡ count_admins t us + admin_flag t (f u)
unfolding count_admins update_user find_user
count-update_user t f id [] u h = cc
count-update_user t f id (x ∷ us) u h = elim (Bool-cases (x.id =s id)) [
  | inl here ↦ let e : x ≡ u = ground arith in rw (here, e) (omega arith)
  | inr there ↦ rw there (omega (arith, count-update_user t f id us u (rw there at h)))
]

grant_roles-parts :
    (keys : List String) (u : User) (k : String)
    → ((grant_roles keys u).tenant_id ≡ u.tenant_id)
      × ((grant_roles keys u).status ≡ u.status)
      × (has k (grant_roles keys u).roles ≡ (has k u.roles || has k keys))
unfolding grant_roles has
grant_roles-parts [] u k = ground arith
grant_roles-parts (key ∷ keys) u k =
    let x : User = record u { roles = u.roles ++ key ∷ [] } in
    ground (
      arith,
      grant_roles-parts keys u k,
      grant_roles-parts keys x k,
      has_transport k key u.roles true,
      has-append k u.roles (key ∷ []),
    )

revoke_roles-parts :
    (keys : List String) (u : User) (k : String)
    → ((revoke_roles keys u).tenant_id ≡ u.tenant_id)
      × ((revoke_roles keys u).status ≡ u.status)
      × (has k (revoke_roles keys u).roles ≡ (has k u.roles && not (has k keys)))
unfolding revoke_roles has
revoke_roles-parts [] u k = ground arith
revoke_roles-parts (key ∷ keys) u k =
    let x : User = record u { roles = minus u.roles (key ∷ []) } in
    ground (arith, revoke_roles-parts keys x k, has-minus k u.roles (key ∷ []))

-- The loops leave exactly the resulting roles.
store_roles-parts :
    (current resulting : List String) (u : User) (k : String)
    → has k u.roles ≡ has k current
    → ((store_roles current resulting u).tenant_id ≡ u.tenant_id)
      × ((store_roles current resulting u).status ≡ u.status)
      × (has k (store_roles current resulting u).roles ≡ has k resulting)
unfolding store_roles
store_roles-parts current resulting u k h =
    let x = grant_roles (minus resulting current) u in
    ground (
      arith,
      grant_roles-parts (minus resulting current) u k,
      revoke_roles-parts (minus current resulting) x k,
      has-minus k resulting current,
      has-minus k current resulting,
    )

get_user-find :
    (db : Db) (t id : String) (u : User)
    → get_user db t id ≡ some u
    → (find_user id db.users ≡ some u) × ((u.tenant_id =s t) ≡ true)
unfolding get_user
get_user-find db t id u h = ground arith

roles_of_found :
    (db : Db) (id : String) (u : User)
    → find_user id db.users ≡ some u
    → get_user_role_keys db id ≡ u.roles
unfolding get_user_role_keys
roles_of_found db id u h = rw (h, get_user_role_keys)

-- A removal that passes the checks leaves another active admin.
removal-checked :
    (db : Db) (t actor target : String) (removes : Bool)
    → check_admin_removal db t actor target removes ≡ ok tt
    → (removes ≡ false) ⊎ (1 < count_admins t db.users)
unfolding check_admin_removal assert_not_self_target assert_tenant_keeps_an_org_admin
    count_active_org_admins
removal-checked db t actor target removes h = ground arith

other_tenant :
    (t t' : String) (u v : User)
    → (u.tenant_id =s t) ≡ true
    → v.tenant_id ≡ u.tenant_id
    → (t =s t') ≡ false
    → (admin_flag t' u ≡ 0) × (admin_flag t' v ≡ 0)
other_tenant t t' u v h e d =
    let p : u.tenant_id ≡ t = (=s_iff u.tenant_id t).0 h in (rw (p, d), rw (e, p, d))

-- An update of one row of tenant `t` that takes away no active admin but where another stays.
keeps_admin :
    (db : Db) (t t' target : String) (f : User → User) (u : User)
    → get_user db t target ≡ some u
    → (f u).tenant_id ≡ u.tenant_id
    → (admin_flag t u ≤ admin_flag t (f u)) ⊎ (1 < count_admins t db.users)
    → 0 < count_admins t' db.users
    → 0 < count_admins t' (update_user f target db.users)
keeps_admin db t t' target f u found tenant safe some_admin =
    let (at, mine) = get_user-find db t target u found in
    elim (Bool-cases (t =s t')) [
      | inl same ↦
          let e : t ≡ t' = (=s_iff t t').0 same in
          rw (← e) (
            omega (
              arith,
              count-update_user t f target db.users u at,
              rw (← e) at some_admin,
              flag_le t u,
              safe,
            ))
      | inr other ↦ omega (
        arith,
        count-update_user t' f target db.users u at,
        other_tenant t t' u (f u) mine tenant other,
      )
    ]

-- The parts of a change of roles that succeeds.
pub record Changed (db : Db) (t actor target : String) (c : RoleChange)
    (out : (List String × List String) × Db) : Type 0 where
  pub user : User
  pub resulting : List String
  pub found : get_user db t target ≡ some user
  pub applied : apply_role_change (get_user_role_keys db target) c ≡ ok resulting
  pub checked :
      check_admin_removal db t actor target
        (has "org_admin" (get_user_role_keys db target) && not (has "org_admin" resulting))
      ≡ ok tt
  pub roles : out.0 ≡ (get_user_role_keys db target, resulting)
  pub users :
      out.1.users
      ≡ update_user (store_roles (get_user_role_keys db target) resulting) target db.users

pub change_roles-Changed :
    (db : Db) (t actor target : String) (c : RoleChange) (out : (List String × List String) × Db)
    → change_roles db t actor target c ≡ ok out
    → Changed db t actor target c out
unfolding change_roles
change_roles-Changed db t actor target c out h =
    let current = get_user_role_keys db target in
    elim (Option-cases (get_user db t target)) [
      | inl e ↦ absurd (ground arith)
      | inr (u, e) ↦
          let (resulting, applied, rest) =
            >>=-eq-ok {B = (List String × List String) × Db} (apply_role_change current c)
              (λ resulting. do
                check_admin_removal db t actor target
                    (has "org_admin" current && not (has "org_admin" resulting))
                ok (
                  (current, resulting),
                  record db { users = update_user (store_roles current resulting) target db.users },
                ))
              {b = out} (ground arith) in
          record {
            user = u;
            resulting = resulting;
            found = e;
            applied = applied;
            checked = ground arith;
            roles = ground arith;
            users = ground arith;
          }
    ]

-- For every tenant: if it has an active `org_admin` before a change of roles, it has one after it.
pub change_roles-keeps_admin :
    (db : Db) (t actor target t' : String) (c : RoleChange) (out : (List String × List String) × Db)
    → change_roles db t actor target c ≡ ok out
    → 0 < count_active_org_admins db t'
    → 0 < count_active_org_admins out.1 t'
unfolding count_active_org_admins
change_roles-keeps_admin db t actor target t' c out h some_admin =
    let x = change_roles-Changed db t actor target c out h in
    let current = get_user_role_keys db target in
    let own : current ≡ x.user.roles =
      roles_of_found db target x.user (get_user-find db t target x.user x.found).0 in
    let stored = store_roles-parts current x.resulting x.user "org_admin" (rw own) in
    rw x.users (
      keeps_admin db t t' target (store_roles current x.resulting) x.user x.found stored.0
        (ground (
          arith,
          stored,
          removal-checked db t actor target
              (has "org_admin" current && not (has "org_admin" x.resulting)) x.checked,
          ap (has "org_admin") own,
        ))
        some_admin)

-- The parts of a deletion that succeeds.
pub delete_user-parts :
    (cascade : Bool) (db : Db) (t actor target : String) (now : ℕ) (after : Db)
    → delete_user cascade db t actor target now ≡ ok after
    → (u : User) × (get_user db t target ≡ some u)
      × ((actor =s target) ≡ false)
      × (after ≡ deactivate db t target now)
      × ((has "org_admin" (get_user_role_keys db target) ≡ false) ⊎ (1 < count_admins t db.users))
unfolding delete_user assert_not_self_target assert_tenant_keeps_an_org_admin
    count_active_org_admins
delete_user-parts cascade db t actor target now after h =
    elim (Option-cases (get_user db t target)) [
      | inl e ↦ absurd (ground arith)
      | inr (u, e) ↦ (u, e, ground arith, ground arith, ground arith)
    ]

not_admin : (t : String) (u : User) → has "org_admin" u.roles ≡ false → admin_flag t u ≡ 0
not_admin t u h = ground arith

-- For every tenant: if it has an active `org_admin` before a user is deleted, it has one after it.
pub delete_user-keeps_admin :
    (cascade : Bool) (db : Db) (t actor target t' : String) (now : ℕ) (after : Db)
    → delete_user cascade db t actor target now ≡ ok after
    → 0 < count_active_org_admins db t'
    → 0 < count_active_org_admins after t'
unfolding count_active_org_admins deactivate
delete_user-keeps_admin cascade db t actor target t' now after h some_admin =
    let (u, found, other, e, safe) = delete_user-parts cascade db t actor target now after h in
    let f = λ (v : User). if v.tenant_id =s t then record v { status = "deactivated" } else v in
    rw e (
      keeps_admin db t t' target f u found (ground arith)
        (elim safe [
          | inl plain ↦
              let p : has "org_admin" u.roles ≡ false =
                rw (roles_of_found db target u (get_user-find db t target u found).0) at plain in
              inl (omega (arith, not_admin t u p))
          | inr more ↦ inr more
        ])
        some_admin)

handle-keeps_admin :
    (r : Request) (db : Db) (t : String)
    → 0 < count_active_org_admins db t
    → 0 < count_active_org_admins (handle db r) t
unfolding handle
handle-keeps_admin (change t₀ actor target c) db t h =
    elim (Result-cases (change_roles db t₀ actor target c)) [
      | inl (out, e) ↦ rw (e, handle) (change_roles-keeps_admin db t₀ actor target t c out e h)
      | inr (_, e) ↦ rw (e, handle) h
    ]
handle-keeps_admin (delete t₀ actor target now cascade) db t h =
    elim (Result-cases (delete_user cascade db t₀ actor target now)) [
      | inl (out, e) ↦
          rw (e, handle) (delete_user-keeps_admin cascade db t₀ actor target t now out e h)
      | inr (_, e) ↦ rw (e, handle) h
    ]

-- Whatever a series of role changes and deletions asks, by whom and in which tenant, whichever of
-- them are refused, and where each runs after the one before it has ended: a tenant with an active
-- `org_admin` at the start has one at the end.
pub handle_all-keeps_admin :
    (rs : List Request) (db : Db) (t : String)
    → 0 < count_active_org_admins db t
    → 0 < count_active_org_admins (handle_all db rs) t
unfolding handle_all
handle_all-keeps_admin [] db t h = h
handle_all-keeps_admin (r ∷ rs) db t h =
    handle_all-keeps_admin rs (handle db r) t (handle-keeps_admin r db t h)
