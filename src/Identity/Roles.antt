-- ===== src/Identity/Roles.antt =====
-- domain/policies/roles.py of apps/identity-service. A frozenset of texts is a list of texts.
use bu_vi.Base.{
  ℕ, ◌≡◌, refl, String, Bool, true, false, not, ◌&&◌, ◌||◌, List, [], ◌∷◌, ◌++◌, arith, leb,
  if◌then◌else◌, ◌=s◌, =s_iff, has, has-append, all, Result, ok, err, guard, ◌>>◌, Bool-cases, inl,
  inr,
}
use bu_vi.Auth.Permissions.{tenant_roles}

pub data Error : Type 0 where
  unknown_role last_org_admin self_service_forbidden not_found cascade_unavailable : Error

-- `RoleChange`
pub record RoleChange : Type 0 where
  pub grant : List String
  pub revoke : List String

-- `keys - gone`
unfoldable pub minus : List String → List String → List String
minus [] gone = []
minus (k ∷ keys) gone = if has k gone then minus keys gone else k ∷ minus keys gone

-- `validate_role_keys`
unfoldable pub validate_role_keys : List String → Result Error (Unit {0})
validate_role_keys keys = guard (all (λ k. has k tenant_roles) keys) unknown_role

unfoldable pub apply_role_change : List String → RoleChange → Result Error (List String)
unfolding validate_role_keys
apply_role_change current change = do
  validate_role_keys (change.grant ++ change.revoke)
  ok (minus (current ++ change.grant) change.revoke)

unfoldable pub assert_tenant_keeps_an_org_admin : ℕ → Bool → Bool → Result Error (Unit {0})
assert_tenant_keeps_an_org_admin org_admin_count target_is target_remains =
    if not target_is || target_remains
    then ok tt
    else if leb org_admin_count 1
    then err last_org_admin
    else ok tt

unfoldable pub assert_not_self_target : String → String → Result Error (Unit {0})
assert_not_self_target actor_user_id target_user_id =
    if actor_user_id =s target_user_id then err self_service_forbidden else ok tt

unfoldable pub default_role_for_jit_provisioning : String
default_role_for_jit_provisioning = "client"

pub has_transport :
    (a b : String) (ks : List String) (v : Bool) → (a =s b) ≡ true → has b ks ≡ v → has a ks ≡ v
has_transport a b ks v e h = rw ((=s_iff a b).0 e) h

pub has-minus :
    (k : String) (keys gone : List String)
    → has k (minus keys gone) ≡ (has k keys && not (has k gone))
unfolding minus has
has-minus k [] gone = refl
has-minus k (x ∷ keys) gone =
    ground (arith, has-minus k keys gone, has_transport k x gone true, has_transport k x gone false)

all-has :
    (k : String) (p : String → Bool) (keys : List String)
    → all p keys ≡ true
    → has k keys ≡ true
    → p k ≡ true
unfolding has
all-has k p [] h m = cc
all-has k p (x ∷ keys) h m = elim (Bool-cases (k =s x)) [
  | inl e ↦ rw ((=s_iff k x).0 e) (ground arith)
  | inr other ↦ all-has k p keys (ground arith) (rw other at m)
]

-- When a change of roles succeeds, the user has a role afterwards exactly when the user had it or
-- was granted it, and it was not revoked: a revocation wins over a grant of the same role.
pub has-apply_role_change :
    (k : String) (current : List String) (change : RoleChange) {after : List String}
    → apply_role_change current change ≡ ok after
    → has k after ≡ ((has k current || has k change.grant) && not (has k change.revoke))
unfolding apply_role_change
has-apply_role_change k current change {after} h =
    let e : after ≡ minus (current ++ change.grant) change.revoke = ground arith in
    rw (e, has-minus, has-append)

-- A role that a successful change adds is one of the tenant roles, and never the platform's.
pub apply_role_change-tenant_role :
    (k : String) (current : List String) (change : RoleChange) {after : List String}
    → apply_role_change current change ≡ ok after
    → has k current ≡ false
    → has k after ≡ true
    → has k tenant_roles ≡ true
unfolding apply_role_change
apply_role_change-tenant_role k current change h new held =
    all-has k (λ r. has r tenant_roles) (change.grant ++ change.revoke) (ground arith)
      (rw has-append (ground (arith, has-apply_role_change k current change h)))
