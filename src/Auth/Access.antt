-- ===== src/Auth/Access.antt =====
-- dependencies.py of packages/python/platform-auth: the checks that a route composes.
use bu_vi.Base.{
  ℕ, ◌≡◌, ◌≢◌, refl, String, true, false, not, ◌&&◌, Option, none, some, arith, if◌then◌else◌, ◌=s◌,
  =s_iff, Result, ok, err, ◌↔◌, ◌⊎◌,
}
use bu_vi.Auth.Principal.{Principal, has_permission, is_platform_operator, step_up_is_fresh}

-- The answers: 403, 404, and the demand for a step-up.
pub data Refusal : Type 0 where
  forbidden not_found step_up_required : Refusal

unfoldable pub require_permission : String → Principal → Result Refusal Principal
require_permission permission p = if not (has_permission p permission) then err forbidden else ok p

-- The resource's tenant is what the injected loader found.
unfoldable pub require_resource_owner : Option String → Principal → Result Refusal Principal
require_resource_owner none p = err not_found
require_resource_owner (some tenant) p =
    if not (tenant =s p.tenant_id) && not (is_platform_operator p) then err not_found else ok p

unfoldable pub require_step_up : ℕ → Principal → Result Refusal Principal
require_step_up now p = if not (step_up_is_fresh p now false) then err step_up_required else ok p

-- For a caller who is no platform operator, a resource of another tenant is answered exactly as a
-- resource that does not exist.
pub require_resource_owner-foreign :
    (tenant : String) (p : Principal)
    → is_platform_operator p ≡ false
    → tenant ≢ p.tenant_id
    → require_resource_owner (some tenant) p ≡ require_resource_owner none p
unfolding require_resource_owner
require_resource_owner-foreign tenant p h d = ground (arith, =s_iff tenant p.tenant_id)

-- The ownership check passes exactly when the resource exists and is of the caller's tenant, or
-- exists and the caller is a platform operator.
pub require_resource_owner_iff :
    (tenant : Option String) (p : Principal)
    → (require_resource_owner tenant p ≡ ok p)
      ↔ ((t : String) × (tenant ≡ some t) × ((t ≡ p.tenant_id) ⊎ (is_platform_operator p ≡ true)))
unfolding require_resource_owner
require_resource_owner_iff none p = (λ h. cc, λ h. cc (h.1))
require_resource_owner_iff (some t) p = (
  λ h. (t, refl, ground (arith, =s_iff t p.tenant_id)),
  λ h. ground (arith, =s_iff t p.tenant_id),
)
