-- ===== src/Auth/Principal.antt =====
-- principal.py of packages/python/platform-auth. Instants are counted in microseconds.
use bu_vi.Base.{
  ℕ, ◌-◌, ◌≤◌, ◌≡◌, refl, String, Bool, true, false, not, ◌&&◌, ◌||◌, Option, none, some, List,
  arith, leb, if◌then◌else◌, ◌=s◌, has, Result, ok, err, ◌>>=◌,
}
use mathlib.Core.Option

pub data AuthMethod : Type 0 where
  session api_key service_jwt : AuthMethod

pub data MfaMethod : Type 0 where
  totp webauthn : MfaMethod

abbrev pub method_eq : MfaMethod → MfaMethod → Bool
method_eq totp totp = true
method_eq webauthn webauthn = true
method_eq _ _ = false

-- `timedelta(minutes=5)`
abbrev pub step_up_max_age : ℕ
step_up_max_age = 300000000

pub record Principal : Type 0 where
  pub user_id : String
  pub tenant_id : String
  pub permissions : List String
  pub auth_method : AuthMethod
  pub mfa_verified : Bool
  pub session_id : Option String
  pub mfa_verified_at : Option ℕ
  pub roles : List String
  pub mfa_method : Option MfaMethod
  pub webauthn_required : Bool

unfoldable pub is_platform_operator : Principal → Bool
is_platform_operator p = has "platform:*" p.permissions

unfoldable pub has_permission : Principal → String → Bool
has_permission p permission = has permission p.permissions || is_platform_operator p

unfoldable pub step_up_method : Principal → Option MfaMethod
step_up_method p = if p.webauthn_required || is_platform_operator p then some webauthn else none

-- `self.mfa_method != required`
abbrev pub differs : Option MfaMethod → MfaMethod → Bool
differs none required = true
differs (some m) required = not (method_eq m required)

-- `required is not None and self.mfa_method != required and not any_method`
abbrev pub wrong_method : Option MfaMethod → Option MfaMethod → Bool → Bool
wrong_method none used any_method = false
wrong_method (some required) used any_method = differs used required && not any_method

abbrev pub recent : ℕ → Option ℕ → Bool
recent now none = false
recent now (some at) = leb (now - at) step_up_max_age

-- `step_up_is_fresh(now=…, any_method=…)`. A verification in the future is recent, as there.
unfoldable pub step_up_is_fresh : Principal → ℕ → Bool → Bool
unfolding step_up_method
step_up_is_fresh p now any_method = if not p.mfa_verified then false else elim p.mfa_verified_at [
  | none ↦ false
  | some at ↦
      if wrong_method (step_up_method p) p.mfa_method any_method
      then false
      else recent now (some at)
]

-- The payload of `to_dict`, as `from_dict` reads it.
pub record Wire : Type 0 where
  pub user_id : String
  pub tenant_id : String
  pub permissions : List String
  pub roles : List String
  pub auth_method : String
  pub mfa_verified : Bool
  pub mfa_verified_at : Option String
  pub session_id : Option String
  pub mfa_method : Option String
  pub webauthn_required : Bool

-- `ValueError`
pub data ValueError : Type 0 where
  unknown_auth_method unknown_mfa_method bad_timestamp : ValueError

unfoldable pub auth_method_text : AuthMethod → String
auth_method_text session = "session"
auth_method_text api_key = "api_key"
auth_method_text service_jwt = "service_jwt"

unfoldable pub mfa_method_text : MfaMethod → String
mfa_method_text totp = "totp"
mfa_method_text webauthn = "webauthn"

unfoldable pub parse_auth_method : String → Result ValueError AuthMethod
parse_auth_method s =
    if s =s "session"
    then ok session
    else if s =s "api_key"
    then ok api_key
    else if s =s "service_jwt"
    then ok service_jwt
    else err unknown_auth_method

-- `_mfa_method`
unfoldable pub parse_mfa_method : Option String → Result ValueError (Option MfaMethod)
parse_mfa_method none = ok none
parse_mfa_method (some s) =
    if s =s "totp"
    then ok (some totp)
    else if s =s "webauthn"
    then ok (some webauthn)
    else err unknown_mfa_method

-- `x if x else None`, for a text
unfoldable pub non_empty : Option String → Option String
non_empty none = none
non_empty (some s) = if s =s "" then none else some s

-- What `to_dict` and `from_dict` use of Python's library: `sorted` on a set of texts, and
-- `isoformat` with `fromisoformat`, which raises on a malformed text.
pub record Codec : Type 0 where
  pub sorted : List String → List String
  pub has-sorted : (k : String) (xs : List String) → has k (sorted xs) ≡ has k xs
  pub isoformat : ℕ → String
  pub fromisoformat : String → Option ℕ
  pub isoformat_ne : (t : ℕ) → (isoformat t =s "") ≡ false
  pub from-iso : (t : ℕ) → fromisoformat (isoformat t) ≡ some t

module _ (c : Codec) where
  unfoldable pub to_dict : Principal → Wire
  to_dict p = record {
    user_id = p.user_id;
    tenant_id = p.tenant_id;
    permissions = c.sorted p.permissions;
    roles = c.sorted p.roles;
    auth_method = auth_method_text p.auth_method;
    mfa_verified = p.mfa_verified;
    mfa_verified_at = Option.map c.isoformat p.mfa_verified_at;
    session_id = p.session_id;
    mfa_method = Option.map mfa_method_text p.mfa_method;
    webauthn_required = p.webauthn_required;
  }

  -- `datetime.fromisoformat(verified_at) if verified_at else None`
  unfoldable pub parse_instant : Option String → Result ValueError (Option ℕ)
  parse_instant none = ok none
  parse_instant (some s) = elim (c.fromisoformat s) [
    | none ↦ err bad_timestamp
    | some t ↦ ok (some t)
  ]

  unfoldable pub from_dict : Wire → Result ValueError Principal
  from_dict w = do
    method ← parse_auth_method w.auth_method
    at ← parse_instant (non_empty w.mfa_verified_at)
    mfa ← parse_mfa_method w.mfa_method
    ok (record {
      user_id = w.user_id;
      tenant_id = w.tenant_id;
      permissions = w.permissions;
      auth_method = method;
      mfa_verified = w.mfa_verified;
      session_id = non_empty w.session_id;
      mfa_verified_at = at;
      roles = w.roles;
      mfa_method = mfa;
      webauthn_required = w.webauthn_required;
    })

  parse-auth_method_text : (m : AuthMethod) → parse_auth_method (auth_method_text m) ≡ ok m
  unfolding parse_auth_method auth_method_text
  parse-auth_method_text session = refl
  parse-auth_method_text api_key = refl
  parse-auth_method_text service_jwt = refl

  parse-mfa_method_text :
      (m : Option MfaMethod) → parse_mfa_method (Option.map mfa_method_text m) ≡ ok m
  unfolding parse_mfa_method mfa_method_text
  parse-mfa_method_text none = refl
  parse-mfa_method_text (some totp) = refl
  parse-mfa_method_text (some webauthn) = refl

  parse-isoformat : (t : Option ℕ) → parse_instant (non_empty (Option.map c.isoformat t)) ≡ ok t
  unfolding parse_instant non_empty
  parse-isoformat none = refl
  parse-isoformat (some t) = rw (c.isoformat_ne t, c.from-iso t)

  -- A principal whose session id, if any, is not the empty text: reading back what `to_dict` wrote
  -- gives the same principal, with its permissions and roles sorted, and each of these sets has
  -- the same members as before.
  pub from_dict-to_dict :
      (p : Principal) (k : String)
      → non_empty p.session_id ≡ p.session_id
      → (from_dict (to_dict p)
          ≡ ok (record p { permissions = c.sorted p.permissions; roles = c.sorted p.roles }))
        × (has k (to_dict p).permissions ≡ has k p.permissions)
        × (has k (to_dict p).roles ≡ has k p.roles)
  unfolding from_dict to_dict
  from_dict-to_dict p k h = (
    rw (
      parse-auth_method_text p.auth_method,
      parse-isoformat p.mfa_verified_at,
      parse-mfa_method_text p.mfa_method,
      h,
    ),
    c.has-sorted k p.permissions,
    c.has-sorted k p.roles,
  )

required_webauthn :
    (required used : Option MfaMethod) (any_method : Bool)
    → wrong_method required used any_method ≡ false
    → any_method ≡ false
    → required ≡ some webauthn
    → used ≡ some webauthn
required_webauthn required none any_method h a r = ground arith
required_webauthn required (some totp) any_method h a r = ground arith
required_webauthn required (some webauthn) any_method h a r = refl

-- A fresh step-up was verified, and at most five minutes ago.
pub step_up_is_fresh-recent :
    (p : Principal) (now : ℕ) (any_method : Bool)
    → step_up_is_fresh p now any_method ≡ true
    → (p.mfa_verified ≡ true)
      × ((at : ℕ) × (p.mfa_verified_at ≡ some at) × (now - at ≤ step_up_max_age))
unfolding step_up_is_fresh
step_up_is_fresh-recent p now any_method h = (ground arith, ground arith)

step_up_is_fresh-method :
    (p : Principal) (now : ℕ) (any_method : Bool)
    → step_up_is_fresh p now any_method ≡ true
    → wrong_method (step_up_method p) p.mfa_method any_method ≡ false
unfolding step_up_is_fresh
step_up_is_fresh-method p now any_method h = ground arith

step_up_method-webauthn :
    (p : Principal)
    → (p.webauthn_required || is_platform_operator p) ≡ true
    → step_up_method p ≡ some webauthn
unfolding step_up_method
step_up_method-webauthn p h = rw h

-- For a caller who is a platform operator or bound to WebAuthn, a step-up that is fresh without the
-- waiver of the method was made with WebAuthn.
pub step_up_is_fresh-webauthn :
    (p : Principal) (now : ℕ)
    → (p.webauthn_required || is_platform_operator p) ≡ true
    → step_up_is_fresh p now false ≡ true
    → p.mfa_method ≡ some webauthn
step_up_is_fresh-webauthn p now bound h =
    required_webauthn (step_up_method p) p.mfa_method false (step_up_is_fresh-method p now false h)
      refl (step_up_method-webauthn p bound)
