-- ===== src/Auth/Tests.antt =====
-- Permissions, principals and access checks at concrete callers.
use bu_vi.Base.{
  zero, suc, String, Option, ap, ℕ, ◌≡◌, refl, String, true, false, none, some, [], ◌∷◌, arith, has,
  inl, ok, ◌=s◌, suc, Option, =s_iff, ap, Bool-cases, inr,
}
use mathlib.Core.Option
use bu_vi.Auth.Principal.{
  Principal, api_key, session, webauthn, totp, Codec, to_dict, from_dict, from_dict-to_dict,
  non_empty,
}

-- instants as unary texts
abbrev iso : ℕ → String
iso zero = "|"
iso (suc n) = String.◌∷◌ "|" (iso n)

abbrev read_iso : String → Option ℕ
read_iso String.[] = none
read_iso (String.◌∷◌ c String.[]) = some 0
read_iso (String.◌∷◌ c (String.◌∷◌ d s)) = Option.map suc (read_iso (String.◌∷◌ d s))

read-iso : (t : ℕ) → read_iso (iso t) ≡ some t
read-iso zero = refl
read-iso (suc zero) = refl
read-iso (suc (suc t)) = ap (Option.map suc) (read-iso (suc t))

iso_ne : (t : ℕ) → (iso t =s "") ≡ false
iso_ne t = elim (Bool-cases (iso t =s "")) [
  | inl same ↦
      let e : read_iso (iso t) ≡ none = ap read_iso ((=s_iff (iso t) "").0 same) in
      absurd (ground (arith, read-iso t))
  | inr other ↦ other
]

-- Sets that are sorted already, and instants written in unary.
abbrev codec : Codec
codec = record {
  sorted = λ xs. xs;
  has-sorted = λ k xs. refl;
  isoformat = iso;
  fromisoformat = read_iso;
  isoformat_ne = iso_ne;
  from-iso = read-iso;
}

abbrev alice : Principal
alice = record {
  user_id = "u1";
  tenant_id = "t1";
  permissions = "chat:use" ∷ "platform:*" ∷ [];
  auth_method = session;
  mfa_verified = true;
  session_id = some "s1";
  mfa_verified_at = some 5000000;
  roles = "platform_super_admin" ∷ [];
  mfa_method = some webauthn;
  webauthn_required = true;
}

abbrev bob : Principal
bob = record {
  user_id = "u2";
  tenant_id = "t1";
  permissions = "chat:use" ∷ [];
  auth_method = api_key;
  mfa_verified = false;
  session_id = none;
  mfa_verified_at = none;
  roles = "client" ∷ [];
  mfa_method = none;
  webauthn_required = false;
}

abbrev carol : Principal
carol = record alice { mfa_verified_at = some 3; mfa_method = some totp }

from_dict-to_dict_example :
    (from_dict codec (to_dict codec carol) ≡ ok carol)
    × (has "platform:*" (to_dict codec carol).permissions ≡ has "platform:*" carol.permissions)
    × (has "platform:*" (to_dict codec carol).roles ≡ has "platform:*" carol.roles)
unfolding non_empty
from_dict-to_dict_example = from_dict-to_dict codec carol "platform:*" refl
