-- ===== src/Identity/Mfa/Verifying.antt =====
-- `verify_totp`, `begin_assertion`, `verify_webauthn`, `remove_factor` and `reset` of
-- application/services/mfa_service.py of apps/identity-service, and the requests of a user in a row.
use bu_vi.Base.{
  ℕ, String, Bool, true, false, not, Option, none, some, List, [], ◌∷◌, leb, length, if◌then◌else◌,
  ◌=s◌, ok,
}
use bu_vi.Auth.Principal.{Principal, MfaMethod, totp, webauthn}
use bu_vi.Identity.Mfa.Factors.{
  MfaCredential, is_set, get_mfa_credential, get_mfa_credential_by_id, list_current, list_keys,
  add_mfa_credential, record_mfa_use,
}
use bu_vi.Identity.Mfa.Service.{
  mfa_challenge_required, mfa_not_enrolled, mfa_too_many_attempts, mfa_verification_failed,
  not_found, row_refused, WebauthnKey, Secret, webauthn_key, Purpose, registration, assertion,
  Challenge, Settings, Checks, Mfa, step_of, put, Answer, refuse, is_throttled, failure, confirm,
  revoke, key_of, secret_of, set_challenge, begin_enrollment,
}

-- the step of the code is not above the last one that was accepted
unfoldable pub is_replayed : ℕ → Option ℕ → Bool
is_replayed now none = false
is_replayed now (some at) = leb (step_of now) (step_of at)

-- the end of `verify_totp`
unfoldable pub accept_totp : MfaCredential → ℕ → Mfa → Mfa
accept_totp c now m =
    if is_set c.confirmed_at
    then record m { credentials = record_mfa_use c.id now m.credentials }
    else confirm c.id now m

abbrev pub failed : {A : Type 0} → MfaMethod → ℕ → Mfa → Answer A
failed method now m = refuse mfa_verification_failed (failure method now m)

abbrev pub has_key : (String → Option Secret) → List MfaCredential → Bool
has_key secrets [] = false
has_key secrets (c ∷ cs) = elim (key_of (secrets c.secret_ref)) [
  | some _ ↦ true
  | none ↦ has_key secrets cs
]

unfoldable pub begin_assertion : Settings → String → String → ℕ → Mfa → Answer (Unit {0})
begin_assertion settings session challenge now m =
    if has_key m.secrets (list_keys m.credentials)
    then (ok tt, set_challenge settings session assertion challenge now m)
    else refuse mfa_not_enrolled m

abbrev pub registered_row : ℕ → String → Mfa → Option (List MfaCredential) → Answer ℕ
registered_row now new_id m none = refuse row_refused m
registered_row now new_id m (some rows) =
    (ok now, confirm new_id now (record m { credentials = rows }))

abbrev pub new_key : String → String → MfaCredential
new_key new_id ref = record {
  id = new_id;
  method = webauthn;
  secret_ref = ref;
  confirmed_at = none;
  last_used_at = none;
  revoked_at = none;
}

-- `_register`, from what the library says
abbrev pub register_key : String → String → ℕ → Mfa → Option WebauthnKey → Answer ℕ
register_key new_id ref now m none = failed webauthn now m
register_key new_id ref now m (some key) =
    registered_row now new_id (record m { secrets = put ref (some (webauthn_key key)) m.secrets })
      (add_mfa_credential (new_key new_id ref) m.credentials)

abbrev pub named : Option String → Option WebauthnKey → Option WebauthnKey
named (some id) (some key) = if key.credential_id =s id then some key else none
named _ _ = none

abbrev pub found_or :
    MfaCredential
    → Option (MfaCredential × WebauthnKey)
    → Option WebauthnKey
    → Option (MfaCredential × WebauthnKey)
found_or c rest none = rest
found_or c rest (some key) = some (c, key)

-- the loop of `_assert`
unfoldable pub find_key :
    Option String
    → (String → Option Secret)
    → List MfaCredential
    → Option (MfaCredential × WebauthnKey)
find_key presented secrets [] = none
find_key presented secrets (c ∷ cs) =
    found_or c (find_key presented secrets cs) (named presented (key_of (secrets c.secret_ref)))

abbrev pub counted : MfaCredential → WebauthnKey → ℕ → Mfa → Option ℕ → Answer ℕ
counted c key now m none = failed webauthn now m
counted c key now m (some count) = (
  ok now,
  record m {
    secrets = put c.secret_ref (some (webauthn_key (record key { sign_count = count }))) m.secrets;
    credentials = record_mfa_use c.id now m.credentials;
  },
)

module _ {Response : Type 0} (checks : Checks Response) (settings : Settings) where
  abbrev pub check_secret : String → ℕ → Mfa → MfaCredential → Option String → Answer ℕ
  check_secret code now m c none = refuse mfa_not_enrolled m
  check_secret code now m c (some secret) =
      if not (checks.verify_code secret code now)
      then failed totp now m
      else if is_replayed now c.last_used_at
      then failed totp now m
      else (ok now, accept_totp c now m)

  abbrev pub check_totp : String → ℕ → Mfa → Option MfaCredential → Answer ℕ
  check_totp code now m none = refuse mfa_not_enrolled m
  check_totp code now m (some c) = check_secret code now m c (secret_of (m.secrets c.secret_ref))

  unfoldable pub verify_totp : String → ℕ → Mfa → Answer ℕ
  verify_totp code now m =
      if is_throttled settings now m
      then refuse mfa_too_many_attempts m
      else check_totp code now m (get_mfa_credential m.credentials)

  -- `_assert`, for the factor that the response names
  abbrev pub assert_key :
      Response → String → ℕ → Mfa → Option (MfaCredential × WebauthnKey) → Answer ℕ
  assert_key response challenge now m none = failed webauthn now m
  assert_key response challenge now m (some (c, key)) =
      counted c key now m (checks.verify_assertion response challenge key)

  abbrev pub perform_ceremony :
      Response → String × String → ℕ → Mfa → Challenge → Purpose → Answer ℕ
  perform_ceremony response (new_id, ref) now m ch registration =
      register_key new_id ref now m (checks.verify_registration response ch.challenge)
  perform_ceremony response fresh now m ch assertion =
      assert_key response ch.challenge now m
        (find_key (checks.credential_id_of response) m.secrets (list_keys m.credentials))

  abbrev pub spend_challenge : Response → String × String → ℕ → Mfa → Option Challenge → Answer ℕ
  spend_challenge response fresh now m none = refuse mfa_challenge_required m
  spend_challenge response fresh now m (some ch) =
      if leb ch.expires_at now
      then refuse mfa_challenge_required m
      else perform_ceremony response fresh now m ch ch.purpose

  -- The challenge is taken in a transaction of its own, whatever comes of it.
  unfoldable pub verify_webauthn : String → Response → String × String → ℕ → Mfa → Answer ℕ
  verify_webauthn session response fresh now m =
      spend_challenge response fresh now (record m { challenges = put session none m.challenges })
        (m.challenges session)

abbrev pub removed : ℕ → Mfa → Option MfaCredential → Answer (Unit {0})
removed now m none = refuse not_found m
removed now m (some c) = (ok tt, revoke (c ∷ []) now m)

unfoldable pub remove_factor : String → ℕ → Mfa → Answer (Unit {0})
remove_factor id now m = removed now m (get_mfa_credential_by_id id m.credentials)

unfoldable pub reset : ℕ → Mfa → ℕ × Mfa
reset now m = let factors = list_current m.credentials in (length factors, revoke factors now m)

-- What the user, or an admin, asks for.
pub data Request (Response : Type 0) : Type 0 where
  enrolls :
      (principal : Principal) (method : MfaMethod) (session : String)
      (fresh : String × (String × String)) (now : ℕ)
      → Request Response
  gives_code : (code : String) (now : ℕ) → Request Response
  asks_challenge : (session challenge : String) (now : ℕ) → Request Response
  uses_key :
      (session : String) (response : Response) (fresh : String × String) (now : ℕ)
      → Request Response
  removes : (id : String) (now : ℕ) → Request Response
  resets : (now : ℕ) → Request Response

module _ {Response : Type 0} (checks : Checks Response) (settings : Settings) where
  unfoldable pub after_request : Request Response → Mfa → Mfa
  after_request (enrolls principal method session fresh now) m =
      (begin_enrollment settings principal method session fresh now m).1
  after_request (gives_code code now) m = (verify_totp checks settings code now m).1
  after_request (asks_challenge session challenge now) m =
      (begin_assertion settings session challenge now m).1
  after_request (uses_key session response fresh now) m =
      (verify_webauthn checks settings session response fresh now m).1
  after_request (removes id now) m = (remove_factor id now m).1
  after_request (resets now) m = (reset now m).1

  unfoldable pub after_requests : List (Request Response) → Mfa → Mfa
  after_requests [] m = m
  after_requests (r ∷ rs) m = after_requests rs (after_request r m)
