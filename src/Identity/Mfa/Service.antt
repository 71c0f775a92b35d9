-- ===== src/Identity/Mfa/Service.antt =====
-- `MfaService` of application/services/mfa_service.py of apps/identity-service, for one user.
-- The checks of pyotp and of the WebAuthn library are the parameter `Checks`; the secret of a new
-- factor, the challenge and the id of a new row are arguments. A request reads the clock once here.
-- The request's transaction rolls back on a raise, except for what `IndependentWrites` writes: the
-- failure and the taken challenge. Other audit events are not modelled.
use bu_vi.Base.{
  ℕ, ◌+◌, ◌-◌, ◌/◌, String, Bool, true, false, not, ◌&&◌, Option, none, some, List, [], ◌∷◌, any,
  leb, length, if◌then◌else◌, ◌=s◌, Result, ok, err,
}
use bu_vi.Auth.Principal.{Principal, MfaMethod, totp, step_up_is_fresh}
use bu_vi.Identity.Mfa.Factors.{
  MfaCredential, is_totp, get_mfa_credential, list_confirmed, add_mfa_credential,
  delete_mfa_credential, confirm_mfa_credential, revoke_mfa_credentials, filter,
}

pub data MfaError : Type 0 where
  mfa_already_enrolled mfa_challenge_required mfa_not_enrolled mfa_too_many_attempts : MfaError
  mfa_verification_failed not_found step_up_required row_refused : MfaError

-- What the secret store has of a WebAuthn key.
pub record WebauthnKey : Type 0 where
  pub credential_id : String
  pub public_key : String
  pub sign_count : ℕ

pub data Secret : Type 0 where
  totp_secret : String → Secret
  webauthn_key : WebauthnKey → Secret

-- A pending challenge of a session: `reg:` or `auth:`.
pub data Purpose : Type 0 where
  registration assertion : Purpose

pub record Challenge : Type 0 where
  pub purpose : Purpose
  pub challenge : String
  pub expires_at : ℕ

-- An audit event of a failed verification by the user.
pub record Failure : Type 0 where
  pub method : MfaMethod
  pub created_at : ℕ

-- `Settings`, with durations in microseconds.
pub record Settings : Type 0 where
  pub mfa_max_failures : ℕ
  pub mfa_failure_window : ℕ
  pub webauthn_challenge_lifetime : ℕ

-- The libraries' checks: none where `CeremonyFailedError` is raised.
pub record Checks (Response : Type 0) : Type 0 where
  pub verify_code : String → String → ℕ → Bool
  pub verify_registration : Response → String → Option WebauthnKey
  pub verify_assertion : Response → String → WebauthnKey → Option ℕ
  pub credential_id_of : Response → Option String

-- All that the service keeps of the user: rows, the flag, failures, secrets by their reference, and
-- challenges by session.
pub record Mfa : Type 0 where
  pub credentials : List MfaCredential
  pub mfa_enabled : Bool
  pub failures : List Failure
  pub secrets : String → Option Secret
  pub challenges : String → Option Challenge

abbrev pub totp_step : ℕ
totp_step = 30000000

-- `int(now.timestamp()) // TOTP_STEP_SECONDS`
abbrev pub step_of : ℕ → ℕ
step_of at = at / totp_step

abbrev pub put {ℓ} : {A : Type ℓ} → String → A → (String → A) → String → A
put key value old k = if k =s key then value else old k

-- what a request gives back, with what it leaves
abbrev pub Answer : Type 0 → Type 0
Answer A = Result MfaError A × Mfa

abbrev pub refuse : {A : Type 0} → MfaError → Mfa → Answer A
refuse e m = (err e, m)

abbrev pub is_recent : ℕ → Failure → Bool
is_recent since f = leb since f.created_at

-- `count_audit_events`
unfoldable pub count_failures : ℕ → List Failure → ℕ
count_failures since failures = length (filter (is_recent since) failures)

-- the test of `_throttle`
unfoldable pub is_throttled : Settings → ℕ → Mfa → Bool
is_throttled settings now m =
    leb settings.mfa_max_failures (count_failures (now - settings.mfa_failure_window) m.failures)

-- `_failure`
unfoldable pub failure : MfaMethod → ℕ → Mfa → Mfa
failure method now m = record m {
  failures = record { method = method; created_at = now } ∷ m.failures;
}

-- `_confirm`
unfoldable pub confirm : String → ℕ → Mfa → Mfa
confirm id now m = record m {
  credentials = confirm_mfa_credential id now m.credentials;
  mfa_enabled = true;
}

abbrev pub delete_secrets : List MfaCredential → (String → Option Secret) → String → Option Secret
delete_secrets [] secrets = secrets
delete_secrets (c ∷ cs) secrets = delete_secrets cs (put c.secret_ref none secrets)

abbrev pub is_nil : List MfaCredential → Bool
is_nil [] = true
is_nil (c ∷ cs) = false

abbrev pub ids_of : List MfaCredential → List String
ids_of [] = []
ids_of (c ∷ cs) = c.id ∷ ids_of cs

-- `_revoke`
unfoldable pub revoke : List MfaCredential → ℕ → Mfa → Mfa
revoke factors now m =
    let rows = revoke_mfa_credentials (ids_of factors) now m.credentials in
    record m {
      credentials = rows;
      secrets = delete_secrets factors m.secrets;
      mfa_enabled = if is_nil (list_confirmed rows) then false else m.mfa_enabled;
    }

-- `_key`
abbrev pub key_of : Option Secret → Option WebauthnKey
key_of (some (webauthn_key key)) = some key
key_of _ = none

abbrev pub secret_of : Option Secret → Option String
secret_of (some (totp_secret secret)) = some secret
secret_of _ = none

-- `_set_challenge`
unfoldable pub set_challenge : Settings → String → Purpose → String → ℕ → Mfa → Mfa
set_challenge settings session purpose challenge now m = record m {
  challenges =
      put session
        (some (record {
          purpose = purpose;
          challenge = challenge;
          expires_at = now + settings.webauthn_challenge_lifetime;
        }))
        m.challenges;
}

abbrev pub added : Mfa → Option (List MfaCredential) → Answer (Unit {0})
added m none = refuse row_refused m
added m (some rows) = (ok tt, record m { credentials = rows })

-- An abandoned TOTP factor is replaced.
abbrev pub without : Option MfaCredential → List MfaCredential → List MfaCredential
without none rows = rows
without (some existing) rows = delete_mfa_credential existing.id rows

-- `_begin_totp`; the secret store is no part of the transaction.
unfoldable pub begin_totp : String → String → String → Bool → Mfa → Answer (Unit {0})
begin_totp new_id ref secret has_totp m =
    if has_totp
    then refuse mfa_already_enrolled m
    else let stored = record m { secrets = put ref (some (totp_secret secret)) m.secrets } in
      let new : MfaCredential = record {
        id = new_id;
        method = totp;
        secret_ref = ref;
        confirmed_at = none;
        last_used_at = none;
        revoked_at = none;
      } in
      added stored
        (add_mfa_credential new (without (get_mfa_credential m.credentials) m.credentials))

-- `begin_enrollment`; `fresh` is the id, the reference, and the secret or challenge drawn for it.
unfoldable pub begin_enrollment :
    Settings
    → Principal
    → MfaMethod
    → String
    → (String × (String × String))
    → ℕ
    → Mfa
    → Answer (Unit {0})
begin_enrollment settings principal method session (new_id, (ref, text)) now m =
    let factors = list_confirmed m.credentials in
    if not (is_nil factors) && not (step_up_is_fresh principal now (not (is_totp method)))
    then refuse step_up_required m
    else if is_totp method
    then begin_totp new_id ref text (any (λ c. is_totp c.method) factors) m
    else (ok tt, set_challenge settings session registration text now m)
