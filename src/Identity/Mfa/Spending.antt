-- ===== src/Identity/Mfa/Spending.antt =====
-- A WebAuthn challenge is good for one attempt.
use bu_vi.Base.{ℕ, ◌≡◌, refl, String, Option, none, some, List, leb, =s_iff, err}
use bu_vi.Identity.Mfa.Factors.{MfaCredential, add_mfa_credential, list_keys}
use bu_vi.Identity.Mfa.Service.{
  Mfa, Settings, Checks, WebauthnKey, Challenge, Purpose, registration, assertion, put, failure,
  confirm, mfa_challenge_required,
}
use bu_vi.Identity.Mfa.Verifying.{
  registered_row, register_key, counted, assert_key, perform_ceremony, spend_challenge,
  verify_webauthn, new_key, find_key,
}
use bu_vi.Identity.Mfa.Keeping.{Keeps, Keeps-if, Keeps-refuse}

-- The session has no challenge.
abbrev Spent : String → Mfa → Type 0
Spent session m = m.challenges session ≡ none

registered_row-Spent :
    (session : String) (now : ℕ) (new_id : String) (m : Mfa) (rows : Option (List MfaCredential))
    → Spent session m
    → Keeps (Spent session) (registered_row now new_id m rows)
unfolding confirm
registered_row-Spent session now new_id m none h = record { keeps = h }
registered_row-Spent session now new_id m (some rows) h = record { keeps = h }

register_key-Spent :
    (session new_id ref : String) (now : ℕ) (m : Mfa) (key : Option WebauthnKey)
    → Spent session m
    → Keeps (Spent session) (register_key new_id ref now m key)
unfolding failure
register_key-Spent session new_id ref now m none h = record { keeps = h }
register_key-Spent session new_id ref now m (some key) h =
    registered_row-Spent session now new_id (record m { secrets = put ref _ m.secrets })
      (add_mfa_credential (new_key new_id ref) m.credentials) h

counted-Spent :
    (session : String) (c : MfaCredential) (key : WebauthnKey) (now : ℕ) (m : Mfa)
    (count : Option ℕ)
    → Spent session m
    → Keeps (Spent session) (counted c key now m count)
unfolding failure
counted-Spent session c key now m none h = record { keeps = h }
counted-Spent session c key now m (some n) h = record { keeps = h }

module _ {Response : Type 0} (checks : Checks Response) (settings : Settings) where
  assert_key-Spent :
      (session : String) (response : Response) (challenge : String) (now : ℕ) (m : Mfa)
      (found : Option (MfaCredential × WebauthnKey))
      → Spent session m
      → Keeps (Spent session) (assert_key checks settings response challenge now m found)
  unfolding failure
  assert_key-Spent session response challenge now m none h = record { keeps = h }
  assert_key-Spent session response challenge now m (some (c, key)) h =
      counted-Spent session c key now m (checks.verify_assertion response challenge key) h

  ceremony-Spent :
      (session : String) (response : Response) (fresh : String × String) (now : ℕ) (m : Mfa)
      (ch : Challenge) (purpose : Purpose)
      → Spent session m
      → Keeps (Spent session) (perform_ceremony checks settings response fresh now m ch purpose)
  ceremony-Spent session response (new_id, ref) now m ch registration h =
      register_key-Spent session new_id ref now m (checks.verify_registration response ch.challenge)
        h
  ceremony-Spent session response (new_id, ref) now m ch assertion h =
      assert_key-Spent session response ch.challenge now m
        (find_key (checks.credential_id_of response) m.secrets (list_keys m.credentials)) h

  spend_challenge-Spent :
      (session : String) (response : Response) (fresh : String × String) (now : ℕ) (m : Mfa)
      (ch : Option Challenge)
      → Spent session m
      → Keeps (Spent session) (spend_challenge checks settings response fresh now m ch)
  spend_challenge-Spent session response fresh now m none h = record { keeps = h }
  spend_challenge-Spent session response fresh now m (some ch) h =
      Keeps-if (Spent session) (leb ch.expires_at now)
        (Keeps-refuse (Spent session) mfa_challenge_required m h)
        (ceremony-Spent session response fresh now m ch ch.purpose h)

  put-same :
      (session : String) (m : Mfa)
      → Spent session (record m { challenges = put session none m.challenges })
  put-same session m = rw ((=s_iff session session).1 refl) refl

  spent_refused :
      (response : Response) (fresh : String × String) (now : ℕ) (m : Mfa) (ch : Option Challenge)
      → ch ≡ none
      → (spend_challenge checks settings response fresh now m ch).0 ≡ err mfa_challenge_required
  spent_refused response fresh now m ch e = rw e refl

  -- Once a session has tried to complete a ceremony, whatever came of it, its challenge is gone: the
  -- next attempt, with any response, is refused until a new challenge is asked for.
  pub verify_webauthn-verify_webauthn :
      (session : String) (first second : Response) (fresh fresh' : String × String) (now later : ℕ)
      (m : Mfa)
      → (verify_webauthn checks settings session second fresh' later
          (verify_webauthn checks settings session first fresh now m).1).0
        ≡ err mfa_challenge_required
  unfolding verify_webauthn
  verify_webauthn-verify_webauthn session first second fresh fresh' now later m =
      spent_refused second fresh' later _ _
        (spend_challenge-Spent session first fresh now
          (record m { challenges = put session none m.challenges }) (m.challenges session)
          (put-same session m)).keeps
