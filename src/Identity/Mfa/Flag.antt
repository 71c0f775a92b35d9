-- ===== src/Identity/Mfa/Flag.antt =====
-- The flag `mfa_enabled` of a user tells whether there is an active factor, after any requests.
use bu_vi.Base.{
  ℕ, ◌≡◌, refl, String, Bool, true, false, not, ◌&&◌, Option, none, some, List, [], ◌∷◌, ◌++◌, any,
  leb, arith, ◌=s◌, =s_iff,
}
use bu_vi.Auth.Principal.{totp, webauthn}
use bu_vi.Identity.Mfa.Factors.{
  MfaCredential, is_set, get_mfa_credential, get_mfa_credential_by_id, list_current,
  add_mfa_credential, list_keys,
}
use bu_vi.Identity.Mfa.Service.{
  Mfa, Settings, Checks, WebauthnKey, Purpose, registration, assertion, Challenge, put,
  set_challenge, is_throttled, secret_of, mfa_too_many_attempts, mfa_not_enrolled,
  mfa_challenge_required,
}
use bu_vi.Identity.Mfa.Verifying.{
  accept_totp, check_secret, check_totp, verify_totp, begin_assertion, registered_row, new_key,
  register_key, counted, assert_key, perform_ceremony, spend_challenge, verify_webauthn, removed,
  remove_factor, reset, Request, enrolls, gives_code, asks_challenge, uses_key, removes, resets,
  after_request, after_requests, is_replayed, has_key,
}
use bu_vi.Identity.Mfa.Keeping.{Keeps, Keeps-if, Keeps-refuse, Keeps-ok}
use bu_vi.Identity.Mfa.Ids.{add-DistinctIds, add_rows}
use bu_vi.Identity.Mfa.Enrolling.{
  Kept, failure-Kept, confirm-Kept, revoke-Kept, used-Kept, accept_totp-Kept, Keeps-failed,
  begin_enrollment-Kept,
}

any_last :
    (p : MfaCredential → Bool) (rows : List MfaCredential) (new : MfaCredential)
    → p new ≡ true
    → any p (rows ++ new ∷ []) ≡ true
any_last p [] new h = ground arith
any_last p (c ∷ cs) new h = ground (arith, any_last p cs new h)

new_current :
    (new : MfaCredential) (rows out : List MfaCredential)
    → add_mfa_credential new rows ≡ some out
    → is_set new.revoked_at ≡ false
    → any (λ c. c.id =s new.id && not (is_set c.revoked_at)) out ≡ true
new_current new rows out e n =
    let (o, _) = add_rows new rows out e in
    rw o (
      any_last (λ c. c.id =s new.id && not (is_set c.revoked_at)) rows new
        (ground (arith, (=s_iff new.id new.id).1 refl)))

module _ {Response : Type 0} (checks : Checks Response) (settings : Settings) where
  check_secret-Keeps :
      (code : String) (now : ℕ) (m : Mfa) (c : MfaCredential) (secret : Option String)
      → get_mfa_credential m.credentials ≡ some c
      → Kept m
      → Keeps Kept (check_secret checks settings code now m c secret)
  check_secret-Keeps code now m c none e h = record { keeps = h }
  check_secret-Keeps code now m c (some s) e h =
      Keeps-if Kept (not (checks.verify_code s code now)) (Keeps-failed totp now m h) (
        Keeps-if Kept (is_replayed now c.last_used_at) (Keeps-failed totp now m h)
          (Keeps-ok Kept now (accept_totp c now m) (accept_totp-Kept c now m e h)))

  check_totp-Keeps :
      (code : String) (now : ℕ) (m : Mfa) (c : Option MfaCredential)
      → get_mfa_credential m.credentials ≡ c
      → Kept m
      → Keeps Kept (check_totp checks settings code now m c)
  check_totp-Keeps code now m none e h = record { keeps = h }
  check_totp-Keeps code now m (some c) e h =
      check_secret-Keeps code now m c (secret_of (m.secrets c.secret_ref)) e h

  verify_totp-Keeps :
      (code : String) (now : ℕ) (m : Mfa)
      → Kept m
      → Keeps Kept (verify_totp checks settings code now m)
  unfolding verify_totp
  verify_totp-Keeps code now m h =
      Keeps-if Kept (is_throttled settings now m) (Keeps-refuse Kept mfa_too_many_attempts m h)
        (check_totp-Keeps code now m (get_mfa_credential m.credentials) refl h)

  begin_assertion-Keeps :
      (session challenge : String) (now : ℕ) (m : Mfa)
      → Kept m
      → Keeps Kept (begin_assertion settings session challenge now m)
  unfolding begin_assertion set_challenge
  begin_assertion-Keeps session challenge now m h =
      Keeps-if Kept (has_key m.secrets (list_keys m.credentials))
        (Keeps-ok Kept tt (set_challenge settings session assertion challenge now m)
          (record { ids = h.ids; flag = h.flag }))
        (Keeps-refuse Kept mfa_not_enrolled m h)

  registered_row-Keeps :
      (now : ℕ) (new_id ref : String) (m : Mfa) (rows : Option (List MfaCredential))
      → add_mfa_credential (new_key new_id ref) m.credentials ≡ rows
      → Kept m
      → Keeps Kept (registered_row now new_id m rows)
  registered_row-Keeps now new_id ref m none e h = record { keeps = h }
  registered_row-Keeps now new_id ref m (some rows) e h = record {
    keeps =
        confirm-Kept new_id now (record m { credentials = rows })
          (add-DistinctIds (new_key new_id ref) m.credentials rows e h.ids)
          (new_current (new_key new_id ref) m.credentials rows e refl);
  }

  counted-Keeps :
      (c : MfaCredential) (key : WebauthnKey) (now : ℕ) (m : Mfa) (count : Option ℕ)
      → Kept m
      → Keeps Kept (counted c key now m count)
  counted-Keeps c key now m none h = record { keeps = failure-Kept webauthn now m h }
  counted-Keeps c key now m (some n) h = record {
    keeps = let u = used-Kept c.id now m h in record { ids = u.ids; flag = u.flag };
  }

  register_key-Keeps :
      (new_id ref : String) (now : ℕ) (m : Mfa) (key : Option WebauthnKey)
      → Kept m
      → Keeps Kept (register_key new_id ref now m key)
  register_key-Keeps new_id ref now m none h = record { keeps = failure-Kept webauthn now m h }
  register_key-Keeps new_id ref now m (some key) h =
      registered_row-Keeps now new_id ref (record m { secrets = put ref _ m.secrets })
        (add_mfa_credential (new_key new_id ref) m.credentials) refl
        (record { ids = h.ids; flag = h.flag })

  assert_key-Keeps :
      (response : Response) (challenge : String) (now : ℕ) (m : Mfa)
      (found : Option (MfaCredential × WebauthnKey))
      → Kept m
      → Keeps Kept (assert_key checks settings response challenge now m found)
  assert_key-Keeps response challenge now m none h = record {
    keeps = failure-Kept webauthn now m h;
  }
  assert_key-Keeps response challenge now m (some (c, key)) h =
      counted-Keeps c key now m (checks.verify_assertion response challenge key) h

  ceremony-Keeps :
      (response : Response) (fresh : String × String) (now : ℕ) (m : Mfa) (ch : Challenge)
      (purpose : Purpose)
      → Kept m
      → Keeps Kept (perform_ceremony checks settings response fresh now m ch purpose)
  ceremony-Keeps response (new_id, ref) now m ch registration h =
      register_key-Keeps new_id ref now m (checks.verify_registration response ch.challenge) h
  ceremony-Keeps response (new_id, ref) now m ch assertion h =
      assert_key-Keeps response ch.challenge now m _ h

  spend_challenge-Keeps :
      (response : Response) (fresh : String × String) (now : ℕ) (m : Mfa) (ch : Option Challenge)
      → Kept m
      → Keeps Kept (spend_challenge checks settings response fresh now m ch)
  spend_challenge-Keeps response fresh now m none h = record { keeps = h }
  spend_challenge-Keeps response fresh now m (some ch) h =
      Keeps-if Kept (leb ch.expires_at now) (Keeps-refuse Kept mfa_challenge_required m h)
        (ceremony-Keeps response fresh now m ch ch.purpose h)

  removed-Keeps :
      (now : ℕ) (m : Mfa) (c : Option MfaCredential) → Kept m → Keeps Kept (removed now m c)
  removed-Keeps now m none h = record { keeps = h }
  removed-Keeps now m (some c) h = record { keeps = revoke-Kept (c ∷ []) now m h }

  after_request-Kept :
      (r : Request Response) (m : Mfa) → Kept m → Kept (after_request checks settings r m)
  unfolding after_request verify_webauthn remove_factor reset
  after_request-Kept (enrolls principal method session fresh now) m h =
      (begin_enrollment-Kept settings principal method session fresh now m h).keeps
  after_request-Kept (gives_code code now) m h = (verify_totp-Keeps code now m h).keeps
  after_request-Kept (asks_challenge session challenge now) m h =
      (begin_assertion-Keeps session challenge now m h).keeps
  after_request-Kept (uses_key session response fresh now) m h =
      (spend_challenge-Keeps response fresh now
        (record m { challenges = put session none m.challenges }) (m.challenges session)
        (record { ids = h.ids; flag = h.flag })).keeps
  after_request-Kept (removes id now) m h =
      (removed-Keeps now m (get_mfa_credential_by_id id m.credentials) h).keeps
  after_request-Kept (resets now) m h = revoke-Kept (list_current m.credentials) now m h

  -- After any sequence of enrollments, verified and refused codes and keys, removals and resets, a
  -- user counts as having MFA exactly when one of the factors is confirmed and not revoked, and no
  -- two factors have the same id, if this was so before.
  pub after_requests-Kept :
      (rs : List (Request Response)) (m : Mfa) → Kept m → Kept (after_requests checks settings rs m)
  unfolding after_requests
  after_requests-Kept [] m h = h
  after_requests-Kept (r ∷ rs) m h =
      after_requests-Kept rs (after_request checks settings r m) (after_request-Kept r m h)
