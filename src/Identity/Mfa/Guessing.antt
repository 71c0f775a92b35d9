-- ===== src/Identity/Mfa/Guessing.antt =====
-- How often a TOTP code can be guessed, and that no 30 seconds accept two codes.
use bu_vi.Base.{
  ℕ, ◌+◌, ◌-◌, ◌≤◌, ◌≡◌, String, Bool, true, false, not, ◌&&◌, Option, none, some, List, [], ◌∷◌,
  leb, length, arith, Bool-cases, inl, inr,
}
use bu_vi.Auth.Principal.{Principal, MfaMethod, totp, step_up_is_fresh}
use bu_vi.Identity.Mfa.Factors.{
  MfaCredential, is_set, is_totp, filter, get_mfa_credential, list_confirmed,
  get_mfa_credential_by_id, list_keys, add_mfa_credential,
}
use bu_vi.Identity.Mfa.Service.{
  Mfa, Settings, Checks, Failure, count_failures, is_throttled, failure, confirm, revoke, added,
  begin_totp, begin_enrollment, set_challenge, is_nil, secret_of, put, mfa_challenge_required,
  step_up_required, Challenge, Purpose, registration, assertion, WebauthnKey, mfa_not_enrolled,
  totp_secret, without,
}
use bu_vi.Identity.Mfa.Verifying.{
  accept_totp, failed, check_secret, check_totp, verify_totp, begin_assertion, registered_row,
  register_key, counted, assert_key, perform_ceremony, spend_challenge, verify_webauthn, removed,
  remove_factor, reset, Request, enrolls, gives_code, asks_challenge, uses_key, removes, resets,
  after_request, after_requests, is_replayed, has_key,
}
use bu_vi.Identity.Mfa.Keeping.{Keeps, Keeps-if, Keeps-refuse, Keeps-ok}

module _ (settings : Settings) where
  -- a refused code in the window that starts at `since`
  abbrev pub is_guess : ℕ → Failure → Bool
  is_guess since f =
      is_totp f.method
      && (leb since f.created_at && leb f.created_at (since + settings.mfa_failure_window))

  -- The refused codes in the window that starts at `since`.
  abbrev pub guesses : ℕ → List Failure → ℕ
  guesses since failures = length (filter (is_guess since) failures)

  -- No window has more refused codes than the settings allow.
  abbrev pub Bounded : Mfa → Type 0
  Bounded m = (since : ℕ) → guesses since m.failures ≤ settings.mfa_max_failures

  guesses-count_failures :
      (since from : ℕ) (failures : List Failure)
      → from ≤ since
      → guesses since failures ≤ count_failures from failures
  unfolding count_failures
  guesses-count_failures since from [] h = omega arith
  guesses-count_failures since from (f ∷ fs) h =
      ground (arith, guesses-count_failures since from fs h)

  failed-Bounded :
      (now : ℕ) (m : Mfa)
      → is_throttled settings now m ≡ false
      → Bounded m
      → Bounded (failure totp now m)
  unfolding is_throttled failure
  failed-Bounded now m free h since =
      elim (Bool-cases (leb since now && leb now (since + settings.mfa_failure_window))) [
        | inl e ↦
            let few =
              guesses-count_failures since (now - settings.mfa_failure_window) m.failures
                (ground arith) in
            ground (arith, few)
        | inr e ↦ ground (arith, h since)
      ]

  added-Bounded :
      (m : Mfa) (rows : Option (List MfaCredential)) → Bounded m → Bounded (added m rows).1
  added-Bounded m none h = h
  added-Bounded m (some rows) h = h

  begin_totp-Bounded :
      (new_id ref secret : String) (m : Mfa) (has_totp : Bool)
      → Bounded m
      → Keeps Bounded (begin_totp new_id ref secret has_totp m)
  unfolding begin_totp
  begin_totp-Bounded new_id ref secret m true h = record { keeps = h }
  begin_totp-Bounded new_id ref secret m false h = record {
    keeps =
        added-Bounded (record m { secrets = put ref (some (totp_secret secret)) m.secrets })
          (add_mfa_credential
            (record {
              id = new_id;
              method = totp;
              secret_ref = ref;
              confirmed_at = none;
              last_used_at = none;
              revoked_at = none;
            })
            (without (get_mfa_credential m.credentials) m.credentials))
          h;
  }

  begin_enrollment-Bounded :
      (principal : Principal) (method : MfaMethod) (session : String)
      (fresh : String × (String × String)) (now : ℕ) (m : Mfa)
      → Bounded m
      → Keeps Bounded (begin_enrollment settings principal method session fresh now m)
  unfolding begin_enrollment set_challenge
  begin_enrollment-Bounded principal method session (new_id, (ref, text)) now m h =
      Keeps-if Bounded
        (not (is_nil (list_confirmed m.credentials))
          && not (step_up_is_fresh principal now (not (is_totp method))))
        (Keeps-refuse Bounded step_up_required m h)
        (Keeps-if Bounded (is_totp method) (begin_totp-Bounded new_id ref text m _ h)
          (Keeps-ok Bounded tt (set_challenge settings session registration text now m) h))

  accept_totp-Bounded :
      (c : MfaCredential) (now : ℕ) (m : Mfa) → Bounded m → Bounded (accept_totp c now m)
  unfolding accept_totp confirm
  accept_totp-Bounded c now m h = elim (Bool-cases (is_set c.confirmed_at)) [
    | inl e ↦ rw e h
    | inr e ↦ rw e h
  ]

  registered_row-Bounded :
      (now : ℕ) (new_id : String) (m : Mfa) (rows : Option (List MfaCredential))
      → Bounded m
      → Keeps Bounded (registered_row now new_id m rows)
  unfolding confirm
  registered_row-Bounded now new_id m none h = record { keeps = h }
  registered_row-Bounded now new_id m (some rows) h = record { keeps = h }

  register_key-Bounded :
      (new_id ref : String) (now : ℕ) (m : Mfa) (key : Option WebauthnKey)
      → Bounded m
      → Keeps Bounded (register_key new_id ref now m key)
  unfolding failure
  register_key-Bounded new_id ref now m none h = record { keeps = h }
  register_key-Bounded new_id ref now m (some key) h =
      registered_row-Bounded now new_id (record m { secrets = put ref _ m.secrets }) _ h

  counted-Bounded :
      (c : MfaCredential) (key : WebauthnKey) (now : ℕ) (m : Mfa) (count : Option ℕ)
      → Bounded m
      → Keeps Bounded (counted c key now m count)
  unfolding failure
  counted-Bounded c key now m none h = record { keeps = h }
  counted-Bounded c key now m (some n) h = record { keeps = h }

  removed-Bounded :
      (now : ℕ) (m : Mfa) (c : Option MfaCredential) → Bounded m → Keeps Bounded (removed now m c)
  unfolding revoke
  removed-Bounded now m none h = record { keeps = h }
  removed-Bounded now m (some c) h = record { keeps = h }

  module _ {Response : Type 0} (checks : Checks Response) where
    check_secret-Bounded :
        (code : String) (now : ℕ) (m : Mfa) (c : MfaCredential) (secret : Option String)
        → is_throttled settings now m ≡ false
        → Bounded m
        → Keeps Bounded (check_secret checks settings code now m c secret)
    check_secret-Bounded code now m c none free h = record { keeps = h }
    check_secret-Bounded code now m c (some s) free h =
        let spent : Keeps Bounded (failed totp now m) = record {
          keeps = failed-Bounded now m free h;
        } in
        Keeps-if Bounded (not (checks.verify_code s code now)) spent (
          Keeps-if Bounded (is_replayed now c.last_used_at) spent
            (Keeps-ok Bounded now (accept_totp c now m) (accept_totp-Bounded c now m h)))

    check_totp-Bounded :
        (code : String) (now : ℕ) (m : Mfa) (c : Option MfaCredential)
        → is_throttled settings now m ≡ false
        → Bounded m
        → Keeps Bounded (check_totp checks settings code now m c)
    check_totp-Bounded code now m none free h = record { keeps = h }
    check_totp-Bounded code now m (some c) free h =
        check_secret-Bounded code now m c (secret_of (m.secrets c.secret_ref)) free h

    verify_totp-Bounded :
        (code : String) (now : ℕ) (m : Mfa)
        → Bounded m
        → Bounded (verify_totp checks settings code now m).1
    unfolding verify_totp
    verify_totp-Bounded code now m h = elim (Bool-cases (is_throttled settings now m)) [
      | inl e ↦ rw (e, verify_totp) h
      | inr e ↦
          rw (e, verify_totp)
            (check_totp-Bounded code now m (get_mfa_credential m.credentials) e h).keeps
    ]

    begin_assertion-Bounded :
        (session challenge : String) (now : ℕ) (m : Mfa)
        → Bounded m
        → Keeps Bounded (begin_assertion settings session challenge now m)
    unfolding begin_assertion set_challenge
    begin_assertion-Bounded session challenge now m h =
        Keeps-if Bounded (has_key m.secrets (list_keys m.credentials))
          (Keeps-ok Bounded tt (set_challenge settings session assertion challenge now m) h)
          (Keeps-refuse Bounded mfa_not_enrolled m h)

    assert_key-Bounded :
        (response : Response) (challenge : String) (now : ℕ) (m : Mfa)
        (found : Option (MfaCredential × WebauthnKey))
        → Bounded m
        → Keeps Bounded (assert_key checks settings response challenge now m found)
    unfolding failure
    assert_key-Bounded response challenge now m none h = record { keeps = h }
    assert_key-Bounded response challenge now m (some (c, key)) h =
        counted-Bounded c key now m (checks.verify_assertion response challenge key) h

    ceremony-Bounded :
        (response : Response) (fresh : String × String) (now : ℕ) (m : Mfa) (ch : Challenge)
        (purpose : Purpose)
        → Bounded m
        → Keeps Bounded (perform_ceremony checks settings response fresh now m ch purpose)
    ceremony-Bounded response (new_id, ref) now m ch registration h =
        register_key-Bounded new_id ref now m (checks.verify_registration response ch.challenge) h
    ceremony-Bounded response (new_id, ref) now m ch assertion h =
        assert_key-Bounded response ch.challenge now m _ h

    spend_challenge-Bounded :
        (response : Response) (fresh : String × String) (now : ℕ) (m : Mfa) (ch : Option Challenge)
        → Bounded m
        → Keeps Bounded (spend_challenge checks settings response fresh now m ch)
    spend_challenge-Bounded response fresh now m none h = record { keeps = h }
    spend_challenge-Bounded response fresh now m (some ch) h =
        Keeps-if Bounded (leb ch.expires_at now) (Keeps-refuse Bounded mfa_challenge_required m h)
          (ceremony-Bounded response fresh now m ch ch.purpose h)

    after_request-Bounded :
        (r : Request Response) (m : Mfa) → Bounded m → Bounded (after_request checks settings r m)
    unfolding after_request verify_webauthn remove_factor reset revoke
    after_request-Bounded (enrolls principal method session fresh now) m h =
        (begin_enrollment-Bounded principal method session fresh now m h).keeps
    after_request-Bounded (gives_code code now) m h = verify_totp-Bounded code now m h
    after_request-Bounded (asks_challenge session challenge now) m h =
        (begin_assertion-Bounded session challenge now m h).keeps
    after_request-Bounded (uses_key session response fresh now) m h =
        (spend_challenge-Bounded response fresh now
          (record m { challenges = put session none m.challenges }) (m.challenges session) h).keeps
    after_request-Bounded (removes id now) m h =
        (removed-Bounded now m (get_mfa_credential_by_id id m.credentials) h).keeps
    after_request-Bounded (resets now) m h = h

    -- Whatever a user requests, and whenever: in any window of `mfa_failure_window` there are never
    -- more refused TOTP codes than `mfa_max_failures`, if there were not before.
    pub after_requests-Bounded :
        (rs : List (Request Response)) (m : Mfa)
        → Bounded m
        → Bounded (after_requests checks settings rs m)
    unfolding after_requests
    after_requests-Bounded [] m h = h
    after_requests-Bounded (r ∷ rs) m h =
        after_requests-Bounded rs (after_request checks settings r m) (after_request-Bounded r m h)
