-- ===== src/Identity/Mfa/Tests.antt =====
-- A user's factors over concrete requests, with a TOTP library that accepts a code in its step and in
-- the next one, as pyotp does with a window of one step.
use bu_vi.Identity.Mfa.Service.{failure}
use bu_vi.Identity.Mfa.Factors.{confirm_mfa_credential}
use bu_vi.Identity.Mfa.Service.{confirm}
use bu_vi.Identity.Mfa.Factors.{record_mfa_use}
use bu_vi.Identity.Mfa.Verifying.{accept_totp}
use bu_vi.Base.{
  ℕ, ◌≡◌, refl, String, false, ◌||◌, none, some, List, [], ◌∷◌, ◌==◌, ◌=s◌, ◌&&◌, err, arith,
}
use bu_vi.Auth.Principal.{totp}
use bu_vi.Identity.Mfa.Factors.{MfaCredential, get_mfa_credential}
use bu_vi.Identity.Mfa.Service.{
  Mfa, Settings, Checks, totp_secret, WebauthnKey, step_of, mfa_challenge_required, is_throttled,
  count_failures,
}
use bu_vi.Identity.Mfa.Verifying.{
  Request, gives_code, removes, resets, verify_webauthn, after_requests, verify_totp, is_replayed,
}
use bu_vi.Identity.Mfa.Enrolling.{Kept}
use bu_vi.Identity.Mfa.Flag.{after_requests-Kept}
use bu_vi.Identity.Mfa.Guessing.{Bounded, after_requests-Bounded}
use bu_vi.Identity.Mfa.Replay.{Rising, last_used, accepted, accepted-Rising}
use bu_vi.Identity.Mfa.Spending.{verify_webauthn-verify_webauthn}

abbrev key : WebauthnKey
key = record { credential_id = "key"; public_key = "public"; sign_count = 1 }

-- The code of the step 10 is "123456".
abbrev checks : Checks String
checks = record {
  verify_code = λ secret code now. code =s "123456" && (step_of now == 10 || step_of now == 11);
  verify_registration = λ response challenge. some key;
  verify_assertion = λ response challenge key. some 2;
  credential_id_of = λ response. some response;
}

abbrev settings : Settings
settings = record {
  mfa_max_failures = 5;
  mfa_failure_window = 900000000;
  webauthn_challenge_lifetime = 120000000;
}

abbrev factor : MfaCredential
factor = record {
  id = "f1";
  method = totp;
  secret_ref = "mfa/u1";
  confirmed_at = none;
  last_used_at = none;
  revoked_at = none;
}

abbrev enrolling : Mfa
enrolling = record {
  credentials = factor ∷ [];
  mfa_enabled = false;
  failures = [];
  secrets = λ ref. some (totp_secret "secret");
  challenges = λ s. none;
}

abbrev requests : List (Request String)
requests =
    gives_code "000000" 300000000
    ∷ gives_code "123456" 301000000
    ∷ gives_code "123456" 302000000
    ∷ removes "f1" 303000000
    ∷ resets 304000000
    ∷ []

after_requests-Kept_example : Kept (after_requests checks settings requests enrolling)
after_requests-Kept_example =
    after_requests-Kept checks settings requests enrolling
      (record { ids = (refl, tt); flag = refl })

after_requests-Bounded_example :
    Bounded settings (after_requests checks settings requests enrolling)
after_requests-Bounded_example =
    after_requests-Bounded settings checks requests enrolling (λ since. omega arith)

abbrev codes : List (String × ℕ)
codes = ("123456", 301000000) ∷ ("123456", 302000000) ∷ ("123456", 331000000) ∷ []

accepted-Rising_example :
    Rising (last_used (get_mfa_credential (factor ∷ []))) (accepted checks settings codes enrolling)
accepted-Rising_example = accepted-Rising checks settings codes enrolling

-- The same code is accepted in its step and, once more, in the next one.
code_replayed : accepted checks settings codes enrolling ≡ 301000000 ∷ 331000000 ∷ []
unfolding accepted verify_totp is_throttled count_failures get_mfa_credential is_replayed
    accept_totp record_mfa_use confirm confirm_mfa_credential failure
code_replayed = refl

verify_webauthn-verify_webauthn_example :
    (verify_webauthn checks settings "s1" "key"
      ("f3", "ref")
      5
      (verify_webauthn checks settings "s1" "key" ("f2", "ref") 4 enrolling).1).0
    ≡ err mfa_challenge_required
verify_webauthn-verify_webauthn_example =
    verify_webauthn-verify_webauthn checks settings "s1" "key" "key" ("f2", "ref") ("f3", "ref") 4 5
      enrolling
