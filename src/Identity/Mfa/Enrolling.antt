-- ===== src/Identity/Mfa/Enrolling.antt =====
-- When `mfa_enabled` tells whether there is an active factor, and that enrollments keep it so.
use bu_vi.Base.{
  ℕ, ◌≡◌, refl, String, Bool, true, false, not, ◌&&◌, ◌||◌, Option, none, some, List, [], ◌∷◌, any,
  arith, if◌then◌else◌, ◌=s◌, =s_iff, Bool-cases, inl, inr, ap, sym, ◌∙◌,
}
use bu_vi.Auth.Principal.{Principal, MfaMethod, totp, step_up_is_fresh}
use bu_vi.Identity.Mfa.Factors.{
  MfaCredential, is_set, is_totp, is_active, is_current_totp, get_mfa_credential, list_confirmed,
  add_mfa_credential, record_mfa_use, revoke_mfa_credentials,
}
use bu_vi.Identity.Mfa.Service.{
  Mfa, Settings, registration, totp_secret, failure, confirm, revoke, is_nil, ids_of, added,
  without, begin_totp, begin_enrollment, put, set_challenge, step_up_required,
}
use bu_vi.Identity.Mfa.Verifying.{accept_totp, failed}
use bu_vi.Identity.Mfa.Keeping.{Keeps, Keeps-if, Keeps-refuse, Keeps-ok}
use bu_vi.Identity.Mfa.Ids.{
  DistinctIds, confirm-DistinctIds, use-DistinctIds, revoke-DistinctIds, add-DistinctIds,
  delete-DistinctIds,
}
use bu_vi.Identity.Mfa.Enabled.{
  any_active, list_confirmed-is_nil, use-active, add-active, confirm-active, first-any, first-holds,
  revoke-active, delete-active,
}

-- No two factors have the same id, and the flag is set exactly when one is confirmed and not revoked.
pub record Kept (m : Mfa) : Type 0 where
  pub ids : DistinctIds m.credentials
  pub flag : m.mfa_enabled ≡ any_active m.credentials

pub failure-Kept : (method : MfaMethod) (now : ℕ) (m : Mfa) → Kept m → Kept (failure method now m)
unfolding failure
failure-Kept method now m h = record { ids = h.ids; flag = h.flag }

pub confirm-Kept :
    (id : String) (now : ℕ) (m : Mfa)
    → DistinctIds m.credentials
    → any (λ c. c.id =s id && not (is_set c.revoked_at)) m.credentials ≡ true
    → Kept (confirm id now m)
unfolding confirm
confirm-Kept id now m d h = record {
  ids = confirm-DistinctIds id now m.credentials d;
  flag = sym (confirm-active id now m.credentials h);
}

revoked_flag :
    (now_active before enabled : Bool)
    → enabled ≡ before
    → (now_active ≡ true → before ≡ true)
    → (if not now_active then false else enabled) ≡ now_active
revoked_flag true before enabled e h = e ∙ h refl
revoked_flag false before enabled e h = refl

pub revoke-Kept :
    (factors : List MfaCredential) (now : ℕ) (m : Mfa) → Kept m → Kept (revoke factors now m)
unfolding revoke
revoke-Kept factors now m h = record {
  ids = revoke-DistinctIds (ids_of factors) now m.credentials h.ids;
  flag = rw (list_confirmed-is_nil (revoke_mfa_credentials (ids_of factors) now m.credentials)) (
      revoked_flag (any_active (revoke_mfa_credentials (ids_of factors) now m.credentials))
        (any_active m.credentials) m.mfa_enabled h.flag
        (revoke-active (ids_of factors) now m.credentials));
}

current_id :
    (rows : List MfaCredential) (c : MfaCredential)
    → get_mfa_credential rows ≡ some c
    → any (λ x. x.id =s c.id && not (is_set x.revoked_at)) rows ≡ true
unfolding get_mfa_credential
current_id rows c e =
    let current = first-holds is_current_totp rows c e in
    first-any is_current_totp (λ x. x.id =s c.id && not (is_set x.revoked_at)) rows c e
      (ground (arith, (=s_iff c.id c.id).1 refl))

pub used-Kept :
    (id : String) (now : ℕ) (m : Mfa)
    → Kept m
    → Kept (record m { credentials = record_mfa_use id now m.credentials })
used-Kept id now m h = record {
  ids = use-DistinctIds id now m.credentials h.ids;
  flag = h.flag ∙ sym (use-active id now m.credentials);
}

pub accept_totp-Kept :
    (c : MfaCredential) (now : ℕ) (m : Mfa)
    → get_mfa_credential m.credentials ≡ some c
    → Kept m
    → Kept (accept_totp c now m)
unfolding accept_totp
accept_totp-Kept c now m e h = elim (Bool-cases (is_set c.confirmed_at)) [
  | inl k ↦ rw k (used-Kept c.id now m h)
  | inr k ↦ rw k (confirm-Kept c.id now m h.ids (current_id m.credentials c e))
]

added-Kept :
    (new : MfaCredential) (rows : List MfaCredential) (m : Mfa) (out : Option (List MfaCredential))
    → add_mfa_credential new rows ≡ out
    → is_active new ≡ false
    → DistinctIds rows
    → any_active rows ≡ any_active m.credentials
    → Kept m
    → Kept (added m out).1
added-Kept new rows m none e n d a h = h
added-Kept new rows m (some out) e n d a h = record {
  ids = add-DistinctIds new rows out e d;
  flag = h.flag ∙ sym a ∙ sym (add-active new rows out e n);
}

any_confirmed :
    (q : MfaCredential → Bool) (rows : List MfaCredential)
    → any q (list_confirmed rows) ≡ any (λ x. is_active x && q x) rows
unfolding list_confirmed
any_confirmed q [] = refl
any_confirmed q (c ∷ cs) = elim (Bool-cases (is_active c)) [
  | inl e ↦ rw (e, list_confirmed) (ap (λ b. q c || b) (any_confirmed q cs))
  | inr e ↦ rw (e, list_confirmed) (any_confirmed q cs)
]

-- A current TOTP factor is not active where no active factor is a TOTP one.
abandoned :
    (rows : List MfaCredential) (c : MfaCredential)
    → get_mfa_credential rows ≡ some c
    → any (λ x. is_totp x.method) (list_confirmed rows) ≡ false
    → is_active c ≡ false
unfolding get_mfa_credential
abandoned rows c e n = elim (Bool-cases (is_active c)) [
  | inl k ↦
      let current = first-holds is_current_totp rows c e in
      let found =
        first-any is_current_totp (λ x. is_active x && is_totp x.method) rows c e (ground arith) in
      absurd (ground (arith, any_confirmed (λ x. is_totp x.method) rows, found))
  | inr k ↦ k
]

without-DistinctIds :
    (old : Option MfaCredential) (rows : List MfaCredential)
    → DistinctIds rows
    → DistinctIds (without old rows)
without-DistinctIds none rows h = h
without-DistinctIds (some c) rows h = delete-DistinctIds c.id rows h

without-active :
    (old : Option MfaCredential) (rows : List MfaCredential)
    → get_mfa_credential rows ≡ old
    → any (λ x. is_totp x.method) (list_confirmed rows) ≡ false
    → DistinctIds rows
    → any_active (without old rows) ≡ any_active rows
unfolding get_mfa_credential
without-active none rows e n d = refl
without-active (some c) rows e n d = delete-active is_current_totp rows c d e (abandoned rows c e n)

pub Keeps-failed :
    {A : Type 0} (method : MfaMethod) (now : ℕ) (m : Mfa)
    → Kept m
    → Keeps Kept (failed {A = A} method now m)
Keeps-failed method now m h = record { keeps = failure-Kept method now m h }

begin_totp-Keeps :
    (new_id ref secret : String) (m : Mfa) (has_totp : Bool)
    → any (λ x. is_totp x.method) (list_confirmed m.credentials) ≡ has_totp
    → Kept m
    → Keeps Kept (begin_totp new_id ref secret has_totp m)
unfolding begin_totp
begin_totp-Keeps new_id ref secret m true e h = record { keeps = h }
begin_totp-Keeps new_id ref secret m false e h =
    let old = get_mfa_credential m.credentials in
    let new : MfaCredential = record {
      id = new_id;
      method = totp;
      secret_ref = ref;
      confirmed_at = none;
      last_used_at = none;
      revoked_at = none;
    } in
    let stored = record m { secrets = put ref (some (totp_secret secret)) m.secrets } in
    record {
      keeps =
          added-Kept new (without old m.credentials) stored
            (add_mfa_credential new (without old m.credentials)) refl refl
            (without-DistinctIds old m.credentials h.ids)
            (without-active old m.credentials refl e h.ids) (record { ids = h.ids; flag = h.flag });
    }

pub begin_enrollment-Kept :
    (settings : Settings) (principal : Principal) (method : MfaMethod) (session : String)
    (fresh : String × (String × String)) (now : ℕ) (m : Mfa)
    → Kept m
    → Keeps Kept (begin_enrollment settings principal method session fresh now m)
unfolding begin_enrollment set_challenge
begin_enrollment-Kept settings principal method session (new_id, (ref, text)) now m h =
    Keeps-if Kept
      (not (is_nil (list_confirmed m.credentials))
        && not (step_up_is_fresh principal now (not (is_totp method))))
      (Keeps-refuse Kept step_up_required m h)
      (Keeps-if Kept (is_totp method) (begin_totp-Keeps new_id ref text m _ refl h) (
        Keeps-ok Kept tt (set_challenge settings session registration text now m)
          (record { ids = h.ids; flag = h.flag })))
