-- ===== src/Identity/Mfa/Replay.antt =====
-- Which of a user's TOTP codes are accepted, one after the other.
use bu_vi.Base.{
  ◌/◌, ◌<◌, leb→lt, ℕ, ◌≡◌, refl, String, Bool, true, false, not, Option, none, some, List, [], ◌∷◌,
  map, arith, if◌then◌else◌, ◌=s◌, =s_iff, Bool-cases, inl, inr, ap, ok, err, Result, ◌∙◌,
}
use bu_vi.Auth.Principal.{totp}
use bu_vi.Identity.Mfa.Factors.{
  MfaCredential, is_set, is_current_totp, first, get_mfa_credential, use_row, confirm_row,
  record_mfa_use, confirm_mfa_credential,
}
use bu_vi.Identity.Mfa.Service.{
  Mfa, Settings, Checks, Answer, is_throttled, failure, confirm, secret_of, MfaError, refuse,
  mfa_too_many_attempts,
}
use bu_vi.Identity.Mfa.Verifying.{
  accept_totp, check_secret, check_totp, verify_totp, is_replayed, failed,
}

-- Whether an instant, in microseconds, is in a later step of 30 seconds than the last one.
abbrev pub Later : Option ℕ → ℕ → Type 0
Later none t = Unit
Later (some last) t = last / 30000000 < t / 30000000

-- Each of these instants is in a later step of 30 seconds than the one before it, and the first is in
-- a later one than `last`.
abbrev pub Rising : Option ℕ → List ℕ → Type 0
Rising last [] = Unit
Rising last (t ∷ ts) = Later last t × Rising (some t) ts

is_replayed-Later : (now : ℕ) (last : Option ℕ) → is_replayed now last ≡ false → Later last now
unfolding is_replayed
is_replayed-Later now none h = tt
is_replayed-Later now (some at) h = leb→lt (now / 30000000) (at / 30000000) h

-- when the current TOTP factor was used last
abbrev pub last_used : Option MfaCredential → Option ℕ
last_used none = none
last_used (some c) = c.last_used_at

abbrev pub noted : Result MfaError ℕ → List ℕ → List ℕ
noted (err e) rest = rest
noted (ok t) rest = t ∷ rest

first-map :
    (f : MfaCredential → MfaCredential) (rows : List MfaCredential) (c : MfaCredential)
    → ((x : MfaCredential) → is_current_totp (f x) ≡ is_current_totp x)
    → first is_current_totp rows ≡ some c
    → first is_current_totp (map f rows) ≡ some (f c)
first-map f [] c same e = absurd (ground arith)
first-map f (x ∷ xs) c same e = elim (Bool-cases (is_current_totp x)) [
  | inl k ↦ let s : x ≡ c = ground arith in rw (same x, k) (ap (λ y. some (f y)) s)
  | inr k ↦ rw (same x, k) (first-map f xs c same (rw k at e))
]

is_current_totp-if :
    (b : Bool) (x y : MfaCredential)
    → is_current_totp x ≡ is_current_totp y
    → is_current_totp (if b then x else y) ≡ is_current_totp y
is_current_totp-if true x y h = h
is_current_totp-if false x y h = refl

if_used :
    (id : String) (x y : MfaCredential) (now : ℕ)
    → x.last_used_at ≡ some now
    → (if id =s id then x else y).last_used_at ≡ some now
if_used id x y now h = rw ((=s_iff id id).1 refl) h

accept_totp-last_used :
    (c : MfaCredential) (now : ℕ) (m : Mfa)
    → get_mfa_credential m.credentials ≡ some c
    → last_used (get_mfa_credential (accept_totp c now m).credentials) ≡ some now
unfolding get_mfa_credential accept_totp confirm record_mfa_use confirm_mfa_credential
accept_totp-last_used c now m e = elim (Bool-cases (is_set c.confirmed_at)) [
  | inl k ↦
      let found =
        first-map (use_row c.id now) m.credentials c
          (λ x. is_current_totp-if (x.id =s c.id) _ x refl) e in
      rw (k, accept_totp) (ap last_used found ∙ if_used c.id _ c now refl)
  | inr k ↦
      let found =
        first-map (confirm_row c.id now) m.credentials c
          (λ x. is_current_totp-if (x.id =s c.id) _ x refl) e in
      rw (k, accept_totp) (ap last_used found ∙ if_used c.id _ c now refl)
]

module _ {Response : Type 0} (checks : Checks Response) (settings : Settings) where
  -- The instants at which codes are accepted, of codes that are given at some instants.
  unfoldable pub accepted : List (String × ℕ) → Mfa → List ℕ
  accepted [] m = []
  accepted ((code, now) ∷ rest) m =
      let out = verify_totp checks settings code now m in
      let later = accepted rest out.1 in noted out.0 later

  -- A code leaves the last use as it was, or is accepted in a later step, which is the last use then.
  abbrev Advances : Option ℕ → ℕ → Answer ℕ → Type 0
  Advances last now (err e, m) = last_used (get_mfa_credential m.credentials) ≡ last
  Advances last now (ok t, m) =
      (t ≡ now) × Later last now × (last_used (get_mfa_credential m.credentials) ≡ some now)

  Advances-if :
      (last : Option ℕ) (now : ℕ) (b : Bool) (x y : Answer ℕ)
      → (b ≡ true → Advances last now x)
      → (b ≡ false → Advances last now y)
      → Advances last now (if b then x else y)
  Advances-if last now true x y h k = h refl
  Advances-if last now false x y h k = k refl

  check_secret-Advances :
      (code : String) (now : ℕ) (m : Mfa) (c : MfaCredential) (secret : Option String)
      → get_mfa_credential m.credentials ≡ some c
      → Advances c.last_used_at now (check_secret checks settings code now m c secret)
  unfolding failure
  check_secret-Advances code now m c none e = ap last_used e
  check_secret-Advances code now m c (some s) e =
      let kept = ap last_used e in
      Advances-if c.last_used_at now (not (checks.verify_code s code now)) (failed totp now m)
        (if is_replayed now c.last_used_at
          then failed totp now m
          else (ok now, accept_totp c now m))
        (λ b. kept)
        (λ b.
          Advances-if c.last_used_at now (is_replayed now c.last_used_at) (failed totp now m)
            (ok now, accept_totp c now m) (λ r. kept)
            (λ r. (refl, is_replayed-Later now c.last_used_at r, accept_totp-last_used c now m e)))

  check_totp-Advances :
      (code : String) (now : ℕ) (m : Mfa) (c : Option MfaCredential)
      → get_mfa_credential m.credentials ≡ c
      → Advances (last_used c) now (check_totp checks settings code now m c)
  check_totp-Advances code now m none e = ap last_used e
  check_totp-Advances code now m (some c) e =
      check_secret-Advances code now m c (secret_of (m.secrets c.secret_ref)) e

  verify_totp-Advances :
      (code : String) (now : ℕ) (m : Mfa)
      → Advances
          (last_used (get_mfa_credential m.credentials))
          now
          (verify_totp checks settings code now m)
  unfolding verify_totp
  verify_totp-Advances code now m =
      Advances-if (last_used (get_mfa_credential m.credentials)) now (is_throttled settings now m)
        (refuse mfa_too_many_attempts m)
        (check_totp checks settings code now m (get_mfa_credential m.credentials)) (λ b. refl)
        (λ b. check_totp-Advances code now m (get_mfa_credential m.credentials) refl)

  noted-Rising :
      (last : Option ℕ) (now : ℕ) (out : Answer ℕ) (later : List ℕ)
      → Advances last now out
      → Rising (last_used (get_mfa_credential out.1.credentials)) later
      → Rising last (noted out.0 later)
  noted-Rising last now (err e, m) later a h = rw a at h
  noted-Rising last now (ok t, m) later (t_now, fresh, used) h = rw t_now (fresh, rw used at h)

  -- Of the codes that a user gives for a TOTP factor, in any order and at any instants, those that are
  -- accepted are accepted in steps of 30 seconds that rise from one to the next, from the step of the
  -- factor's last use on: none is accepted twice in a step, nor a later one in an earlier step.
  pub accepted-Rising :
      (codes : List (String × ℕ)) (m : Mfa)
      → Rising (last_used (get_mfa_credential m.credentials)) (accepted codes m)
  unfolding accepted
  accepted-Rising [] m = tt
  accepted-Rising ((code, now) ∷ rest) m =
      let out = verify_totp checks settings code now m in
      noted-Rising (last_used (get_mfa_credential m.credentials)) now out (accepted rest out.1)
        (verify_totp-Advances code now m) (accepted-Rising rest out.1)
