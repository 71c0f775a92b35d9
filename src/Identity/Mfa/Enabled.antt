-- ===== src/Identity/Mfa/Enabled.antt =====
-- Which statements change whether a user has an active factor.
use bu_vi.Base.{
  ℕ, ◌≡◌, refl, String, Bool, true, false, not, ◌&&◌, ◌||◌, some, List, [], ◌∷◌, ◌++◌, any, arith,
  ◌=s◌, =s_iff, =s_sym, has, Bool-cases, inl, inr, ap, sym, ◌∙◌,
}
use bu_vi.Identity.Mfa.Ids.{HasNoId, DistinctIds, add_rows}
use bu_vi.Identity.Mfa.Factors.{
  MfaCredential, is_set, is_active, first, list_confirmed, add_mfa_credential,
  delete_mfa_credential, confirm_row, use_row, revoke_row, confirm_mfa_credential, record_mfa_use,
  revoke_mfa_credentials,
}
use bu_vi.Identity.Mfa.Service.{is_nil}

abbrev pub any_active : List MfaCredential → Bool
any_active rows = any is_active rows

pub list_confirmed-is_nil :
    (rows : List MfaCredential) → is_nil (list_confirmed rows) ≡ not (any_active rows)
unfolding list_confirmed
list_confirmed-is_nil [] = refl
list_confirmed-is_nil (c ∷ cs) = elim (Bool-cases (is_active c)) [
  | inl e ↦ rw (e, list_confirmed) refl
  | inr e ↦ rw (e, list_confirmed) (list_confirmed-is_nil cs)
]

use_row-active :
    (id : String) (at : ℕ) (c : MfaCredential) → is_active (use_row id at c) ≡ is_active c
use_row-active id at c = elim (Bool-cases (c.id =s id)) [ inl e ↦ rw e refl | inr e ↦ rw e refl ]

pub use-active :
    (id : String) (at : ℕ) (rows : List MfaCredential)
    → any_active (record_mfa_use id at rows) ≡ any_active rows
unfolding record_mfa_use
use-active id at [] = refl
use-active id at (c ∷ cs) = rw (use_row-active id at c, use-active id at cs) refl

pub add-active :
    (new : MfaCredential) (rows out : List MfaCredential)
    → add_mfa_credential new rows ≡ some out
    → is_active new ≡ false
    → any_active out ≡ any_active rows
add-active new rows out e n = let (o, _) = add_rows new rows out e in rw o (append rows)
  where
    append : (rows : List MfaCredential) → any_active (rows ++ new ∷ []) ≡ any_active rows
    append [] = ground (arith, n)
    append (c ∷ cs) = ground (arith, append cs)

confirm_row-active :
    (id : String) (at : ℕ) (c : MfaCredential)
    → c.id ≡ id
    → is_set c.revoked_at ≡ false
    → is_active (confirm_row id at c) ≡ true
confirm_row-active id at c e n = rw ((=s_iff c.id id).1 e) (ground arith)

-- Confirming a current factor makes one active.
pub confirm-active :
    (id : String) (at : ℕ) (rows : List MfaCredential)
    → any (λ c. c.id =s id && not (is_set c.revoked_at)) rows ≡ true
    → any_active (confirm_mfa_credential id at rows) ≡ true
unfolding confirm_mfa_credential
confirm-active id at [] h = absurd (ground arith)
confirm-active id at (c ∷ cs) h = elim (Bool-cases (c.id =s id && not (is_set c.revoked_at))) [
  | inl e ↦
      ground (arith, confirm_row-active id at c ((=s_iff c.id id).0 (ground arith)) (ground arith))
  | inr e ↦ ground (arith, confirm-active id at cs (ground arith))
]

pub first-any :
    (p q : MfaCredential → Bool) (rows : List MfaCredential) (c : MfaCredential)
    → first p rows ≡ some c
    → q c ≡ true
    → any q rows ≡ true
first-any p q [] c e h = absurd (ground arith)
first-any p q (x ∷ xs) c e h = elim (Bool-cases (p x)) [
  | inl k ↦ let s : x ≡ c = ground arith in ground (arith, ap q s)
  | inr k ↦ ground (arith, first-any p q xs c (ground arith) h)
]

pub first-holds :
    (p : MfaCredential → Bool) (rows : List MfaCredential) (c : MfaCredential)
    → first p rows ≡ some c
    → p c ≡ true
first-holds p [] c e = absurd (ground arith)
first-holds p (x ∷ xs) c e = elim (Bool-cases (p x)) [
  | inl k ↦ let s : x ≡ c = ground arith in ground (arith, ap p s)
  | inr k ↦ first-holds p xs c (ground arith)
]

revoke_row-active :
    (ids : List String) (at : ℕ) (c : MfaCredential)
    → is_active (revoke_row ids at c) ≡ true
    → is_active c ≡ true
revoke_row-active ids at c h = elim (Bool-cases (has c.id ids)) [
  | inl e ↦ absurd (ground (arith, rw e at h))
  | inr e ↦ rw e at h
]

-- A revocation makes no factor active.
pub revoke-active :
    (ids : List String) (at : ℕ) (rows : List MfaCredential)
    → any_active (revoke_mfa_credentials ids at rows) ≡ true
    → any_active rows ≡ true
unfolding revoke_mfa_credentials
revoke-active ids at [] h = h
revoke-active ids at (c ∷ cs) h = elim (Bool-cases (is_active (revoke_row ids at c))) [
  | inl e ↦ ground (arith, revoke_row-active ids at c e)
  | inr e ↦ ground (arith, revoke-active ids at cs (ground arith))
]

keep_rows :
    (id : String) (rows : List MfaCredential)
    → HasNoId id rows
    → any_active (delete_mfa_credential id rows) ≡ any_active rows
unfolding delete_mfa_credential
keep_rows id [] h = refl
keep_rows id (c ∷ cs) h =
    let e : (c.id =s id) ≡ false = ground arith in
    rw (e, delete_mfa_credential) (ground (arith, keep_rows id cs (ground arith)))

other :
    (x : MfaCredential) (xs : List MfaCredential) (c : MfaCredential) (p : MfaCredential → Bool)
    → first p xs ≡ some c
    → HasNoId x.id xs
    → (x.id =s c.id) ≡ false
other x xs c p e d = elim (Bool-cases (c.id =s x.id)) [
  | inl k ↦ absurd (ground (arith, first-any p (λ y. y.id =s x.id) xs c e k))
  | inr k ↦ =s_sym x.id c.id ∙ k
]

-- Deleting a row that is not active leaves the active ones.
pub delete-active :
    (p : MfaCredential → Bool) (rows : List MfaCredential) (c : MfaCredential)
    → DistinctIds rows
    → first p rows ≡ some c
    → is_active c ≡ false
    → any_active (delete_mfa_credential c.id rows) ≡ any_active rows
unfolding delete_mfa_credential
delete-active p [] c d e n = absurd (ground arith)
delete-active p (x ∷ xs) c d e n = elim (Bool-cases (p x)) [
  | inl k ↦
      let s : x ≡ c = ground arith in
      let same : (x.id =s c.id) ≡ true = (=s_iff x.id c.id).1 (ap (λ y. y.id) s) in
      let rest = keep_rows c.id xs (ap (λ y. any (λ z. z.id =s y.id) xs) (sym s) ∙ d.0) in
      let off : is_active x ≡ false = ap is_active s ∙ n in
      rw (same, delete_mfa_credential) (rest ∙ ap (λ b. b || any_active xs) (sym off))
  | inr k ↦
      let e' : first p xs ≡ some c = ground arith in
      rw (other x xs c p e' (d.0), delete_mfa_credential)
        (ap (λ b. is_active x || b) (delete-active p xs c (d.1) e' n))
]
