-- ===== src/Identity/Mfa/Factors.antt =====
-- The rows of one user in `mfa_credentials`, and the statements of
-- infrastructure/db/repositories/identity_repository.py over them. A row of another user counts as
-- none. Rows stand in the order they were added.
use bu_vi.Base.{
  ℕ, String, Bool, true, false, not, ◌&&◌, ◌||◌, Option, none, some, List, [], ◌∷◌, ◌++◌, map, any,
  if◌then◌else◌, ◌=s◌, has,
}
use bu_vi.Auth.Principal.{MfaMethod, totp, webauthn}

-- `MfaCredential`
pub record MfaCredential : Type 0 where
  pub id : String
  pub method : MfaMethod
  pub secret_ref : String
  pub confirmed_at : Option ℕ
  pub last_used_at : Option ℕ
  pub revoked_at : Option ℕ

abbrev pub is_set : Option ℕ → Bool
is_set none = false
is_set (some at) = true

abbrev pub is_totp : MfaMethod → Bool
is_totp totp = true
is_totp webauthn = false

-- a factor that counts: confirmed and not revoked
abbrev pub is_active : MfaCredential → Bool
is_active c = is_set c.confirmed_at && not (is_set c.revoked_at)

abbrev pub is_current_totp : MfaCredential → Bool
is_current_totp c = is_totp c.method && not (is_set c.revoked_at)

abbrev pub is_key : MfaCredential → Bool
is_key c = not (is_totp c.method) && is_active c

abbrev pub filter {ℓ} : {A : Type ℓ} → (A → Bool) → List A → List A
filter p [] = []
filter p (x ∷ xs) = let rest = filter p xs in if p x then x ∷ rest else rest

abbrev pub first {ℓ} : {A : Type ℓ} → (A → Bool) → List A → Option A
first p [] = none
first p (x ∷ xs) = let rest = first p xs in if p x then some x else rest

-- `get_mfa_credential`: the current TOTP factor, confirmed or not
unfoldable pub get_mfa_credential : List MfaCredential → Option MfaCredential
get_mfa_credential rows = first is_current_totp rows

-- `get_mfa_credential_by_id`
unfoldable pub get_mfa_credential_by_id : String → List MfaCredential → Option MfaCredential
get_mfa_credential_by_id id rows = first (λ c. c.id =s id && not (is_set c.revoked_at)) rows

-- `list_mfa_credentials`, in the three ways it is called
unfoldable pub list_current : List MfaCredential → List MfaCredential
list_current rows = filter (λ c. not (is_set c.revoked_at)) rows

unfoldable pub list_confirmed : List MfaCredential → List MfaCredential
list_confirmed rows = filter is_active rows

unfoldable pub list_keys : List MfaCredential → List MfaCredential
list_keys rows = filter is_key rows

-- whether the primary key or the unique index of current TOTP factors refuses the row
abbrev pub clashes : MfaCredential → MfaCredential → Bool
clashes new c = c.id =s new.id || is_current_totp new && is_current_totp c

-- `add_mfa_credential`: none where the database refuses the row
unfoldable pub add_mfa_credential : MfaCredential → List MfaCredential → Option (List MfaCredential)
add_mfa_credential new rows = if any (clashes new) rows then none else some (rows ++ new ∷ [])

-- `delete_mfa_credential`
unfoldable pub delete_mfa_credential : String → List MfaCredential → List MfaCredential
delete_mfa_credential id rows = filter (λ c. not (c.id =s id)) rows

abbrev pub confirm_row : String → ℕ → MfaCredential → MfaCredential
confirm_row id at c =
    if c.id =s id then record c { confirmed_at = some at; last_used_at = some at } else c

-- `confirm_mfa_credential`
unfoldable pub confirm_mfa_credential : String → ℕ → List MfaCredential → List MfaCredential
confirm_mfa_credential id at rows = map (confirm_row id at) rows

abbrev pub use_row : String → ℕ → MfaCredential → MfaCredential
use_row id at c = if c.id =s id then record c { last_used_at = some at } else c

-- `record_mfa_use`
unfoldable pub record_mfa_use : String → ℕ → List MfaCredential → List MfaCredential
record_mfa_use id at rows = map (use_row id at) rows

abbrev pub revoke_row : List String → ℕ → MfaCredential → MfaCredential
revoke_row ids at c = if has c.id ids then record c { revoked_at = some at } else c

-- `revoke_mfa_credentials`
unfoldable pub revoke_mfa_credentials : List String → ℕ → List MfaCredential → List MfaCredential
revoke_mfa_credentials ids at rows = map (revoke_row ids at) rows
