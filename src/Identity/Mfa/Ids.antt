-- ===== src/Identity/Mfa/Ids.antt =====
-- The ids of a user's factors stay distinct, as the primary key demands.
use bu_vi.Base.{
  ℕ, ◌≡◌, refl, String, Bool, true, false, not, some, List, [], ◌∷◌, ◌++◌, map, any, arith,
  if◌then◌else◌, ◌=s◌, =s_sym, has, Bool-cases, inl, inr,
}
use bu_vi.Identity.Mfa.Factors.{
  MfaCredential, filter, clashes, add_mfa_credential, delete_mfa_credential, confirm_row, use_row,
  revoke_row, confirm_mfa_credential, record_mfa_use, revoke_mfa_credentials,
}

-- no row has this id
abbrev pub HasNoId : String → List MfaCredential → Type 0
HasNoId id rows = any (λ c. c.id =s id) rows ≡ false

abbrev pub DistinctIds : List MfaCredential → Type 0
DistinctIds [] = Unit
DistinctIds (c ∷ cs) = HasNoId c.id cs × DistinctIds cs

module _ (f : MfaCredential → MfaCredential) (keeps : (c : MfaCredential) → (f c).id ≡ c.id) where
  map-HasNoId :
      (id : String) (rows : List MfaCredential) → HasNoId id rows → HasNoId id (map f rows)
  map-HasNoId id [] h = refl
  map-HasNoId id (c ∷ cs) h = rw (keeps c) (ground (arith, map-HasNoId id cs (ground arith)))

  pub map-DistinctIds : (rows : List MfaCredential) → DistinctIds rows → DistinctIds (map f rows)
  map-DistinctIds [] h = tt
  map-DistinctIds (c ∷ cs) h = (rw (keeps c) (map-HasNoId c.id cs (h.0)), map-DistinctIds cs (h.1))

id-if : (b : Bool) (x y : MfaCredential) → x.id ≡ y.id → (if b then x else y).id ≡ y.id
id-if true x y h = h
id-if false x y h = refl

pub confirm-DistinctIds :
    (id : String) (at : ℕ) (rows : List MfaCredential)
    → DistinctIds rows
    → DistinctIds (confirm_mfa_credential id at rows)
unfolding confirm_mfa_credential
confirm-DistinctIds id at rows h =
    map-DistinctIds (confirm_row id at) (λ c. id-if (c.id =s id) _ c refl) rows h

pub use-DistinctIds :
    (id : String) (at : ℕ) (rows : List MfaCredential)
    → DistinctIds rows
    → DistinctIds (record_mfa_use id at rows)
unfolding record_mfa_use
use-DistinctIds id at rows h =
    map-DistinctIds (use_row id at) (λ c. id-if (c.id =s id) _ c refl) rows h

pub revoke-DistinctIds :
    (ids : List String) (at : ℕ) (rows : List MfaCredential)
    → DistinctIds rows
    → DistinctIds (revoke_mfa_credentials ids at rows)
unfolding revoke_mfa_credentials
revoke-DistinctIds ids at rows h =
    map-DistinctIds (revoke_row ids at) (λ c. id-if (has c.id ids) _ c refl) rows h

filter-HasNoId :
    (p : MfaCredential → Bool) (id : String) (rows : List MfaCredential)
    → HasNoId id rows
    → HasNoId id (filter p rows)
filter-HasNoId p id [] h = refl
filter-HasNoId p id (c ∷ cs) h = elim (Bool-cases (p c)) [
  | inl e ↦ rw e (ground (arith, filter-HasNoId p id cs (ground arith)))
  | inr e ↦ rw e (filter-HasNoId p id cs (ground arith))
]

filter-DistinctIds :
    (p : MfaCredential → Bool) (rows : List MfaCredential)
    → DistinctIds rows
    → DistinctIds (filter p rows)
filter-DistinctIds p [] h = tt
filter-DistinctIds p (c ∷ cs) h = elim (Bool-cases (p c)) [
  | inl e ↦ rw e (filter-HasNoId p c.id cs (h.0), filter-DistinctIds p cs (h.1))
  | inr e ↦ rw e (filter-DistinctIds p cs (h.1))
]

append-HasNoId :
    (id : String) (rows : List MfaCredential) (new : MfaCredential)
    → HasNoId id rows
    → (new.id =s id) ≡ false
    → HasNoId id (rows ++ new ∷ [])
append-HasNoId id [] new h n = ground arith
append-HasNoId id (c ∷ cs) new h n = ground (arith, append-HasNoId id cs new (ground arith) n)

append-DistinctIds :
    (rows : List MfaCredential) (new : MfaCredential)
    → any (clashes new) rows ≡ false
    → DistinctIds rows
    → DistinctIds (rows ++ new ∷ [])
append-DistinctIds [] new e h = (refl, tt)
append-DistinctIds (c ∷ cs) new e h = (
  append-HasNoId c.id cs new (h.0) (ground (arith, =s_sym new.id c.id)),
  append-DistinctIds cs new (ground arith) (h.1),
)

pub add_rows :
    (new : MfaCredential) (rows out : List MfaCredential)
    → add_mfa_credential new rows ≡ some out
    → (out ≡ rows ++ new ∷ []) × (any (clashes new) rows ≡ false)
unfolding add_mfa_credential
add_rows new rows out e = (ground arith, ground arith)

pub add-DistinctIds :
    (new : MfaCredential) (rows out : List MfaCredential)
    → add_mfa_credential new rows ≡ some out
    → DistinctIds rows
    → DistinctIds out
add-DistinctIds new rows out e h =
    let (o, n) = add_rows new rows out e in rw o (append-DistinctIds rows new n h)

pub delete-DistinctIds :
    (id : String) (rows : List MfaCredential)
    → DistinctIds rows
    → DistinctIds (delete_mfa_credential id rows)
unfolding delete_mfa_credential
delete-DistinctIds id rows h = filter-DistinctIds (λ c. not (c.id =s id)) rows h
