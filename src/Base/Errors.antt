-- ===== src/Base/Errors.antt =====
-- A call that may raise, with its errors as values.
use mathlib.Core.Path.{◌≡◌, refl}
use mathlib.Core.Logic.{◌⊎◌, inl, inr}
use mathlib.Core.Bool.{Bool, true, false}

infixl 5 ◌>>=◌ ◌>>◌
pub data Result {ℓ} (E A : Type ℓ) : Type ℓ where
  err : (raised : E) → Result E A
  ok : (returned : A) → Result E A

-- A call that returned or one that raised.
pub Result-cases {ℓ} :
    {E A : Type ℓ} (call : Result E A) → ((a : A) × (call ≡ ok a)) ⊎ ((e : E) × (call ≡ err e))
Result-cases (err e) = inr (e, refl)
Result-cases (ok a) = inl (a, refl)

-- `if not test: raise error`
abbrev pub guard : {E : Type 0} (test : Bool) (error : E) → Result E (Unit {0})
guard false error = err error
guard true _ = ok tt

-- The next statement of a body, which an error skips.
abbrev pub ◌>>=◌ {ℓ} : {E A B : Type ℓ} (call : Result E A) (next : A → Result E B) → Result E B
err raised >>= next = err raised
ok returned >>= next = next returned

abbrev pub ◌>>◌ : {E B : Type 0} (check : Result E (Unit {0})) (rest : Result E B) → Result E B
check >> rest = check >>= (λ done. rest)

pub >>=-eq-ok {ℓ} :
    {E A B : Type ℓ} (call : Result E A) (next : A → Result E B) {b : B}
    → (call >>= next) ≡ ok b
    → (a : A) × (call ≡ ok a) × (next a ≡ ok b)
>>=-eq-ok (err raised) next h = cc
>>=-eq-ok (ok returned) next h = (returned, refl, h)

-- A check that passed, and what followed it.
pub guard-ok :
    {E A : Type 0} (test : Bool) (error : E) (rest : Result E A) {a : A}
    → (guard test error >> rest) ≡ ok a
    → (test ≡ true) × (rest ≡ ok a)
guard-ok true error rest h = (refl, h)
guard-ok false error rest h = cc

-- A body that succeeds does so too with each of its two calls replaced by one that succeeds where the
-- first does.
pub >>=_mono :
    {E A B : Type 0} (call call' : Result E A) (next next' : A → Result E B) {b : B}
    → ((a : A) → call ≡ ok a → call' ≡ ok a)
    → ((a : A) → next a ≡ ok b → next' a ≡ ok b)
    → (call >>= next) ≡ ok b
    → (call' >>= next') ≡ ok b
>>=_mono (err raised) call' next next' f g h = cc
>>=_mono (ok a) call' next next' f g h = rw (f a refl) (g a h)

pub guard_mono :
    {E A : Type 0} (test : Bool) (error : E) (rest rest' : Result E A) {a : A}
    → (rest ≡ ok a → rest' ≡ ok a)
    → (guard test error >> rest) ≡ ok a
    → (guard test error >> rest') ≡ ok a
guard_mono true error rest rest' f h = f h
guard_mono false error rest rest' f h = cc

pub guard-true : {E : Type 0} (test : Bool) (error : E) → guard test error ≡ ok tt → test ≡ true
guard-true true error h = refl
guard-true false error h = cc
