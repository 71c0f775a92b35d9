-- ===== src/Identity/Mfa/Keeping.antt =====
-- What a request leaves, where it answers by a test and where it refuses.
use bu_vi.Base.{Bool, true, false, if◌then◌else◌, ok}
use bu_vi.Identity.Mfa.Service.{Mfa, MfaError, Answer, refuse}

module _ (P : Mfa → Type 0) where
  -- What is left has the property.
  pub record Keeps {A : Type 0} (out : Answer A) : Type 0 where
    pub keeps : P out.1

  pub Keeps-if :
      {A : Type 0} (b : Bool) {x y : Answer A} → Keeps x → Keeps y → Keeps (if b then x else y)
  Keeps-if true h k = h
  Keeps-if false h k = k

  pub Keeps-refuse : {A : Type 0} (e : MfaError) (m : Mfa) → P m → Keeps (refuse {A = A} e m)
  Keeps-refuse e m h = record { keeps = h }

  pub Keeps-ok : {A : Type 0} (a : A) (m : Mfa) → P m → Keeps {A = A} (ok a, m)
  Keeps-ok a m h = record { keeps = h }
