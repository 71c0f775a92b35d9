-- ===== src/Base/Text.antt =====
-- Texts, sets of texts as lists, and dictionaries with text keys.
use Prim.Native.Nat.{ℕ}
use Prim.Native.Char.{code}
use Prim.Native.String.{String}
use mathlib.Core.Path.{◌≡◌, refl}
use mathlib.Core.Logic.{◌↔◌}
use mathlib.Core.Bool.{Bool, false, true, ◌||◌}
use mathlib.Core.List.{List, [], ◌∷◌, ◌++◌}
use native.Mathlib.Omega.{arith}
use text.Mathlib.Text.{◌==◌ as text_eq}
use text.Mathlib.TextEquality.{eq_iff as text_eq_iff}
use bu_vi.Base.Tests.{if◌then◌else◌}

infix 50 ◌=s◌
-- `a == b` on texts
abbrev pub ◌=s◌ : String → String → Bool
◌=s◌ = text_eq

pub =s_iff : (a b : String) → ((a =s b) ≡ true) ↔ (a ≡ b)
=s_iff = text_eq_iff

pub =s_refl : (a : String) → (a =s a) ≡ true
=s_refl a = (=s_iff a a).1 refl

pub =s_sym : (a b : String) → (a =s b) ≡ (b =s a)
=s_sym a b = ground (arith, =s_iff a b, =s_iff b a)

-- A text that is one of two different texts is not the other.
pub =s_exclusive : (a b c : String) → (b =s c) ≡ false → (a =s b) ≡ true → (a =s c) ≡ false
=s_exclusive a b c d h = rw ((=s_iff a b).0 h) d

-- The code points of a text.
abbrev pub codes : String → List ℕ
codes String.[] = []
codes (String.◌∷◌ c s) = code c ∷ codes s

-- `k in s`, for a set of texts
unfoldable pub has : String → List String → Bool
has k [] = false
has k (x ∷ xs) = k =s x || has k xs

pub has-append : (k : String) (xs ys : List String) → has k (xs ++ ys) ≡ (has k xs || has k ys)
unfolding has
has-append k [] ys = refl
has-append k (x ∷ xs) ys = ground (arith, has-append k xs ys)

pub has-if :
    (k : String) (b : Bool) (xs ys : List String)
    → has k (if b then xs else ys) ≡ (if b then has k xs else has k ys)
has-if k true xs ys = refl
has-if k false xs ys = refl
