-- ===== src/Base/Members.antt =====
-- Membership as a Boolean test, and as the library's proposition.
use mathlib.Core.Path.{◌≡◌}
use mathlib.Core.Logic.Or
use mathlib.Core.Bool.{true, Bool-set}
use mathlib.Core.List.{List, [], ◌∷◌, Mem, mem-cons, not-mem-nil}
use native.Mathlib.Omega.{arith}
use cabure.Base.Equality.{Eq, contains, ==_refl}
use cabure.Base.Lists.{All, All-map}

pub contains_of_mem {ℓ} :
    {A : Type ℓ} ⦃e : Eq A⦄ {a : A} (l : List A) → Mem a l → contains l a ≡ true
contains_of_mem [] m = absurd (not-mem-nil m)
contains_of_mem {a} (x ∷ xs) m =
    Or.elim (Bool-set _ _) (mem-cons.0 m) (λ p. ground arith)
      (λ n. ground (arith, contains_of_mem xs n))

-- A list contains each of its elements.
pub All-contains {ℓ} : {A : Type ℓ} ⦃e : Eq A⦄ (l : List A) → All (λ x. contains l x ≡ true) l
All-contains [] = tt
All-contains (x ∷ xs) =
    (ground (arith, ==_refl x), All-map _ _ xs (λ y h. ground arith) (All-contains xs))
