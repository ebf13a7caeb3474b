-- ===== src/Base/Sort/Unique.antt =====
-- When the result of a sort does not depend on the order of its input: if elements that the test
-- does not tell apart are equal. Then an unstable sort gives the same result as a stable one.
use mathlib.Core.Path.{◌≡◌, refl, ◌∙◌}
use mathlib.Core.Logic.{inl, inr, ∥∥₁_elim}
use mathlib.Core.Bool.{Bool, true, false}
use mathlib.Core.List.{List, [], ◌∷◌, Mem, Perm, mem-cons_self, mem-cons_of_mem, Permᴰ}
use mathlib.Core.List
use mathlib.Core.HLevel.{hedberg}
use native.Mathlib.Omega.{arith}
use cabure.Base.Tests.{Bool-cases}
use cabure.Base.Equality.{Eq, list_eq}
use cabure.Base.Sort.{place, sort, IsWeakOrder}

module _ {ℓ} {A : Type ℓ} (less : A → A → Bool) where
  -- Members of the list that the test does not tell apart are equal.
  abbrev pub IsTieFree : List A → Type ℓ
  IsTieFree l = (x y : A) → Mem x l → Mem y l → less x y ≡ false → less y x ≡ false → x ≡ y

module _ {ℓ} {A : Type ℓ} (less : A → A → Bool) (order : IsWeakOrder less) where
  place_comm_lt :
      (x y : A) (l : List A)
      → less x y ≡ true
      → place less x (place less y l) ≡ place less y (place less x l)
  unfolding place
  place_comm_lt x y [] h = ground (arith, order.asym x y h)
  place_comm_lt x y (z ∷ zs) h =
      ground
        (arith, order.asym x y h, order.asym z x, order.neg_trans x z y, place_comm_lt x y zs h)

  place_comm :
      (x y : A) (l : List A)
      → (less x y ≡ false → less y x ≡ false → x ≡ y)
      → place less x (place less y l) ≡ place less y (place less x l)
  place_comm x y l tie = elim (Bool-cases (less x y)) [
    | inl lt ↦ place_comm_lt x y l lt
    | inr ge ↦ elim (Bool-cases (less y x)) [
      | inl gt ↦ cc (place_comm_lt y x l gt)
      | inr le ↦ cc (tie ge le)
    ]
  ]

  sort-perm_eq : {xs ys : List A} → Permᴰ xs ys → IsTieFree less xs → sort less xs ≡ sort less ys
  unfolding sort
  sort-perm_eq Permᴰ.nil t = refl
  sort-perm_eq (Permᴰ.cons {l₁ = xs} e p) t =
      cc (e, sort-perm_eq p (λ x y mx my. t x y (mem-cons_of_mem _ mx) (mem-cons_of_mem _ my)))
  sort-perm_eq (Permᴰ.swap {a = a} {b = b} {l = l} e f) t =
      cc
        (e, f, place_comm a b (sort less l) (t a b mem-cons_self (mem-cons_of_mem _ mem-cons_self)))
  sort-perm_eq (Permᴰ.trans p q) t =
      sort-perm_eq p t
      ∙ sort-perm_eq q (λ x y mx my.
        t x y (List.Permᴰ.mem (List.Permᴰ.symm p) mx) (List.Permᴰ.mem (List.Permᴰ.symm p) my))

-- Lists with the same members, as often, sort to the same list.
pub sort_unique {ℓ} :
    {A : Type ℓ} ⦃e : Eq A⦄ (less : A → A → Bool)
    → IsWeakOrder less
    → (xs ys : List A) → Perm xs ys
    → IsTieFree less xs
    → sort less xs ≡ sort less ys
sort_unique ⦃e⦄ less order xs ys p t =
    ∥∥₁_elim p (hedberg list_eq.dec _ _) (λ d. sort-perm_eq less order d t)
