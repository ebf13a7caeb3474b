-- ===== src/Base/Sort/Laws.antt =====
-- What sorting keeps and what it establishes.
use mathlib.Core.Path.{◌≡◌, refl, ap, ◌∙◌}
use mathlib.Core.Logic.{inl, inr}
use mathlib.Core.Bool.{Bool, true, false, ◌||◌}
use mathlib.Core.List.{List, [], ◌∷◌, Perm}
use mathlib.Core.List.Perm
use native.Mathlib.Omega.{arith}
use cabure.Base.Tests.{Bool-cases}
use cabure.Base.Equality.{Eq, ◌==◌, contains}
use cabure.Base.Lists.{All, All-map, select, count, length, any}
use cabure.Base.Sort.{place, sort, IsWeakOrder, IsSorted}

module _ {ℓ} {A : Type ℓ} (less : A → A → Bool) where
  place-All {κ} : (P : A → Type κ) (x : A) (l : List A) → P x → All P l → All P (place less x l)
  unfolding place
  place-All P x [] px h = (px, tt)
  place-All P x (y ∷ ys) px h = elim (Bool-cases (less y x)) [
    | inl e ↦ rw (e, place) (h.0, place-All P x ys px h.1)
    | inr e ↦ rw (e, place) (px, h)
  ]

  pub sort-All {κ} : (P : A → Type κ) (l : List A) → All P l → All P (sort less l)
  unfolding sort
  sort-All P [] h = tt
  sort-All P (x ∷ xs) h = place-All P x (sort less xs) h.0 (sort-All P xs h.1)

  place-perm : (x : A) (l : List A) → Perm (place less x l) (x ∷ l)
  unfolding place
  place-perm x [] = Perm.rfl
  place-perm x (y ∷ ys) = elim (Bool-cases (less y x)) [
    | inl e ↦ rw (e, place) (Perm.trans (Perm.cons y (place-perm x ys)) (Perm.swap x y ys))
    | inr e ↦ rw (e, place) Perm.rfl
  ]

  pub sort-perm : (l : List A) → Perm (sort less l) l
  unfolding sort
  sort-perm [] = Perm.rfl
  sort-perm (x ∷ xs) = Perm.trans (place-perm x (sort less xs)) (Perm.cons x (sort-perm xs))

  length-place : (x : A) (l : List A) → length (place less x l) ≡ length (x ∷ l)
  unfolding place
  length-place x [] = refl
  length-place x (y ∷ ys) = ground (arith, length-place x ys)

  pub length-sort : (l : List A) → length (sort less l) ≡ length l
  unfolding sort
  length-sort [] = refl
  length-sort (x ∷ xs) = omega (arith, length-place x (sort less xs), length-sort xs)

module _ {ℓ} {A : Type ℓ} (less : A → A → Bool) (p : A → Bool) where
  any-place : (x : A) (l : List A) → any p (place less x l) ≡ (p x || any p l)
  unfolding place
  any-place x [] = refl
  any-place x (y ∷ ys) = ground (arith, any-place x ys)

  pub any-sort : (l : List A) → any p (sort less l) ≡ any p l
  unfolding sort
  any-sort [] = refl
  any-sort (x ∷ xs) = ground (arith, any-place x (sort less xs), any-sort xs)

module _ {ℓ} {A : Type ℓ} (less : A → A → Bool) (p : A → Bool) where
  count-place : (x : A) (l : List A) → count p (place less x l) ≡ count p (x ∷ l)
  unfolding place
  count-place x [] = refl
  count-place x (y ∷ ys) = elim (Bool-cases (less y x)) [
    | inl e ↦ rw (e, place) (ground (arith, count-place x ys))
    | inr e ↦ rw (e, place) refl
  ]

  -- Sorting keeps how often anything is there.
  pub count-sort : (l : List A) → count p (sort less l) ≡ count p l
  unfolding sort
  count-sort [] = refl
  count-sort (x ∷ xs) = ground (arith, count-place x (sort less xs), count-sort xs)

module _ {ℓ} {A : Type ℓ} ⦃e : Eq A⦄ (less : A → A → Bool) where
  contains-place : (x a : A) (l : List A) → contains (place less x l) a ≡ (a == x || contains l a)
  unfolding place
  contains-place x a [] = refl
  contains-place x a (y ∷ ys) = ground (arith, contains-place x a ys)

  -- Sorting neither adds nor drops an element.
  pub contains-sort : (a : A) (l : List A) → contains (sort less l) a ≡ contains l a
  unfolding sort
  contains-sort a [] = refl
  contains-sort a (x ∷ xs) = ground (arith, contains-place x a (sort less xs), contains-sort a xs)

module _ {ℓ} {A : Type ℓ} (less : A → A → Bool) (order : IsWeakOrder less) where
  place-IsSorted : (x : A) (l : List A) → IsSorted less l → IsSorted less (place less x l)
  unfolding place
  place-IsSorted x [] s = (tt, tt)
  place-IsSorted x (y ∷ ys) s = elim (Bool-cases (less y x)) [
    | inl e ↦ rw (e, place) (place-All less _ x ys (order.asym y x e) s.0, place-IsSorted x ys s.1)
    | inr e ↦ rw (e, place) ((e, All-map _ _ ys (λ z h. order.neg_trans z y x h e) s.0), s)
  ]

  pub sort-IsSorted : (l : List A) → IsSorted less (sort less l)
  unfolding sort
  sort-IsSorted [] = tt
  sort-IsSorted (x ∷ xs) = place-IsSorted x (sort less xs) (sort-IsSorted xs)

module _ {ℓ} {A : Type ℓ} (less : A → A → Bool) where
  place_of_least : (x : A) (l : List A) → All (λ y. less y x ≡ false) l → place less x l ≡ x ∷ l
  unfolding place
  place_of_least x [] h = refl
  place_of_least x (y ∷ ys) h = rw (h.0, place)

  -- A sorted list is left as it is.
  pub sort_of_IsSorted : (l : List A) → IsSorted less l → sort less l ≡ l
  unfolding sort
  sort_of_IsSorted [] s = refl
  sort_of_IsSorted (x ∷ xs) s =
      ap (place less x) (sort_of_IsSorted xs s.1) ∙ place_of_least x xs s.0

module _ {ℓ} {A : Type ℓ} (less : A → A → Bool) (p : A → Bool) where
  -- No two elements of the class are told apart by the test.
  abbrev pub IsClass : Type ℓ
  IsClass = (a b : A) → p a ≡ true → p b ≡ true → less a b ≡ false

  select-place : IsClass → (x : A) (l : List A) → select p (place less x l) ≡ select p (x ∷ l)
  unfolding place
  select-place c x [] = refl
  select-place c x (y ∷ ys) = ground (arith, select-place c x ys, c y x)

  -- The sort is stable: a class of elements that the test does not tell apart keeps its order.
  pub select-sort : IsClass → (l : List A) → select p (sort less l) ≡ select p l
  unfolding sort
  select-sort c [] = refl
  select-sort c (x ∷ xs) = ground (arith, select-place c x (sort less xs), select-sort c xs)
