-- ===== src/Inventory/Normal.antt =====
-- `Normalize` and `Equal`, and why the order in which `Diff` ranges over its map does not matter.
use mathlib.Core.List.{Perm}
use mathlib.Core.List.Perm
use cabure.Base.{
  ◌≡◌, refl, ap, sym, ◌↔◌, true, List, [], ◌∷◌, arith, ◌==◌, contains, list_eq, nat_eq, option_eq,
  length, ==_iff, Bool-cases, inl, inr,
}
use cabure.Base.Dict.{lookup, values}
use cabure.Base.Members.{contains_of_mem}
use cabure.Base.Sort.{IsSorted, IsWeakOrder}
use cabure.Base.Sort.Laws.{contains-sort, sort-IsSorted, sort_of_IsSorted, length-sort}
use cabure.Base.Sort.Unique.{IsTieFree, sort_unique}
use cabure.Text.{text_lt}
use cabure.Text.Order.{text_lt-IsWeakOrder, by_key-IsWeakOrder, text_lt_antisymm}
use cabure.Api.{Machinery, ResourceReference, reference_eq, key}
use cabure.Inventory.{Index, stale_index, diff, normalize, key_lt, equal, same_items}
use cabure.Inventory.Diff.{stale_index-IsIndex, contains-values, IsIndex}

module _ (m : Machinery) where
  pub key_lt-IsWeakOrder : IsWeakOrder (key_lt m)
  key_lt-IsWeakOrder = by_key-IsWeakOrder text_lt (key m) text_lt-IsWeakOrder

  -- No two references of the list share a key without being equal.
  abbrev pub HasDistinctKeys : List ResourceReference → Type 0
  HasDistinctKeys = IsTieFree (key_lt m)

  pub normalize-IsSorted :
      (items : List ResourceReference) → IsSorted (key_lt m) (normalize m items)
  unfolding normalize
  normalize-IsSorted items = sort-IsSorted (key_lt m) key_lt-IsWeakOrder items

  pub contains-normalize :
      (r : ResourceReference) (items : List ResourceReference)
      → contains (normalize m items) r ≡ contains items r
  unfolding normalize
  contains-normalize r items = contains-sort (key_lt m) r items

  pub normalize_idem :
      (items : List ResourceReference) → normalize m (normalize m items) ≡ normalize m items
  unfolding normalize
  normalize_idem items = sort_of_IsSorted (key_lt m) _ (normalize-IsSorted items)

  pub normalize_any_order :
      (xs ys : List ResourceReference)
      → Perm xs ys
      → HasDistinctKeys xs
      → normalize m xs ≡ normalize m ys
  unfolding normalize
  normalize_any_order xs ys p t = sort_unique (key_lt m) key_lt-IsWeakOrder xs ys p t

  index-HasDistinctKeys : (d : Index m) → IsIndex m d → HasDistinctKeys (values d)
  unfolding lookup
  index-HasDistinctKeys d h x y mx my le ge = ground (
    arith,
    text_lt_antisymm (key m x) (key m y) le ge,
    contains-values m x d h,
    contains-values m y d h,
    contains_of_mem (values d) mx,
    contains_of_mem (values d) my,
  )

  -- Whatever the order in which the map of stale references is ranged over, and however the sort
  -- treats ties, the result of `Diff` is the same.
  pub diff_any_order :
      (previous desired ranged : List ResourceReference)
      → Perm ranged (values (stale_index m previous desired))
      → normalize m ranged ≡ diff m previous desired
  unfolding diff
  diff_any_order previous desired ranged p = sym (
      normalize_any_order _ ranged (Perm.symm p)
        (index-HasDistinctKeys _ (stale_index-IsIndex m previous desired)))

  same_items_iff :
      (xs ys : List ResourceReference)
      → length xs ≡ length ys
      → (same_items m xs ys ≡ true) ↔ (xs ≡ ys)
  unfolding same_items
  same_items_iff [] [] e = (λ _. refl, λ _. refl)
  same_items_iff [] (y ∷ ys) e = absurd (omega arith)
  same_items_iff (x ∷ xs) [] e = absurd (omega arith)
  same_items_iff (x ∷ xs) (y ∷ ys) e =
      let ih = same_items_iff xs ys (omega arith) in
      (λ h. ground (arith, ih.0), λ h. ground (arith, ih.1))

  length-normalize : (items : List ResourceReference) → length (normalize m items) ≡ length items
  unfolding normalize
  length-normalize items = length-sort (key_lt m) items

  -- `Equal` holds exactly when the normal forms are the same list.
  pub equal_iff :
      (a b : List ResourceReference) → (equal m a b ≡ true) ↔ (normalize m a ≡ normalize m b)
  unfolding equal
  equal_iff a b = elim (Bool-cases (length a == length b)) [
    | inl e ↦
        rw (e, equal)
          (same_items_iff (normalize m a) (normalize m b)
            (omega (arith, length-normalize a, length-normalize b, (==_iff _ (length b)).0 e)))
    | inr e ↦
        rw (e, equal)
          ((λ h. cc), λ h. ground (arith, ap length h, length-normalize a, length-normalize b))
  ]

  -- Inventories that hold the same references in different orders are equal to it.
  pub equal_of_perm :
      (a b : List ResourceReference) → Perm a b → HasDistinctKeys a → equal m a b ≡ true
  equal_of_perm a b p t = (equal_iff a b).1 (normalize_any_order a b p t)
