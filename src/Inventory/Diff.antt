-- ===== src/Inventory/Diff.antt =====
-- What `Diff` returns.
use cabure.Base.{
  ◌≡◌, refl, ◌∙◌, Bool, false, not, ◌&&◌, Option, none, some, List, [], ◌∷◌, arith, ◌==◌, contains,
  if◌then◌else◌, list_eq, nat_eq, option_eq, any,
}
use cabure.Base.Dict.{
  lookup, insert, erase, values, NodupKeys, lookup-insert, lookup-erase, insert-NodupKeys,
  erase-NodupKeys,
}
use cabure.Base.Sort.{sort}
use cabure.Base.Sort.Laws.{contains-sort}
use cabure.Text.{Text}
use cabure.Api.{Machinery, ResourceReference, reference_eq, key}
use cabure.Inventory.{Index, fill, remove_all, stale_index, diff, normalize, key_lt}

module _ (m : Machinery) where
  -- The last reference of the list with this key: the one that a map from keys keeps.
  unfoldable pub latest : Text → List ResourceReference → Option ResourceReference
  latest k [] = none
  latest k (r ∷ rs) = elim (latest k rs) [
    | some s ↦ some s
    | none ↦ if k == key m r then some r else none
  ]

  unfoldable pub has_key : Text → List ResourceReference → Bool
  has_key k rs = any (λ r. k == key m r) rs

  -- Every entry stands under its own key.
  abbrev pub IsKeyed : Index m → Type 0
  IsKeyed [] = Unit
  IsKeyed ((k, r) ∷ d) = (k ≡ key m r) × IsKeyed d

  insert-IsKeyed :
      (r : ResourceReference) (d : Index m) → IsKeyed d → IsKeyed (insert (key m r) r d)
  unfolding insert
  insert-IsKeyed r [] h = (refl, tt)
  insert-IsKeyed r ((k, s) ∷ d) h = ground (arith, insert-IsKeyed r d h.1)

  erase-IsKeyed : (k : Text) (d : Index m) → IsKeyed d → IsKeyed (erase k d)
  unfolding erase
  erase-IsKeyed k [] h = tt
  erase-IsKeyed k ((j, s) ∷ d) h = ground (arith, erase-IsKeyed k d h.1)

  abbrev pub IsIndex : Index m → Type 0
  IsIndex d = NodupKeys d × IsKeyed d

  fill-IsIndex : (d : Index m) (rs : List ResourceReference) → IsIndex d → IsIndex (fill m d rs)
  unfolding fill
  fill-IsIndex d [] h = h
  fill-IsIndex d (r ∷ rs) h =
      fill-IsIndex (insert (key m r) r d) rs
        (insert-NodupKeys (key m r) r d h.0, insert-IsKeyed r d h.1)

  remove_all-IsIndex :
      (d : Index m) (rs : List ResourceReference) → IsIndex d → IsIndex (remove_all m d rs)
  unfolding remove_all
  remove_all-IsIndex d [] h = h
  remove_all-IsIndex d (r ∷ rs) h =
      remove_all-IsIndex (erase (key m r) d) rs
        (erase-NodupKeys (key m r) d h.0, erase-IsKeyed (key m r) d h.1)

  pub stale_index-IsIndex :
      (previous desired : List ResourceReference) → IsIndex (stale_index m previous desired)
  unfolding stale_index
  stale_index-IsIndex previous desired =
      remove_all-IsIndex (fill m [] previous) desired (fill-IsIndex [] previous (tt, tt))

  lookup-fill :
      (k : Text) (d : Index m) (rs : List ResourceReference)
      → lookup k (fill m d rs) ≡ elim (latest k rs) [ some s ↦ some s | none ↦ lookup k d ]
  unfolding fill latest
  lookup-fill k d [] = refl
  lookup-fill k d (r ∷ rs) =
      ground (arith, lookup-fill k (insert (key m r) r d) rs, lookup-insert k (key m r) r d)

  lookup-remove_all :
      (k : Text) (d : Index m) (rs : List ResourceReference)
      → lookup k (remove_all m d rs) ≡ (if has_key k rs then none else lookup k d)
  unfolding remove_all has_key
  lookup-remove_all k d [] = refl
  lookup-remove_all k d (r ∷ rs) =
      ground (arith, lookup-remove_all k (erase (key m r) d) rs, lookup-erase k (key m r) d)

  pub contains-values :
      (r : ResourceReference) (d : Index m)
      → IsIndex d
      → contains (values d) r ≡ (lookup (key m r) d == some r)
  unfolding lookup
  contains-values r [] h = ground arith
  contains-values r ((k, s) ∷ d) h = ground (arith, contains-values r d (h.0.1, h.1.1))

  -- A reference is stale exactly when it is the last one of the previous inventory under its key,
  -- and no desired reference has that key.
  pub contains-diff :
      (previous desired : List ResourceReference) (r : ResourceReference)
      → contains (diff m previous desired) r
        ≡ (latest (key m r) previous == some r && not (has_key (key m r) desired))
  unfolding diff normalize stale_index lookup
  contains-diff previous desired r =
      contains-sort (key_lt m) r (values (stale_index m previous desired))
      ∙ contains-values r (stale_index m previous desired) (stale_index-IsIndex previous desired)
      ∙ ground (
        arith,
        lookup-remove_all (key m r) (fill m [] previous) desired,
        lookup-fill (key m r) [] previous,
      )

-- One reference is stale unless the desired one has its key.
pub diff_of_other_key :
    (m : Machinery) (r r' : ResourceReference)
    → (key m r' == key m r) ≡ false
    → diff m (r ∷ []) (r' ∷ []) ≡ r ∷ []
unfolding diff stale_index fill remove_all insert erase normalize sort
diff_of_other_key m r r' h = rw h refl
