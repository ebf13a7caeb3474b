-- ===== src/Inventory/Settled.antt =====
-- Nothing is stale in an inventory that was recorded of the desired references.
use cabure.Base.{
  ◌≡◌, refl, ◌∙◌, Bool, true, false, not, ◌&&◌, Option, none, some, List, [], ◌∷◌, ◌==◌, list_eq,
  nat_eq, option_eq, ==_refl, contains, arith,
}
use cabure.Base.Sort.Laws.{any-sort}
use cabure.Text.{Text}
use cabure.Api.{Machinery, ResourceReference, reference_eq, key}
use cabure.Inventory.{diff, normalize, key_lt}
use cabure.Inventory.Diff.{latest, has_key, contains-diff}

-- A list that contains nothing is empty.
empty_of_contains :
    (l : List ResourceReference) → ((r : ResourceReference) → contains l r ≡ false) → l ≡ []
empty_of_contains [] h = refl
empty_of_contains (x ∷ l) h = ground (arith, h x, ==_refl x)

module _ (m : Machinery) where
  latest-eq-none :
      (k : Text) (l : List ResourceReference) → has_key m k l ≡ false → latest m k l ≡ none
  unfolding latest has_key
  latest-eq-none k [] h = refl
  latest-eq-none k (x ∷ l) h = ground (arith, latest-eq-none k l)

  not_stale :
      (o : Option ResourceReference) (r : ResourceReference) (b : Bool)
      → (b ≡ false → o ≡ none)
      → (o == some r && not b) ≡ false
  not_stale o r true h = ground arith
  not_stale o r false h = ground (arith, h refl)

  has_key-normalize :
      (k : Text) (l : List ResourceReference) → has_key m k (normalize m l) ≡ has_key m k l
  unfolding has_key normalize
  has_key-normalize k l = any-sort (key_lt m) (λ r. k == key m r) l

  -- If every key of the previous inventory is desired, nothing is stale.
  pub diff-normalize :
      (desired : List ResourceReference) → diff m (normalize m desired) desired ≡ []
  diff-normalize desired = empty_of_contains (diff m (normalize m desired) desired) λ r.
      contains-diff m (normalize m desired) desired r
      ∙ not_stale (latest m (key m r) (normalize m desired)) r (has_key m (key m r) desired) (λ h.
        latest-eq-none (key m r) (normalize m desired) (has_key-normalize (key m r) desired ∙ h))
