-- ===== src/Inventory.antt =====
-- internal/inventory/inventory.go: the recorded inventory and what is stale in it.
pub mod Diff
pub mod Normal
pub mod Settled
use cabure.Base.{
  Bool, true, false, not, List, [], ◌∷◌, ◌==◌, if◌then◌else◌, length, nat_eq, list_eq,
}
use cabure.Base.Sort.{sort}
use cabure.Base.Dict.{Dict, insert, erase, values}
use cabure.Text.{Text, text_lt}
use cabure.Api.{Machinery, ResourceReference, reference_eq, key}

module _ (m : Machinery) where
  -- `out[i].Key() < out[j].Key()`
  abbrev pub key_lt : ResourceReference → ResourceReference → Bool
  key_lt a b = text_lt (key m a) (key m b)

  -- `Normalize`
  unfoldable pub normalize : List ResourceReference → List ResourceReference
  unfolding sort
  normalize items = sort key_lt items

  -- The loop of `Equal`, over two slices of one length.
  same_items : List ResourceReference → List ResourceReference → Bool
  same_items [] _ = true
  same_items (x ∷ xs) [] = false
  same_items (x ∷ xs) (y ∷ ys) = let rest = same_items xs ys in if x == y then rest else false

  -- `Equal`
  unfoldable pub equal : List ResourceReference → List ResourceReference → Bool
  unfolding same_items normalize
  equal a b = if not (length a == length b) then false else same_items (normalize a) (normalize b)

  abbrev pub Index : Type 0
  Index = Dict Text ResourceReference

  -- `prev[ref.Key()] = ref`, for each reference in turn.
  fill : Index → List ResourceReference → Index
  fill d [] = d
  fill d (r ∷ rs) = fill (insert (key m r) r d) rs

  -- `delete(prev, ref.Key())`, for each reference in turn.
  remove_all : Index → List ResourceReference → Index
  remove_all d [] = d
  remove_all d (r ∷ rs) = remove_all (erase (key m r) d) rs

  -- The map `prev` of `Diff` once both loops are done.
  unfoldable pub stale_index : List ResourceReference → List ResourceReference → Index
  unfolding fill remove_all
  stale_index previous desired = remove_all (fill [] previous) desired

  -- `Diff`
  unfoldable pub diff : List ResourceReference → List ResourceReference → List ResourceReference
  unfolding normalize stale_index
  diff previous desired = normalize (values (stale_index previous desired))
