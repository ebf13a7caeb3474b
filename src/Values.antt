-- ===== src/Values.antt =====
-- Chart values and `deepMerge` (internal/render/helm.go). A value remembers its dynamic type:
-- `map[string]any` as the decoder makes it, or `chartutil.Values` as `deepMerge` makes it.
pub mod Merge
use cabure.Base.{Bool, true, false, Option, none, some, ◌==◌, list_eq, nat_eq, if◌then◌else◌}
use cabure.Text.{Text}

mutual
  -- `scalar` is any value that is no map, encoded.
  pub data Value : Type 0 where
    scalar : Text → Value
    plain_map : Entries → Value
    values_map : Entries → Value

  pub data Entries : Type 0 where
    end : Entries
    entry : Text → Value → Entries → Entries

-- `existing, ok := dst[key]`
unfoldable pub value_at : Text → Entries → Option Value
value_at k end = none
value_at k (entry j v rest) = if k == j then some v else value_at k rest

-- `dst[key] = value`
unfoldable pub put : Text → Value → Entries → Entries
put k v end = entry k v end
put k v (entry j w rest) = if k == j then entry k v rest else entry j w (put k v rest)

unfoldable mutual
  -- `deepMerge`
  pub deep_merge : Entries → Entries → Entries
  deep_merge dst end = dst
  deep_merge dst (entry key value rest) =
      deep_merge (put key (merged_value value (value_at key dst)) dst) rest

  -- What a key of `src` leaves in `dst`. Only two values of the type `map[string]any` are merged.
  pub merged_value : Value → Option Value → Value
  merged_value (scalar s) existing = scalar s
  merged_value (values_map src) existing = values_map src
  merged_value (plain_map src) none = plain_map src
  merged_value (plain_map src) (some (scalar s)) = plain_map src
  merged_value (plain_map src) (some (values_map dst)) = plain_map src
  merged_value (plain_map src) (some (plain_map dst)) = values_map (deep_merge dst src)
