-- ===== src/Values/Merge.antt =====
-- What stands under a key after `deepMerge` (internal/render/helm.go).
use cabure.Base.{
  ◌≡◌, refl, ◌∙◌, Option, none, some, ◌==◌, list_eq, nat_eq, ==_refl, ==_iff, if◌then◌else◌, arith,
  Bool-cases, inl, inr,
}
use cabure.Text.{Text}
use cabure.Values.{
  Value, Entries, plain_map, end, entry, scalar, values_map, value_at, put, deep_merge,
  merged_value,
}

-- No key has two entries, as in a map.
abbrev pub HasDistinctKeys : Entries → Type 0
HasDistinctKeys end = Unit
HasDistinctKeys (entry k v rest) = (value_at k rest ≡ none) × HasDistinctKeys rest

value_at-put :
    (k j : Text) (v : Value) (d : Entries)
    → value_at k (put j v d) ≡ (if k == j then some v else value_at k d)
unfolding value_at put
value_at-put k j v end = ground arith
value_at-put k j v (entry i w rest) = ground (arith, value_at-put k j v rest)

-- What a source leaves under a key: what stood there, if it has nothing there; a merged map, if both have a map
-- there as a file gives it; and else what it has.
abbrev pub overlaid : Option Value → Option Value → Option Value
overlaid none existing = existing
overlaid (some (plain_map over)) (some (plain_map under)) =
    some (values_map (deep_merge under over))
overlaid (some v) existing = some v

merged_value-overlaid :
    (v : Value) (existing : Option Value)
    → some (merged_value v existing) ≡ overlaid (some v) existing
unfolding merged_value
merged_value-overlaid (scalar s) existing = refl
merged_value-overlaid (values_map m) existing = refl
merged_value-overlaid (plain_map m) none = refl
merged_value-overlaid (plain_map m) (some (scalar s)) = refl
merged_value-overlaid (plain_map m) (some (values_map d)) = refl
merged_value-overlaid (plain_map m) (some (plain_map d)) = refl

-- What stands under each key: if the source has nothing there, what stood there before; if both have a map
-- there as a file gives it, the merge of the two, by the same rule; and else what the source has. So the
-- order in which a map is ranged over does not matter.
pub value_at-deep_merge :
    (k : Text) (src dst : Entries)
    → HasDistinctKeys src
    → value_at k (deep_merge dst src) ≡ overlaid (value_at k src) (value_at k dst)
unfolding deep_merge value_at
value_at-deep_merge k end dst h = refl
value_at-deep_merge k (entry j v rest) dst h =
    value_at-deep_merge k rest (put j (merged_value v (value_at j dst)) dst) h.1
    ∙ (elim (Bool-cases (k == j)) [
      | inl t ↦
          let same : k ≡ j = (==_iff k j).0 t in
          rw (t, same, value_at-put j j (merged_value v (value_at j dst)) dst, h.0, ==_refl j)
            (merged_value-overlaid v (value_at j dst))
      | inr f ↦ rw (f, value_at-put k j (merged_value v (value_at j dst)) dst, f) refl
    ])

-- Where three values files have a map under one key, the third one replaces what the first two gave:
-- the merged map has another type than the maps of a file, and is merged no more.
pub deep_merge-third_map :
    (k : Text) (first second third : Entries) (a b e : Entries)
    → HasDistinctKeys second
    → HasDistinctKeys third
    → value_at k first ≡ some (plain_map a)
    → value_at k second ≡ some (plain_map b)
    → value_at k third ≡ some (plain_map e)
    → value_at k (deep_merge (deep_merge first second) third) ≡ some (plain_map e)
unfolding merged_value
deep_merge-third_map k first second third a b e hs ht ha hb he =
    value_at-deep_merge k third (deep_merge first second) ht
    ∙ rw (he, value_at-deep_merge k second first hs, hb, ha) refl
