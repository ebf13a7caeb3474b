-- ===== src/Tests/Library.antt =====
-- The theorems on the inventory, the apply step, paths, values and conditions, at values of the
-- small world.
use cabure.Base.{
  ◌≡◌, refl, true, not, ◌&&◌, Option, some, List, [], ◌∷◌, ◌++◌, ◌==◌, ok, All, list_eq, nat_eq,
  option_eq, is_ok, all, contains, map, select, count, if◌then◌else◌, errorf, Error, ℕ,
}
use cabure.Base.Sort.{IsSorted}
use cabure.Text.{codes, to_lower, text_lt}
use cabure.Path.{is_abs, resolve_within_root, elements}
use cabure.Path.Machine.{IsName}
use cabure.Path.Rooted.{rooted_path, names_of}
use cabure.Path.Inside.{resolve_within_root-inside, resolve_within_root-relative}
use cabure.Api.{key, Object, ResourceReference, reference_eq}
use cabure.Inventory.{diff}
use cabure.Inventory.Diff.{latest, has_key, contains-diff}
use cabure.Apply.{
  normalize_and_validate, apply_priority, ensure_metadata, cluster_scoped_kind_allowed,
  basic_validate, check_scope, place_namespace, size_check, resource_reference_for,
}
use cabure.Apply.Stages.{stage_of}
use cabure.Apply.Admission.{IsAdmitted, normalize_and_validate-IsAdmitted}
use cabure.Apply.Refusal.{meets_policy, normalize_and_validate-succeeds}
use cabure.Apply.Ordering.{
  normalize_and_validate-ordered, normalize_and_validate-recorded, identity, present,
  is_recorded_by, InStages, sort_text,
}
use cabure.Values.{end, entry, plain_map, scalar, value_at, deep_merge}
use cabure.Values.Merge.{overlaid, value_at-deep_merge, deep_merge-third_map}
use cabure.Controller.Conditions.{condition_at, failure_status, stage_reason}
use cabure.Controller.Conditions.Lookup.{
  find_condition, ready, reconciling, stalled, failure_status-conditions,
}
use cabure.Api.Types.{condition_true, condition_false}
use cabure.Tests.Demo.{
  demo_machinery, demo_policy, demo_application, web, web_in_prod, team, web_reference,
  team_reference, values_file,
}

contains-diff_example :
    contains
      (diff demo_machinery (web_reference ∷ team_reference ∷ []) (team_reference ∷ []))
      web_reference
    ≡ (latest demo_machinery
            (key demo_machinery web_reference)
            (web_reference ∷ team_reference ∷ [])
          == some web_reference
        && not (has_key demo_machinery (key demo_machinery web_reference) (team_reference ∷ [])))
contains-diff_example =
    contains-diff demo_machinery (web_reference ∷ team_reference ∷ []) (team_reference ∷ [])
      web_reference

abbrev rendered : List (Option Object)
rendered = some web ∷ some team ∷ []

abbrev admitted : List Object
admitted = ensure_metadata team demo_policy ∷ ensure_metadata web_in_prod demo_policy ∷ []

abbrev recorded : List ResourceReference
recorded = team_reference ∷ web_reference ∷ []

rendered_are_admitted :
    normalize_and_validate demo_machinery rendered demo_policy ≡ ok (admitted, recorded)
unfolding normalize_and_validate basic_validate list_eq check_scope nat_eq place_namespace
    size_check ensure_metadata cluster_scoped_kind_allowed to_lower apply_priority text_lt key
    resource_reference_for
rendered_are_admitted = refl

normalize_and_validate-IsAdmitted_example : All (IsAdmitted demo_machinery demo_policy) admitted
normalize_and_validate-IsAdmitted_example =
    normalize_and_validate-IsAdmitted demo_machinery rendered demo_policy rendered_are_admitted

normalize_and_validate-succeeds_example :
    is_ok (normalize_and_validate demo_machinery rendered demo_policy)
    ≡ all (meets_policy demo_machinery demo_policy) rendered
normalize_and_validate-succeeds_example =
    normalize_and_validate-succeeds demo_machinery rendered demo_policy

normalize_and_validate-ordered_example :
    InStages admitted
    × ((p : ℕ)
        → map identity (select (λ o. stage_of o.kind == p) admitted)
          ≡ map identity (select (λ o. stage_of o.kind == p) (present rendered)))
normalize_and_validate-ordered_example =
    normalize_and_validate-ordered demo_machinery rendered demo_policy rendered_are_admitted

normalize_and_validate-recorded_example :
    IsSorted (λ a b. text_lt (sort_text demo_machinery a) (sort_text demo_machinery b)) recorded
    × ((r : ResourceReference)
        → count (λ q. r == q) recorded ≡ count (is_recorded_by demo_machinery r) admitted)
normalize_and_validate-recorded_example =
    normalize_and_validate-recorded demo_machinery rendered demo_policy rendered_are_admitted

resolve_within_root-inside_example :
    (q : _) × All IsName q × (codes "/work/b" ≡ rooted_path (names_of (codes "/work") ++ q))
unfolding resolve_within_root is_abs list_eq nat_eq
resolve_within_root-inside_example =
    resolve_within_root-inside (codes "/work") refl (codes "a/../b") refl

resolve_within_root-relative_example :
    resolve_within_root (codes "/work") (codes "a/../b")
    ≡ ok (rooted_path (names_of (codes "/work") ++ names_of (codes "a/../b")))
unfolding elements is_abs list_eq nat_eq
resolve_within_root-relative_example =
    resolve_within_root-relative (codes "/work") refl (codes "a/../b") (λ e. cc) refl refl refl

value_at-deep_merge_example :
    value_at (codes "image") (deep_merge (values_file (codes "a")) (values_file (codes "b")))
    ≡ overlaid
        (value_at (codes "image") (values_file (codes "b")))
        (value_at (codes "image") (values_file (codes "a")))
unfolding value_at
value_at-deep_merge_example =
    value_at-deep_merge (codes "image") (values_file (codes "b")) (values_file (codes "a"))
      (refl, tt)

deep_merge-third_map_example :
    value_at (codes "image") (
      deep_merge
        (deep_merge (values_file (codes "a")) (values_file (codes "b")))
        (values_file (codes "c")))
    ≡ some (plain_map (entry (codes "c") (scalar (codes "c")) end))
unfolding value_at list_eq nat_eq
deep_merge-third_map_example =
    deep_merge-third_map (codes "image") (values_file (codes "a")) (values_file (codes "b"))
      (values_file (codes "c")) (entry (codes "a") (scalar (codes "a")) end)
      (entry (codes "b") (scalar (codes "b")) end) (entry (codes "c") (scalar (codes "c")) end)
      (refl, tt) (refl, tt) refl refl refl

abbrev prune_error : Error
prune_error = errorf (codes "forbidden")

failure_status-conditions_example :
    find_condition ready
      (failure_status demo_application 7 (codes "prune") prune_error true).conditions
    ≡ (if ready == ready
        then some (
            condition_at ready condition_false
              (stage_reason (codes "prune"))
              (codes "prune" ++ (codes ": " ++ prune_error.message))
              demo_application
              7)
        else if ready == reconciling
        then some (
            condition_at reconciling condition_false
              (stage_reason (codes "prune"))
              (codes "prune" ++ (codes ": " ++ prune_error.message))
              demo_application
              7)
        else if ready == stalled
        then some (
            condition_at stalled condition_true
              (stage_reason (codes "prune"))
              (codes "prune" ++ (codes ": " ++ prune_error.message))
              demo_application
              7)
        else find_condition ready demo_application.status.conditions)
failure_status-conditions_example =
    failure_status-conditions demo_application 7 (codes "prune") prune_error true ready
