-- ===== src/Controller/Conditions/Lookup.antt =====
-- What stands in a list of conditions after `setCondition`, and after each of the three outcomes.
use cabure.Base.{
  ℕ, ◌≡◌, refl, Bool, Option, none, some, List, [], ◌∷◌, ◌++◌, ◌==◌, list_eq, nat_eq, if◌then◌else◌,
  Error, arith,
}
use cabure.Text.{Text, codes}
use cabure.Api.{Machinery, ResourceReference}
use cabure.Api.Types.{GitApplication, Condition, condition_true, condition_false}
use cabure.Controller.Conditions.{
  set_condition, success_status, failure_status, suspended_status, stage_reason, condition_at,
}

-- The first condition of a type, as readers of the status look it up.
unfoldable pub find_condition : Text → List Condition → Option Condition
find_condition t [] = none
find_condition t (c ∷ conditions) = if t == c.type then some c else find_condition t conditions

-- No type has two conditions.
abbrev pub HasDistinctTypes : List Condition → Type 0
HasDistinctTypes [] = Unit
HasDistinctTypes (c ∷ conditions) =
    (find_condition c.type conditions ≡ none) × HasDistinctTypes conditions

-- The new condition is found under its type, and every other type finds what it found before.
pub find_condition-set_condition :
    (t : Text) (conditions : List Condition) (c : Condition)
    → find_condition t (set_condition conditions c)
      ≡ (if t == c.type then some c else find_condition t conditions)
unfolding find_condition set_condition
find_condition-set_condition t [] c = refl
find_condition-set_condition t (d ∷ conditions) c =
    ground (arith, find_condition-set_condition t conditions c)

-- If no type has two conditions, none has after a condition is set.
pub set_condition-HasDistinctTypes :
    (conditions : List Condition) (c : Condition)
    → HasDistinctTypes conditions
    → HasDistinctTypes (set_condition conditions c)
unfolding set_condition find_condition
set_condition-HasDistinctTypes [] c h = (refl, tt)
set_condition-HasDistinctTypes (d ∷ conditions) c h = ground (
  arith,
  set_condition-HasDistinctTypes conditions c h.1,
  find_condition-set_condition d.type conditions c,
)

-- The three types that the program writes.
abbrev pub ready : Text
ready = codes "Ready"

abbrev pub reconciling : Text
reconciling = codes "Reconciling"

abbrev pub stalled : Text
stalled = codes "Stalled"

-- After a failure the application is not ready and not reconciling, it is stalled exactly if the
-- failure is, each says what failed, and all other conditions are as they were.
pub failure_status-conditions :
    (app : GitApplication) (now : ℕ) (stage : Text) (e : Error) (is_stalled : Bool) (t : Text)
    → let message = stage ++ (codes ": " ++ e.message) in
      let reason = stage_reason stage in
      find_condition t (failure_status app now stage e is_stalled).conditions ≡ (
        if t == ready
        then some (condition_at ready condition_false reason message app now)
        else if t == reconciling
        then some (condition_at reconciling condition_false reason message app now)
        else if t == stalled
        then some (
            condition_at stalled
              (if is_stalled then condition_true else condition_false)
              reason
              (if is_stalled then message else [])
              app
              now)
        else find_condition t app.status.conditions)
unfolding failure_status
failure_status-conditions app now stage e is_stalled t = simp find_condition-set_condition

-- After a success the application is ready, not reconciling and not stalled, and all other
-- conditions are as they were.
pub success_status-conditions :
    (m : Machinery) (app : GitApplication) (now : ℕ) (sha : Text) (desired : List ResourceReference)
    (t : Text)
    → let reason = codes "Reconciled" in
      find_condition t (success_status m app now sha desired).conditions ≡ (
        if t == stalled
        then some (condition_at stalled condition_false reason [] app now)
        else if t == ready
        then some (condition_at ready condition_true reason (codes "application is ready") app now)
        else if t == reconciling
        then some (
            condition_at reconciling condition_false reason
              (codes "reconciliation complete")
              app
              now)
        else find_condition t app.status.conditions)
unfolding success_status
success_status-conditions m app now sha desired t = simp find_condition-set_condition

-- While suspended the application is not ready and not reconciling, and all other conditions, with
-- the one that tells whether it is stalled, are as they were.
pub suspended_status-conditions :
    (app : GitApplication) (now : ℕ) (t : Text)
    → let reason = codes "Suspended" in
      let message = codes "reconciliation is suspended" in
      find_condition t (suspended_status app now).conditions ≡ (
        if t == ready
        then some (condition_at ready condition_false reason message app now)
        else if t == reconciling
        then some (condition_at reconciling condition_false reason message app now)
        else find_condition t app.status.conditions)
unfolding suspended_status
suspended_status-conditions app now t = simp find_condition-set_condition
