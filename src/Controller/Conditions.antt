-- ===== src/Controller/Conditions.antt =====
-- Status conditions: `setCondition`, `stageReason`, and how `updateSuccess`, `fail` and
-- `updateSuspended` change the status (internal/controller/gitapplication_controller.go).
pub mod Lookup
use cabure.Base.{
  ℕ, Bool, true, false, Option, none, some, List, [], ◌∷◌, ◌++◌, ◌==◌, list_eq, nat_eq,
  if◌then◌else◌, Error,
}
use cabure.Text.{Text, codes, trim_space, remove_byte, to_upper}
use cabure.Api.{Machinery, ResourceReference}
use cabure.Api.Types.{
  GitApplication, GitApplicationStatus, Condition, ConditionStatus, condition_true, condition_false,
}
use cabure.Inventory.{normalize}

-- `setCondition`
unfoldable pub set_condition : List Condition → Condition → List Condition
set_condition [] condition = condition ∷ []
set_condition (c ∷ conditions) condition =
    if c.type == condition.type
    then condition ∷ conditions
    else c ∷ set_condition conditions condition

-- `strings.ToUpper(stage[:1]) + stage[1:]`, or `"Unknown"`.
capitalized : Text → Text
capitalized [] = codes "Unknown"
capitalized (c ∷ stage) = to_upper (c ∷ []) ++ stage

-- `stageReason`
unfoldable pub stage_reason : Text → Text
unfolding capitalized
stage_reason stage = capitalized (remove_byte 32 (trim_space stage))

-- A condition as the program writes it.
abbrev pub condition_at : Text → ConditionStatus → Text → Text → GitApplication → ℕ → Condition
condition_at type status reason message app now = record {
  type = type;
  status = status;
  reason = reason;
  message = message;
  observed_generation = app.generation;
  last_transition_time = now;
}

-- The status that `updateSuccess` writes.
unfoldable pub success_status :
    Machinery → GitApplication → ℕ → Text → List ResourceReference → GitApplicationStatus
success_status m app now sha desired =
    let reconciled = codes "Reconciled" in
    let reconciling =
      condition_at (codes "Reconciling") condition_false reconciled
        (codes "reconciliation complete") app now in
    let ready =
      condition_at (codes "Ready") condition_true reconciled (codes "application is ready") app
        now in
    let stalled = condition_at (codes "Stalled") condition_false reconciled [] app now in
    record app.status {
      observed_generation = app.generation;
      attempted_revision = sha;
      applied_revision = sha;
      last_attempt_time = some now;
      last_success_time = some now;
      inventory = normalize m desired;
      conditions =
          set_condition (set_condition (set_condition app.status.conditions reconciling) ready)
            stalled;
    }

-- The status that `fail` writes.
unfoldable pub failure_status : GitApplication → ℕ → Text → Error → Bool → GitApplicationStatus
failure_status app now stage e is_stalled =
    let message = stage ++ (codes ": " ++ e.message) in
    let reason = stage_reason stage in
    let stalled =
      condition_at (codes "Stalled") (if is_stalled then condition_true else condition_false) reason
        (if is_stalled then message else []) app now in
    let reconciling = condition_at (codes "Reconciling") condition_false reason message app now in
    let ready = condition_at (codes "Ready") condition_false reason message app now in
    record app.status {
      observed_generation = app.generation;
      last_attempt_time = some now;
      conditions =
          set_condition (set_condition (set_condition app.status.conditions stalled) reconciling)
            ready;
    }

-- The status that `updateSuspended` writes.
unfoldable pub suspended_status : GitApplication → ℕ → GitApplicationStatus
suspended_status app now =
    let message = codes "reconciliation is suspended" in
    let reconciling =
      condition_at (codes "Reconciling") condition_false (codes "Suspended") message app now in
    let ready = condition_at (codes "Ready") condition_false (codes "Suspended") message app now in
    record app.status {
      conditions = set_condition (set_condition app.status.conditions reconciling) ready;
      last_attempt_time = some now;
    }
