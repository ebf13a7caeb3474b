-- ===== src/Api/Types.antt =====
-- `GitApplication` and its parts (api/v1alpha1/gitapplication_types.go), and the operator's options
-- (internal/controller/options.go), as values: Api/Memory shows that a deep copy is as good as one.
-- Times are numbers, durations are nanoseconds, and a secret reference is the name in it.
use cabure.Base.{ℕ, Bool, Option, List}
use cabure.Base.Int.{ℤ}
use cabure.Base.Dict.{Dict}
use cabure.Text.{Text}
use cabure.Api.{ResourceReference}

pub record GitSourceSpec : Type 0 where
  pub repository : Text
  pub revision : Text
  pub path : Text
  pub secret_ref : Option Text

pub record DestinationSpec : Type 0 where
  pub namespace : Text

pub record HelmRenderSpec : Type 0 where
  pub release_name : Text
  pub values_files : List Text
  pub include_crds : Bool

pub record RenderSpec : Type 0 where
  pub type : Text
  pub helm : Option HelmRenderSpec

pub record GitApplicationSpec : Type 0 where
  pub source : GitSourceSpec
  pub destination : DestinationSpec
  pub render : RenderSpec
  pub allowed_cluster_scoped_kinds : List Text
  pub takeover_existing_resources : Bool
  pub interval : ℤ
  pub prune : Bool
  pub suspend : Bool

-- `metav1.ConditionStatus`
pub data ConditionStatus : Type 0 where
  condition_true condition_false condition_unknown : ConditionStatus

-- `metav1.Condition`
pub record Condition : Type 0 where
  pub type : Text
  pub status : ConditionStatus
  pub reason : Text
  pub message : Text
  pub observed_generation : ℕ
  pub last_transition_time : ℕ

pub record GitApplicationStatus : Type 0 where
  pub observed_generation : ℕ
  pub attempted_revision : Text
  pub applied_revision : Text
  pub last_attempt_time : Option ℕ
  pub last_success_time : Option ℕ
  pub inventory : List ResourceReference
  pub conditions : List Condition

-- What the program reads of the metadata stands beside spec and status.
pub record GitApplication : Type 0 where
  pub name : Text
  pub namespace : Text
  pub uid : Text
  pub generation : ℕ
  pub deletion_timestamp : Option ℕ
  pub spec : GitApplicationSpec
  pub status : GitApplicationStatus

-- `corev1.Secret`
pub record Secret : Type 0 where
  pub namespace : Text
  pub name : Text
  pub type : Text
  pub contents : Dict Text Text

-- `git.Credentials` (internal/git/repository.go)
pub record Credentials : Type 0 where
  pub username : Text
  pub password : Text
  pub token : Text
  pub ssh_private_key : Text
  pub known_hosts : Text

-- `OperatorConfig`
pub record OperatorConfig : Type 0 where
  pub watch_namespace : Text
  pub concurrent_reconciles : ℤ
  pub minimum_requeue_interval : ℤ
  pub allow_cluster_scoped_resources : Bool
  pub allowed_repository_prefixes : List Text
  pub field_manager : Text
  pub cache_dir : Text
