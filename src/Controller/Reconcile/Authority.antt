-- ===== src/Controller/Reconcile/Authority.antt =====
-- What a reconciliation may do, and that it does nothing else.
pub mod Settling
pub mod Stages
use cabure.Base.{ℕ, ◌≡◌, true, some, Option, List, ok, if◌then◌else◌, map}
use cabure.Text.{Text}
use cabure.Api.{Object, ResourceReference}
use cabure.Api.Types.{GitApplication, GitApplicationStatus, OperatorConfig, Credentials}
use cabure.Inventory.{diff}
use cabure.Apply.{normalize_and_validate}
use cabure.Apply.Admission.{IsAdmitted}
use cabure.Outside.{Outside}
use cabure.Render.Containment.{IsRead}
use cabure.Effects.{Call, patched_status, got_secret, checked_out, M, return}
use cabure.Controller.Validation.{validate_spec, field_manager_or_default}
use cabure.Controller.Conditions.{success_status}
use cabure.Controller.Prune.{prune}
use cabure.Controller.Prune.Safety.{IsPruning}
use cabure.Controller.Requests.{apply_objects}
use cabure.Controller.Requests.InOrder.{IsRequest}
use cabure.Controller.Reconcile.{policy_of}

module _ (c : Outside) (cfg : OperatorConfig) (app : GitApplication) where
  -- The manager of the fields that are applied.
  abbrev pub manager : Text
  manager = field_manager_or_default cfg.field_manager

  -- The application as the reconciliation has it after the checkout.
  abbrev pub attempted : Text → GitApplication
  attempted sha = record app { status = record app.status { attempted_revision = sha } }

  -- The pruning of a reconciliation.
  abbrev pub prune_if_asked : Text → List ResourceReference → M c.State (Unit {0})
  prune_if_asked sha desired = if app.spec.prune then prune c (attempted sha) desired else return tt

  -- A call that a reconciliation of the application may make: it reports a failure, with
  -- the revisions and the inventory as they were; and if the spec is valid, it reads the secret of the spec in the application's own namespace, checks out the
  -- repository at the revision of the spec, reads in the checkout what the renderers may read,
  -- applies objects that were admitted, and, if the spec says so and once every object is applied,
  -- prunes what the inventory has and the desired objects do not, and then records the success.
  pub data IsAuthorized : Call → Type 0 where
    reports_failure :
        (before after : GitApplicationStatus)
        → after.attempted_revision ≡ before.attempted_revision
        → after.applied_revision ≡ before.applied_revision
        → after.inventory ≡ before.inventory
        → IsAuthorized (patched_status before after)
    records_success :
        (now : ℕ) (sha : Text) (rendered objects : List Object) (desired : List ResourceReference)
        (s s' : c.State) (before : GitApplicationStatus)
        → validate_spec c.machinery cfg app ≡ ok tt
        → normalize_and_validate c.machinery (map some rendered) (policy_of c cfg app sha)
          ≡ ok (objects, desired)
        → (apply_objects c objects manager app.spec.takeover_existing_resources s).result ≡ ok tt
        → (prune_if_asked sha desired s').result ≡ ok tt
        → IsAuthorized
            (patched_status before (success_status c.machinery (attempted sha) now sha desired))
    reads_secret :
        (name : Text)
        → validate_spec c.machinery cfg app ≡ ok tt
        → app.spec.source.secret_ref ≡ some name
        → IsAuthorized (got_secret app.namespace name)
    checks_out :
        (creds : Option Credentials)
        → validate_spec c.machinery cfg app ≡ ok tt
        → IsAuthorized (checked_out app.spec.source.repository app.spec.source.revision creds)
    renders :
        (dir sha : Text) (creds : Option Credentials) (s : c.State) (call : Call)
        → (c.checkout app.spec.source.repository app.spec.source.revision creds s).0 ≡ ok (dir, sha)
        → IsRead c dir app.spec call
        → IsAuthorized call
    applies :
        (sha : Text) (obj : Object) (call : Call)
        → validate_spec c.machinery cfg app ≡ ok tt
        → IsAdmitted c.machinery (policy_of c cfg app sha) obj
        → IsRequest c manager app.spec.takeover_existing_resources obj call
        → IsAuthorized call
    prunes :
        (sha : Text) (rendered objects : List Object) (desired : List ResourceReference)
        (s : c.State) (call : Call)
        → validate_spec c.machinery cfg app ≡ ok tt
        → app.spec.prune ≡ true
        → normalize_and_validate c.machinery (map some rendered) (policy_of c cfg app sha)
          ≡ ok (objects, desired)
        → (apply_objects c objects manager app.spec.takeover_existing_resources s).result ≡ ok tt
        → IsPruning c app (diff c.machinery app.status.inventory desired) call
        → IsAuthorized call
