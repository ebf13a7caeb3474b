-- ===== src/Controller/Reconcile.antt =====
-- `Reconcile`, `render`, `updateSuccess`, `fail` and `updateSuspended`
-- (internal/controller/gitapplication_controller.go).
pub mod Reported
pub mod Reports
pub mod Authority
pub mod Outcomes
pub mod Completion
pub mod Confinement
use cabure.Base.{
  ℕ, Bool, true, false, not, ◌&&◌, ◌||◌, Option, none, some, List, [], ◌∷◌, ◌++◌, ◌==◌, list_eq,
  nat_eq, if◌then◌else◌, Result, ok, err, Error, errorf, wrap, map,
}
use cabure.Base.Int.{ℤ, pos, ltb_ℤ, leb_ℤ}
use cabure.Text.{Text, codes}
use cabure.Text.Format.{quoted}
use cabure.Api.{Object, ResourceReference}
use cabure.Api.Types.{GitApplication, GitApplicationStatus, OperatorConfig, Credentials}
use cabure.Apply.{Policy, normalize_and_validate}
use cabure.Outside.{Outside}
use cabure.Render.{render_yaml, render_helm}
use cabure.Effects.{
  M, Call, got_application, patched_status, checked_out, return, throw, lift, perform, attempt,
  ◌>>=◌, ◌>>◌,
}
use cabure.Controller.Validation.{validate_spec, minimum_requeue_interval, field_manager_or_default}
use cabure.Controller.Conditions.{success_status, failure_status, suspended_status}
use cabure.Controller.Credentials.{Loaded, found, refused, load_credentials, is_not_found}
use cabure.Controller.Prune.{prune}
use cabure.Controller.Requests.{apply_objects}

-- `ctrl.Result`: the time after which to come again, 0 for none.
abbrev pub Requeue : Type 0
Requeue = ℤ

abbrev pub no_requeue : Requeue
no_requeue = pos 0

-- `concurrentReconciles`
unfoldable pub concurrent_reconciles : OperatorConfig → ℤ
concurrent_reconciles cfg =
    if leb_ℤ cfg.concurrent_reconciles (pos 0) then pos 1 else cfg.concurrent_reconciles

module _ (c : Outside) (cfg : OperatorConfig) where
  abbrev pub Run : Type 0 → Type 0
  Run = M c.State

  -- `r.Status().Patch(ctx, app, client.MergeFrom(base))`, where the application differs from its
  -- copy in the status alone.
  unfoldable pub patch_status_of : GitApplication → GitApplicationStatus → Run GitApplication
  patch_status_of base status =
      perform (patched_status base.status status)
        (c.patch_status base (record base { status = status }))

  -- `fail`
  unfoldable pub fail : {A : Type 0} → GitApplication → Text → Error → Bool → Run A
  unfolding patch_status_of failure_status
  fail app stage e stalled s =
      attempt (patch_status_of app (failure_status app (c.now s) stage e stalled))
        (λ update_error. throw (wrap (stage ++ codes ": ") update_error)) (λ _. throw e) s

  -- `updateSuccess`, and `Reconcile` if it fails: the application has the new status by then,
  -- whether or not the server took it.
  unfoldable pub update_success :
      GitApplication → Text → List ResourceReference → Run GitApplication
  unfolding patch_status_of success_status fail
  update_success app sha desired s =
      let status = success_status c.machinery app (c.now s) sha desired in
      attempt (patch_status_of app status)
        (λ e. fail (record app { status = status }) (codes "status update") e false) return s

  -- `updateSuspended`
  unfoldable pub update_suspended : GitApplication → Run Requeue
  unfolding patch_status_of suspended_status
  update_suspended app s =
      (patch_status_of app (suspended_status app (c.now s)) >>= λ _.
      return (minimum_requeue_interval cfg))
        s

  -- `render`
  unfoldable pub render : GitApplication → Text → Run (List Object)
  unfolding render_yaml render_helm
  render app checkout_dir =
      if app.spec.render.type == codes "yaml"
      then render_yaml c checkout_dir app.spec
      else if app.spec.render.type == codes "helm"
      then render_helm c checkout_dir app.spec
      else throw (errorf (codes "unsupported render type " ++ quoted app.spec.render.type))

  -- The policy that `Reconcile` passes to `NormalizeAndValidate`.
  abbrev pub policy_of : GitApplication → Text → Policy
  policy_of app sha = record {
    destination_namespace = app.spec.destination.namespace;
    application_uid = app.uid;
    source_revision = sha;
    allow_cluster_scoped = cfg.allow_cluster_scoped_resources;
    allowed_cluster_scoped_kinds = app.spec.allowed_cluster_scoped_kinds;
    force_apply = app.spec.takeover_existing_resources;
    field_manager = field_manager_or_default cfg.field_manager;
  }

  -- The interval after a success, from the application that the status update returned.
  abbrev pub requeue_after : GitApplication → Requeue
  requeue_after app =
      if ltb_ℤ app.spec.interval cfg.minimum_requeue_interval
      then cfg.minimum_requeue_interval
      else app.spec.interval

  -- `Reconcile` once objects are applied: prune, and record the success.
  unfoldable pub settle : GitApplication → Text → List ResourceReference → Run Requeue
  unfolding prune update_success fail
  settle app sha desired =
      attempt (if app.spec.prune then prune c app desired else return tt)
        (λ e. fail app (codes "prune") e false)
        (λ _. update_success app sha desired >>= λ updated. return (requeue_after updated))

  -- `Reconcile` once objects are rendered: check them, and apply them.
  unfoldable pub deliver : GitApplication → Text → List Object → Run Requeue
  unfolding settle apply_objects fail
  deliver app sha rendered =
      attempt (lift (normalize_and_validate c.machinery (map some rendered) (policy_of app sha)))
        (λ e. fail app (codes "policy validation") e true)
        (λ (normalized, desired).
          attempt
            (apply_objects c normalized (field_manager_or_default cfg.field_manager)
              app.spec.takeover_existing_resources)
            (λ e. fail app (codes "apply") e false) (λ _. settle app sha desired))

  -- `Reconcile` with credentials: check out, and render. From the checkout on the application
  -- carries the attempted revision.
  unfoldable pub fetch : GitApplication → Option Credentials → Run Requeue
  unfolding deliver render fail
  fetch app creds =
      attempt
        (perform (checked_out app.spec.source.repository app.spec.source.revision creds)
          (c.checkout app.spec.source.repository app.spec.source.revision creds))
        (λ e. fail app (codes "checkout") e false)
        (λ (dir, sha).
          let attempted = record app { status = record app.status { attempted_revision = sha } } in
          attempt (render attempted dir) (λ e. fail attempted (codes "render") e false)
            (λ rendered. deliver attempted sha rendered))

  -- `Reconcile` of an application that is there, not deleted and not suspended.
  unfoldable pub synchronize : GitApplication → Run Requeue
  unfolding fetch load_credentials fail
  synchronize app =
      attempt (lift (validate_spec c.machinery cfg app))
        (λ e. fail app (codes "policy validation") e true)
        (λ _. load_credentials c app >>= λ loaded. elim loaded [
          | refused e stalled ↦ fail app (codes "source fetch") e stalled
          | found creds ↦ fetch app creds
        ])

  -- `Reconcile` with the application.
  unfoldable pub reconcile_found : GitApplication → Run Requeue
  unfolding synchronize update_suspended
  reconcile_found app = elim app.deletion_timestamp [
    | some _ ↦ return no_requeue
    | none ↦ if app.spec.suspend then update_suspended app else synchronize app
  ]

  -- `Reconcile`
  unfoldable pub reconcile : Text → Text → Run Requeue
  unfolding reconcile_found
  reconcile namespace name =
      attempt (perform (got_application namespace name) (c.get_application namespace name))
        (λ e. if is_not_found e.cause then return no_requeue else throw e) reconcile_found
