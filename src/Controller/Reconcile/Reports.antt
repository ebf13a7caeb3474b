-- ===== src/Controller/Reconcile/Reports.antt =====
-- A reconciliation that fails has said so in the status.
use cabure.Base.{
  ◌≡◌, true, false, Option, none, List, [], ◌==◌, list_eq, nat_eq, not, errorf, map, some, err,
  Error, wrap, if◌then◌else◌,
}
use cabure.Text.{Text, codes}
use cabure.Api.{Object, ResourceReference}
use cabure.Api.Types.{GitApplication, OperatorConfig, Credentials, Secret}
use cabure.Apply.{normalize_and_validate}
use cabure.Outside.{Outside}
use cabure.Effects.{M, got_secret, checked_out, return, lift, perform, attempt, ◌>>=◌}
use cabure.Controller.Conditions.{success_status}
use cabure.Controller.Credentials.{
  Loaded, found, refused, credentials_of, is_not_found, load_named, load_credentials,
}
use cabure.Controller.Prune.{prune}
use cabure.Controller.Requests.{apply_objects}
use cabure.Controller.Validation.{validate_spec, field_manager_or_default}
use cabure.Controller.Reconcile.{
  Requeue, patch_status_of, fail, update_success, render, policy_of, requeue_after, settle, deliver,
  fetch, synchronize,
}
use cabure.Controller.Reconcile.Reported.{
  Reports, attempt-Reports, chain-Reports, return-Reports, fail-Reports, option-Reports, if-Reports,
  IsReported,
}

module _ (c : Outside) (cfg : OperatorConfig) where
  update_success-Reports :
      (app : GitApplication) (sha : Text) (desired : List ResourceReference)
      → Reports c cfg (update_success c cfg app sha desired)
  unfolding update_success
  update_success-Reports app sha desired s e h =
      let status = success_status c.machinery app (c.now s) sha desired in
      attempt-Reports c cfg (patch_status_of c cfg app status)
        (λ e'. fail c cfg (record app { status = status }) (codes "status update") e' false) return
        (λ e'.
          fail-Reports c cfg GitApplication (record app { status = status }) (codes "status update")
            e' false)
        (return-Reports c cfg) s e h

  settle-Reports :
      (app : GitApplication) (sha : Text) (desired : List ResourceReference)
      → Reports c cfg (settle c cfg app sha desired)
  unfolding settle
  settle-Reports app sha desired =
      let finish =
        λ (updated : GitApplication). return {S = c.State} (requeue_after c cfg updated) in
      attempt-Reports c cfg (if app.spec.prune then prune c app desired else return tt)
        (λ e. fail c cfg app (codes "prune") e false)
        (λ _. update_success c cfg app sha desired >>= finish)
        (λ e. fail-Reports c cfg Requeue app (codes "prune") e false)
        (λ _.
          chain-Reports c cfg (update_success c cfg app sha desired) finish
            (update_success-Reports app sha desired)
            (λ updated. return-Reports c cfg (requeue_after c cfg updated)))

  deliver-Reports :
      (app : GitApplication) (sha : Text) (rendered : List Object)
      → Reports c cfg (deliver c cfg app sha rendered)
  unfolding deliver
  deliver-Reports app sha rendered =
      let manager = field_manager_or_default cfg.field_manager in
      let apply = λ (objects : List Object).
        apply_objects c objects manager app.spec.takeover_existing_resources in
      attempt-Reports c cfg
        (lift (normalize_and_validate c.machinery (map some rendered) (policy_of c cfg app sha)))
        (λ e. fail c cfg app (codes "policy validation") e true)
        (λ (normalized, desired).
          attempt (apply normalized) (λ e. fail c cfg app (codes "apply") e false)
            (λ _. settle c cfg app sha desired))
        (λ e. fail-Reports c cfg Requeue app (codes "policy validation") e true)
        (λ (normalized, desired).
          attempt-Reports c cfg (apply normalized) (λ e. fail c cfg app (codes "apply") e false)
            (λ _. settle c cfg app sha desired)
            (λ e. fail-Reports c cfg Requeue app (codes "apply") e false)
            (λ _. settle-Reports app sha desired))

  fetch-Reports :
      (app : GitApplication) (creds : Option Credentials) → Reports c cfg (fetch c cfg app creds)
  unfolding fetch
  fetch-Reports app creds =
      let source = app.spec.source in
      let with_sha =
        λ (sha : Text). record app { status = record app.status { attempted_revision = sha } } in
      attempt-Reports c cfg
        (perform (checked_out source.repository source.revision creds)
          (c.checkout source.repository source.revision creds))
        (λ e. fail c cfg app (codes "checkout") e false)
        (λ (dir, sha).
          attempt (render c cfg (with_sha sha) dir)
            (λ e. fail c cfg (with_sha sha) (codes "render") e false)
            (λ rendered. deliver c cfg (with_sha sha) sha rendered))
        (λ e. fail-Reports c cfg Requeue app (codes "checkout") e false)
        (λ (dir, sha).
          attempt-Reports c cfg (render c cfg (with_sha sha) dir)
            (λ e. fail c cfg (with_sha sha) (codes "render") e false)
            (λ rendered. deliver c cfg (with_sha sha) sha rendered)
            (λ e. fail-Reports c cfg Requeue (with_sha sha) (codes "render") e false)
            (λ rendered. deliver-Reports (with_sha sha) sha rendered))

  load_named-Reports : (app : GitApplication) (name : Text) → Reports c cfg (load_named c app name)
  unfolding load_named
  load_named-Reports app name =
      let read = perform (got_secret app.namespace name) (c.get_secret app.namespace name) in
      let unread = λ (e : Error).
        return {S = c.State}
          (refused (wrap (codes "read credentials secret: ") e) (is_not_found e.cause)) in
      let use_it = λ (secret : Secret). return {S = c.State} (credentials_of secret) in
      let unset =
        return {S = c.State} (refused (errorf (codes "secret client is not configured")) true) in
      if-Reports c cfg (not c.has_secret_client) unset (attempt read unread use_it)
        (return-Reports c cfg (refused (errorf (codes "secret client is not configured")) true))
        (attempt-Reports c cfg read unread use_it (λ e. return-Reports c cfg _)
          (λ secret. return-Reports c cfg (credentials_of secret)))

  load_credentials-Reports : (app : GitApplication) → Reports c cfg (load_credentials c app)
  unfolding load_credentials
  load_credentials-Reports app =
      let nothing = return {S = c.State} (found none) in
      let named = λ (name : Text). if name == [] then nothing else load_named c app name in
      option-Reports c cfg app.spec.source.secret_ref nothing named
        (return-Reports c cfg (found none))
        (λ name.
          if-Reports c cfg (name == []) nothing (load_named c app name)
            (return-Reports c cfg (found none)) (load_named-Reports app name))

  loaded-Reports :
      (app : GitApplication) (loaded : Loaded)
      → Reports c cfg (elim loaded as (λ _. M c.State Requeue) [
        | refused e stalled ↦ fail c cfg app (codes "source fetch") e stalled
        | found creds ↦ fetch c cfg app creds
      ])
  loaded-Reports app (refused e stalled) =
      fail-Reports c cfg Requeue app (codes "source fetch") e stalled
  loaded-Reports app (found creds) = fetch-Reports app creds

  -- Whatever makes the reconciliation of an application fail, its last call has reported it: it patches the
  -- status with conditions for the stage and the error, which is the one that is returned; unless the
  -- server refuses the patch, which is then the error, with the stage before it.
  pub synchronize-IsReported :
      (app : GitApplication) (s : c.State) (e : Error)
      → (synchronize c cfg app s).result ≡ err e
      → IsReported c cfg e (synchronize c cfg app s).calls
  unfolding synchronize
  synchronize-IsReported app =
      let after_load : Loaded → M c.State Requeue = λ loaded. elim loaded [
        | refused e stalled ↦ fail c cfg app (codes "source fetch") e stalled
        | found creds ↦ fetch c cfg app creds
      ] in
      attempt-Reports c cfg (lift (validate_spec c.machinery cfg app))
        (λ e. fail c cfg app (codes "policy validation") e true)
        (λ _. load_credentials c app >>= after_load)
        (λ e. fail-Reports c cfg Requeue app (codes "policy validation") e true)
        (λ _.
          chain-Reports c cfg (load_credentials c app) after_load (load_credentials-Reports app)
            (loaded-Reports app))
