-- ===== src/Controller/Reconcile/Authority/Stages.antt =====
-- Each stage of `Reconcile` makes authorized calls only.
use cabure.Base.{
  ◌≡◌, true, false, not, Option, none, some, List, [], ◌==◌, list_eq, nat_eq, ok, Error, wrap,
  errorf, All-map, if◌then◌else◌, map,
}
use cabure.Text.{Text, codes}
use cabure.Api.{Object, ResourceReference, reference_eq}
use cabure.Api.Types.{GitApplication, OperatorConfig, Credentials}
use cabure.Apply.{normalize_and_validate}
use cabure.Apply.Admission.{normalize_and_validate-IsAdmitted}
use cabure.Outside.{Outside}
use cabure.Render.{render_yaml, render_helm}
use cabure.Render.Containment.{IsRead, render_yaml-IsRead, render_helm-IsRead}
use cabure.Effects.{got_secret, checked_out, M, attempt, perform, return, throw, lift, ◌>>=◌}
use cabure.Effects.Calls.{Makes, if-Makes, Makes-attempt, Makes-attempt_from, Option-Makes}
use cabure.Controller.Validation.{validate_spec}
use cabure.Controller.Requests.{apply_objects}
use cabure.Controller.Credentials.{
  Loaded, found, refused, load_credentials, load_named, credentials_of, is_not_found,
}
use cabure.Controller.Reconcile.{
  fail, render, policy_of, settle, deliver, fetch, synchronize, Requeue,
}
use cabure.Controller.Reconcile.Authority.{
  IsAuthorized, reads_secret, checks_out, renders, manager, attempted,
}
use cabure.Controller.Reconcile.Authority.Settling.{
  fail-IsAuthorized, settle-IsAuthorized, apply_objects-IsAuthorized,
}

module _ (c : Outside) (cfg : OperatorConfig) (app : GitApplication) where
  deliver-IsAuthorized :
      (sha : Text) (rendered : List Object)
      → validate_spec c.machinery cfg app ≡ ok tt
      → Makes (IsAuthorized c cfg app) (deliver c cfg (attempted c cfg app sha) sha rendered)
  unfolding deliver
  deliver-IsAuthorized sha rendered v =
      let a' = attempted c cfg app sha in
      let force = app.spec.takeover_existing_resources in
      let checked =
        lift (normalize_and_validate c.machinery (map some rendered) (policy_of c cfg app sha)) in
      let rest = λ (p : List Object × List ResourceReference).
        attempt (apply_objects c p.0 (manager c cfg app) force)
          (λ e. fail c cfg a' (codes "apply") e false) (λ _. settle c cfg a' sha p.1) in
      Makes-attempt_from (IsAuthorized c cfg app) checked
        (λ e. fail c cfg a' (codes "policy validation") e true) rest (λ s. tt)
        (λ e. fail-IsAuthorized c cfg app Requeue a' (codes "policy validation") e true)
        (λ (objects, desired) s n.
          Makes-attempt_from (IsAuthorized c cfg app)
            (apply_objects c objects (manager c cfg app) force)
            (λ e. fail c cfg a' (codes "apply") e false) (λ _. settle c cfg a' sha desired)
            (apply_objects-IsAuthorized c cfg app sha objects v (
              normalize_and_validate-IsAdmitted c.machinery (map some rendered)
                (policy_of c cfg app sha) n))
            (λ e. fail-IsAuthorized c cfg app Requeue a' (codes "apply") e false)
            (λ _ s' applied.
              settle-IsAuthorized c cfg app sha rendered objects desired s' v n applied
                (apply_objects c objects (manager c cfg app) force s').state)
            s)

  render-IsAuthorized :
      (dir sha : Text) (creds : Option Credentials) (s₀ : c.State)
      → (c.checkout app.spec.source.repository app.spec.source.revision creds s₀).0 ≡ ok (dir, sha)
      → Makes (IsAuthorized c cfg app) (render c cfg (attempted c cfg app sha) dir)
  unfolding render
  render-IsAuthorized dir sha creds s₀ h =
      let made =
        λ (m : M c.State (List Object)) (r : Makes (IsRead c dir app.spec) m) (s : c.State).
          All-map (IsRead c dir app.spec) (IsAuthorized c cfg app) (m s).calls
            (λ call p. renders dir sha creds s₀ call h p) (r s) in
      if-Makes (IsAuthorized c cfg app) (app.spec.render.type == codes "yaml") _ _
        (made (render_yaml c dir app.spec) (render_yaml-IsRead c dir app.spec))
        (if-Makes (IsAuthorized c cfg app) (app.spec.render.type == codes "helm") _ _
          (made (render_helm c dir app.spec) (render_helm-IsRead c dir app.spec)) (λ s. tt))

  fetch-IsAuthorized :
      (creds : Option Credentials)
      → validate_spec c.machinery cfg app ≡ ok tt
      → Makes (IsAuthorized c cfg app) (fetch c cfg app creds)
  unfolding fetch
  fetch-IsAuthorized creds v =
      let source = app.spec.source in
      let check_out =
        perform (checked_out source.repository source.revision creds)
          (c.checkout source.repository source.revision creds) in
      let rest = λ (p : Text × Text).
        attempt (render c cfg (attempted c cfg app p.1) p.0)
          (λ e. fail c cfg (attempted c cfg app p.1) (codes "render") e false)
          (λ rendered. deliver c cfg (attempted c cfg app p.1) p.1 rendered) in
      Makes-attempt_from (IsAuthorized c cfg app) check_out
        (λ e. fail c cfg app (codes "checkout") e false) rest (λ s. (checks_out creds v, tt))
        (λ e. fail-IsAuthorized c cfg app Requeue app (codes "checkout") e false)
        (λ (dir, sha) s h.
          Makes-attempt (IsAuthorized c cfg app) (render c cfg (attempted c cfg app sha) dir)
            (λ e. fail c cfg (attempted c cfg app sha) (codes "render") e false)
            (λ rendered. deliver c cfg (attempted c cfg app sha) sha rendered)
            (render-IsAuthorized dir sha creds s h)
            (λ e.
              fail-IsAuthorized c cfg app Requeue (attempted c cfg app sha) (codes "render") e
                false)
            (λ rendered. deliver-IsAuthorized sha rendered v) (check_out s).state)

  load_credentials-IsAuthorized :
      validate_spec c.machinery cfg app ≡ ok tt
      → Makes (IsAuthorized c cfg app) (load_credentials c app)
  unfolding load_credentials load_named
  load_credentials-IsAuthorized v =
      let none_found = return {A = Loaded} (found none) in
      let failed = λ (e : Error).
        return (refused (wrap (codes "read credentials secret: ") e) (is_not_found e.cause)) in
      let get = λ (name : Text).
        perform (got_secret app.namespace name) (c.get_secret app.namespace name) in
      Option-Makes (IsAuthorized c cfg app) app.spec.source.secret_ref none_found
        (λ name. if name == [] then none_found else load_named c app name) (λ s. tt)
        (λ name h.
          if-Makes (IsAuthorized c cfg app) (name == []) none_found (load_named c app name)
            (λ s. tt)
            (if-Makes (IsAuthorized c cfg app) (not c.has_secret_client)
              (return (refused (errorf (codes "secret client is not configured")) true))
              (attempt (get name) failed (λ secret. return (credentials_of secret))) (λ s. tt)
              (Makes-attempt (IsAuthorized c cfg app) (get name) failed
                (λ secret. return (credentials_of secret)) (λ s. (reads_secret name v h, tt))
                (λ e s. tt) (λ secret s. tt))))

  loaded-IsAuthorized :
      validate_spec c.machinery cfg app ≡ ok tt
      → (loaded : Loaded)
      → Makes (IsAuthorized c cfg app) (elim loaded [
        | refused e stalled ↦ fail c cfg {A = Requeue} app (codes "source fetch") e stalled
        | found creds ↦ fetch c cfg app creds
      ])
  loaded-IsAuthorized v (refused e stalled) =
      fail-IsAuthorized c cfg app Requeue app (codes "source fetch") e stalled
  loaded-IsAuthorized v (found creds) = fetch-IsAuthorized creds v

-- After it has read the application, a reconciliation makes authorized calls only: it reports a
-- failure with the revisions and the inventory as they were; and if the spec is valid, it reads the
-- secret of the spec, checks out the repository of the spec, reads what the renderers may, applies
-- objects that were admitted, prunes if asked for once every object is applied, and records the
-- success and the inventory once every object is applied and, if asked for, pruned.
pub synchronize-IsAuthorized :
    (c : Outside) (cfg : OperatorConfig) (app : GitApplication)
    → Makes (IsAuthorized c cfg app) (synchronize c cfg app)
unfolding synchronize
synchronize-IsAuthorized c cfg app =
    let go : Loaded → M c.State Requeue = λ loaded. elim loaded [
      | refused e stalled ↦ fail c cfg app (codes "source fetch") e stalled
      | found creds ↦ fetch c cfg app creds
    ] in
    Makes-attempt_from (IsAuthorized c cfg app) (lift (validate_spec c.machinery cfg app))
      (λ e. fail c cfg app (codes "policy validation") e true)
      (λ _. (load_credentials c app >>= go)) (λ s. tt)
      (λ e. fail-IsAuthorized c cfg app Requeue app (codes "policy validation") e true)
      (λ u s v.
        Makes-attempt (IsAuthorized c cfg app) (load_credentials c app) throw go
          (load_credentials-IsAuthorized c cfg app v) (λ e s'. tt) (loaded-IsAuthorized c cfg app v)
          s)
