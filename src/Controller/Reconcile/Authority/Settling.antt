-- ===== src/Controller/Reconcile/Authority/Settling.antt =====
-- Applying, pruning and reporting make authorized calls only.
use cabure.Base.{
  ◌≡◌, refl, Bool, false, some, List, [], ◌++◌, ◌==◌, list_eq, nat_eq, ok, Error, wrap, All,
  All-map, All-append_left, subst, Bool-cases, inl, inr, if◌then◌else◌, map,
}
use cabure.Text.{Text, codes}
use cabure.Api.{Object, ResourceReference, reference_eq}
use cabure.Api.Types.{GitApplication, OperatorConfig}
use cabure.Inventory.{diff}
use cabure.Apply.{default_field_manager, normalize_and_validate}
use cabure.Apply.Admission.{IsAdmitted}
use cabure.Outside.{Outside}
use cabure.Effects.{Call, return, throw, ◌>>=◌}
use cabure.Effects.Calls.{Makes, if-Makes_from, Makes-attempt, Makes-attempt_from}
use cabure.Controller.Validation.{validate_spec, field_manager_or_default}
use cabure.Controller.Conditions.{success_status, failure_status}
use cabure.Controller.Prune.{prune, is_marked_by}
use cabure.Controller.Prune.Safety.{IsPruning, looks_up, removes, prune-IsPruning}
use cabure.Controller.Requests.{apply_objects}
use cabure.Controller.Requests.InOrder.{Requests, done, next, Progress, apply_objects-in_order}
use cabure.Controller.Reconcile.{
  patch_status_of, fail, update_success, policy_of, settle, Requeue, requeue_after,
}
use cabure.Controller.Reconcile.Authority.{
  IsAuthorized, reports_failure, records_success, applies, prunes, manager, attempted,
  prune_if_asked,
}

module _ (c : Outside) (cfg : OperatorConfig) (app : GitApplication) where
  pub fail-IsAuthorized :
      (A : Type 0) (a : GitApplication) (stage : Text) (e : Error) (stalled : Bool)
      → Makes (IsAuthorized c cfg app) (fail c cfg {A = A} a stage e stalled)
  unfolding fail patch_status_of failure_status
  fail-IsAuthorized A a stage e stalled s =
      let status = failure_status a (c.now s) stage e stalled in
      Makes-attempt (IsAuthorized c cfg app) (patch_status_of c cfg a status)
        (λ update_error. throw (wrap (stage ++ codes ": ") update_error)) (λ _. throw {A = A} e)
        (λ s'. (reports_failure a.status status refl refl refl, tt)) (λ e' s'. tt) (λ _ s'. tt) s

  update_success-IsAuthorized :
      (sha : Text) (rendered objects : List Object) (desired : List ResourceReference)
      (s₀ s₁ : c.State)
      → validate_spec c.machinery cfg app ≡ ok tt
      → normalize_and_validate c.machinery (map some rendered) (policy_of c cfg app sha)
        ≡ ok (objects, desired)
      → (apply_objects c objects (manager c cfg app) app.spec.takeover_existing_resources s₀).result
        ≡ ok tt
      → (prune_if_asked c cfg app sha desired s₁).result ≡ ok tt
      → Makes (IsAuthorized c cfg app) (update_success c cfg (attempted c cfg app sha) sha desired)
  unfolding update_success patch_status_of
  update_success-IsAuthorized sha rendered objects desired s₀ s₁ v n ap pr s =
      let a = attempted c cfg app sha in
      let status = success_status c.machinery a (c.now s) sha desired in
      Makes-attempt (IsAuthorized c cfg app) (patch_status_of c cfg a status)
        (λ e. fail c cfg (record a { status = status }) (codes "status update") e false) return
        (λ s'.
          (records_success (c.now s) sha rendered objects desired s₀ s₁ a.status v n ap pr, tt))
        (λ e.
          fail-IsAuthorized GitApplication (record a { status = status }) (codes "status update") e
            false)
        (λ _ s'. tt) s

  -- The marks depend on nothing that changes.
  IsPruning-attempted :
      (sha : Text) (stale : List ResourceReference) (call : Call)
      → IsPruning c (attempted c cfg app sha) stale call
      → IsPruning c app stale call
  unfolding is_marked_by
  IsPruning-attempted sha stale _ (looks_up r mapping h e) = looks_up r mapping h e
  IsPruning-attempted sha stale _ (removes r obj mapping s h f k e) =
      removes r obj mapping s h f k e

  pub settle-IsAuthorized :
      (sha : Text) (rendered objects : List Object) (desired : List ResourceReference)
      (s₀ : c.State)
      → validate_spec c.machinery cfg app ≡ ok tt
      → normalize_and_validate c.machinery (map some rendered) (policy_of c cfg app sha)
        ≡ ok (objects, desired)
      → (apply_objects c objects (manager c cfg app) app.spec.takeover_existing_resources s₀).result
        ≡ ok tt
      → Makes (IsAuthorized c cfg app) (settle c cfg (attempted c cfg app sha) sha desired)
  unfolding settle
  settle-IsAuthorized sha rendered objects desired s₀ v n a =
      let a' = attempted c cfg app sha in
      Makes-attempt_from (IsAuthorized c cfg app) (prune_if_asked c cfg app sha desired)
        (λ e. fail c cfg a' (codes "prune") e false)
        (λ _.
          (update_success c cfg a' sha desired >>= λ updated. return (requeue_after c cfg updated)))
        (if-Makes_from (IsAuthorized c cfg app) app.spec.prune (prune c a' desired) (return tt)
          (λ t s.
            All-map _ _ (prune c a' desired s).calls
              (λ call p.
                prunes sha rendered objects desired s₀ call v t n a
                  (IsPruning-attempted sha (diff c.machinery app.status.inventory desired) call p))
              (prune-IsPruning c a' desired s))
          (λ _ s. tt))
        (λ e. fail-IsAuthorized Requeue a' (codes "prune") e false)
        (λ _ s pruned.
          Makes-attempt (IsAuthorized c cfg app) (update_success c cfg a' sha desired) throw
            (λ updated. return (requeue_after c cfg updated))
            (update_success-IsAuthorized sha rendered objects desired s₀ s v n a pruned)
            (λ e s'. tt) (λ updated s'. tt) (prune_if_asked c cfg app sha desired s).state)

  -- Requests for admitted objects.
  Requests-IsAuthorized :
      (sha : Text) (objects : List Object) (calls : List Call)
      → validate_spec c.machinery cfg app ≡ ok tt
      → All (IsAdmitted c.machinery (policy_of c cfg app sha)) objects
      → Requests c (manager c cfg app) app.spec.takeover_existing_resources objects calls
      → All (IsAuthorized c cfg app) calls
  Requests-IsAuthorized sha _ _ h a done = tt
  Requests-IsAuthorized sha _ _ h a (next r rest) =
      (applies sha _ _ h a.0 r, Requests-IsAuthorized sha _ _ h a.1 rest)

  manager_given :
      (if (manager c cfg app) == [] then default_field_manager else (manager c cfg app))
      ≡ (manager c cfg app)
  unfolding field_manager_or_default list_eq nat_eq
  manager_given = elim (Bool-cases (cfg.field_manager == [])) [
    | inl t ↦ rw t refl
    | inr f ↦ rw (f, f) refl
  ]

  pub apply_objects-IsAuthorized :
      (sha : Text) (objects : List Object)
      → validate_spec c.machinery cfg app ≡ ok tt
      → All (IsAdmitted c.machinery (policy_of c cfg app sha)) objects
      → Makes
          (IsAuthorized c cfg app)
          (apply_objects c objects (manager c cfg app) app.spec.takeover_existing_resources)
  apply_objects-IsAuthorized sha objects v a s =
      let force = app.spec.takeover_existing_resources in
      let p =
        subst
          (λ m. Progress c m force objects (apply_objects c objects (manager c cfg app) force s))
          manager_given (apply_objects-in_order c objects (manager c cfg app) force s) in
      Requests-IsAuthorized sha p.requested
        (apply_objects c objects (manager c cfg app) force s).calls v
        (All-append_left (IsAdmitted c.machinery (policy_of c cfg app sha)) p.requested p.left
          (subst (All (IsAdmitted c.machinery (policy_of c cfg app sha))) p.split a))
        p.requests
