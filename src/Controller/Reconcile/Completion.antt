-- ===== src/Controller/Reconcile/Completion.antt =====
-- When the stages of a reconciliation from the rendered objects on succeed.
pub mod Whole
use cabure.Base.{
  ◌≡◌, ◌≢◌, ◌↔◌, ap, ◌∙◌, Bool, true, false, some, List, ok, Error, map, Result-cases, inl, inr,
  arith, ok_injective,
}
use cabure.Text.{Text, codes}
use cabure.Api.{Object, ResourceReference}
use cabure.Api.Types.{GitApplication, OperatorConfig}
use cabure.Apply.{normalize_and_validate}
use cabure.Outside.{Outside}
use cabure.Effects.{attempt, return, throw, lift, ◌>>=◌}
use cabure.Effects.Calls.{attempt-returns, attempt-returned, >>=-returned}
use cabure.Controller.Conditions.{success_status, failure_status}
use cabure.Controller.Requests.{apply_objects}
use cabure.Controller.Reconcile.{
  Requeue, patch_status_of, fail, update_success, render, policy_of, requeue_after, settle, deliver,
}
use cabure.Controller.Reconcile.Authority.{attempted, prune_if_asked, manager}

module _ (c : Outside) (cfg : OperatorConfig) (app : GitApplication) where
  -- The last stages succeed: pruning, and the report of the success.
  pub record IsSettled (sha : Text) (desired : List ResourceReference) (s : c.State) (r : Requeue)
      : Type 0 where
    pub pruned : (prune_if_asked c cfg app sha desired s).result ≡ ok tt
    pub updated : GitApplication
    pub reported :
        let s' = (prune_if_asked c cfg app sha desired s).state in
        let status = success_status c.machinery (attempted c cfg app sha) (c.now s') sha desired in
        (patch_status_of c cfg (attempted c cfg app sha) status s').result ≡ ok updated
    pub again : requeue_after c cfg updated ≡ r

  pub fail_fails :
      (A : Type 0) (a : GitApplication) (stage : Text) (e : Error) (stalled : Bool) (s : c.State)
      {r : A}
      → (fail c cfg {A = A} a stage e stalled s).result ≢ ok r
  unfolding fail
  fail_fails A a stage e stalled s h =
      elim (Result-cases
        (patch_status_of c cfg a (failure_status a (c.now s) stage e stalled) s).result) [
          | inl (b, k) ↦ ground arith
          | inr (b, k) ↦ ground arith
        ]

  update_success-returned :
      (a : GitApplication) (sha : Text) (desired : List ResourceReference) (s : c.State)
      {updated : GitApplication}
      → (update_success c cfg a sha desired s).result ≡ ok updated
      → (patch_status_of c cfg a (success_status c.machinery a (c.now s) sha desired) s).result
        ≡ ok updated
  unfolding update_success
  update_success-returned a sha desired s h =
      let status = success_status c.machinery a (c.now s) sha desired in
      let (b, k, e) =
        attempt-returned (patch_status_of c cfg a status)
          (λ e. fail c cfg (record a { status = status }) (codes "status update") e false) return s
          (λ e s'.
            fail_fails GitApplication (record a { status = status }) (codes "status update") e false
              s')
          h in
      k ∙ e

  update_success-returns :
      (a : GitApplication) (sha : Text) (desired : List ResourceReference) (s : c.State)
      {updated : GitApplication}
      → (patch_status_of c cfg a (success_status c.machinery a (c.now s) sha desired) s).result
        ≡ ok updated
      → (update_success c cfg a sha desired s).result ≡ ok updated
  unfolding update_success
  update_success-returns a sha desired s h =
      let status = success_status c.machinery a (c.now s) sha desired in
      attempt-returns (patch_status_of c cfg a status)
        (λ e. fail c cfg (record a { status = status }) (codes "status update") e false) return s h

  settle-returns :
      (sha : Text) (desired : List ResourceReference) (s : c.State) (r : Requeue)
      → (settle c cfg (attempted c cfg app sha) sha desired s).result ≡ ok r
        ↔ IsSettled sha desired s r
  unfolding settle
  settle-returns sha desired s r =
      let a = attempted c cfg app sha in
      let report = update_success c cfg a sha desired in
      let last = λ (updated : GitApplication). return (requeue_after c cfg updated) in
      let handler = λ (e : Error). fail c cfg a (codes "prune") e false in
      let s' = (prune_if_asked c cfg app sha desired s).state in
      (
        λ h.
            let (_, p, k) =
              attempt-returned (prune_if_asked c cfg app sha desired) handler
                (λ _. (report >>= last)) s
                (λ e s''. fail_fails Requeue a (codes "prune") e false s'') h in
            let (updated, u, e) = >>=-returned report last s' k in
            record {
              pruned = p;
              updated = updated;
              reported = update_success-returned a sha desired s' u;
              again = ok_injective e;
            },
        λ p.
            attempt-returns (prune_if_asked c cfg app sha desired) handler (λ _. (report >>= last))
              s p.pruned
            ∙ attempt-returns report throw last s'
                (update_success-returns a sha desired s' p.reported)
            ∙ ap ok p.again,
      )

  -- The stages from the rendered objects on.
  pub record IsDelivered (sha : Text) (rendered : List Object) (s : c.State) (r : Requeue)
      : Type 0 where
    pub objects : List Object
    pub desired : List ResourceReference
    pub admitted :
        normalize_and_validate c.machinery (map some rendered) (policy_of c cfg app sha)
        ≡ ok (objects, desired)
    pub done :
        (apply_objects c objects (manager c cfg app) app.spec.takeover_existing_resources s).result
        ≡ ok tt
    pub settled :
        IsSettled sha desired
          (apply_objects c objects (manager c cfg app) app.spec.takeover_existing_resources s).state
          r

  pub deliver-returns :
      (sha : Text) (rendered : List Object) (s : c.State) (r : Requeue)
      → (deliver c cfg (attempted c cfg app sha) sha rendered s).result ≡ ok r
        ↔ IsDelivered sha rendered s r
  unfolding deliver
  deliver-returns sha rendered s r =
      let a = attempted c cfg app sha in
      let check =
        lift (normalize_and_validate c.machinery (map some rendered) (policy_of c cfg app sha)) in
      let apply = λ (objects : List Object).
        apply_objects c objects (manager c cfg app) app.spec.takeover_existing_resources in
      let refuse = λ (e : Error). fail c cfg {A = Requeue} a (codes "policy validation") e true in
      let give_up = λ (e : Error). fail c cfg {A = Requeue} a (codes "apply") e false in
      let rest = λ (p : List Object × List ResourceReference).
        attempt (apply p.0) give_up (λ _. settle c cfg a sha p.1) in
      (
        λ h.
            let (p, n, k) =
              attempt-returned check refuse rest s
                (λ e s'. fail_fails Requeue a (codes "policy validation") e true s') h in
            let (_, d, e) =
              attempt-returned (apply p.0) give_up (λ _. settle c cfg a sha p.1) s
                (λ e s'. fail_fails Requeue a (codes "apply") e false s') k in
            record {
              objects = p.0;
              desired = p.1;
              admitted = n;
              done = d;
              settled = (settle-returns sha p.1 (apply p.0 s).state r).0 e;
            },
        λ p.
            attempt-returns check refuse rest s p.admitted
            ∙ attempt-returns (apply p.objects) give_up (λ _. settle c cfg a sha p.desired) s p.done
            ∙ (settle-returns sha p.desired (apply p.objects s).state r).1 p.settled,
      )
