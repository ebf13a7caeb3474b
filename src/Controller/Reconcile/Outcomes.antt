-- ===== src/Controller/Reconcile/Outcomes.antt =====
-- What `Reconcile` does about an application that is gone, suspended, or to be synchronized.
use cabure.Base.{
  ℕ, ◌≡◌, refl, sym, ap, ◌∙◌, subst, Bool, true, false, Option, none, some, [], ◌∷◌, ◌⊎◌, inl, inr,
  ok, err, Error, Result-cases, Bool-cases, ◌==◌, list_eq, nat_eq, if◌then◌else◌, arith,
  ok_injective,
}
use cabure.Base.Int.{◌≤ℤ◌}
use cabure.Text.{Text, codes}
use cabure.Api.Types.{GitApplication, GitApplicationStatus, OperatorConfig, condition_false}
use cabure.Outside.{Outside}
use cabure.Effects.{got_application, patched_status, M, return}
use cabure.Effects.Calls.{>>=-returned}
use cabure.Controller.Conditions.{suspended_status, condition_at}
use cabure.Controller.Conditions.Lookup.{find_condition, suspended_status-conditions}
use cabure.Controller.Validation.{minimum_requeue_interval}
use cabure.Controller.Credentials.{is_not_found}
use cabure.Controller.Reconcile.{
  Requeue, no_requeue, patch_status_of, update_suspended, requeue_after, synchronize,
  reconcile_found, reconcile,
}
use cabure.Controller.Reconcile.Completion.Whole.{synchronize-returns}

module _ (c : Outside) (cfg : OperatorConfig) where
  unset {ℓ} :
      {A : Type ℓ} (o : Option ℕ) (m n : A) → o ≡ none → elim o [ some _ ↦ m | none ↦ n ] ≡ n
  unset none m n h = refl
  unset (some t) m n h = cc

  found_active :
      (app : GitApplication)
      → app.deletion_timestamp ≡ none
      → reconcile_found c cfg app
        ≡ (if app.spec.suspend then update_suspended c cfg app else synchronize c cfg app)
  unfolding reconcile_found
  found_active app d =
      unset app.deletion_timestamp (return no_requeue)
        (if app.spec.suspend then update_suspended c cfg app else synchronize c cfg app) d

  found_suspended :
      (app : GitApplication)
      → app.deletion_timestamp ≡ none
      → app.spec.suspend ≡ true
      → reconcile_found c cfg app ≡ update_suspended c cfg app
  found_suspended app d t =
      found_active app d
      ∙ ap (λ (b : Bool). if b then update_suspended c cfg app else synchronize c cfg app) t

  requeue_after-least :
      (app : GitApplication) → cfg.minimum_requeue_interval ≤ℤ requeue_after c cfg app
  requeue_after-least app = ground arith

  minimum-least : cfg.minimum_requeue_interval ≤ℤ minimum_requeue_interval cfg
  unfolding minimum_requeue_interval
  minimum-least = ground arith

  synchronize-requeue :
      (app : GitApplication) (s : c.State) {r : Requeue}
      → (synchronize c cfg app s).result ≡ ok r
      → cfg.minimum_requeue_interval ≤ℤ r
  synchronize-requeue app s {r} h =
      let p = (synchronize-returns c cfg app s r).0 h in
      let q = p.fetched.delivered.settled in
      subst (λ t. cfg.minimum_requeue_interval ≤ℤ t) q.again (requeue_after-least q.updated)

  update_suspended-requeue :
      (app : GitApplication) (s : c.State) {r : Requeue}
      → (update_suspended c cfg app s).result ≡ ok r
      → cfg.minimum_requeue_interval ≤ℤ r
  unfolding update_suspended
  update_suspended-requeue app s h =
      let (_, _, e) =
        >>=-returned (patch_status_of c cfg app (suspended_status app (c.now s)))
          (λ _. return (minimum_requeue_interval cfg)) s h in
      subst (λ t. cfg.minimum_requeue_interval ≤ℤ t) (ok_injective e) minimum-least

  chosen_requeue :
      (o : Option ℕ) (b : Bool) (m n : M c.State Requeue) (s : c.State) {r : Requeue}
      → ((m s).result ≡ ok r → cfg.minimum_requeue_interval ≤ℤ r)
      → ((n s).result ≡ ok r → cfg.minimum_requeue_interval ≤ℤ r)
      → (elim o as (λ _. M c.State Requeue) [
        | some _ ↦ return no_requeue
        | none ↦ if b then m else n
      ]
          s).result
        ≡ ok r
      → (r ≡ no_requeue) ⊎ (cfg.minimum_requeue_interval ≤ℤ r)
  chosen_requeue (some t) b m n s hm hn h = inl (sym (ok_injective h))
  chosen_requeue none true m n s hm hn h = inr (hm h)
  chosen_requeue none false m n s hm hn h = inr (hn h)

  found_requeue :
      (app : GitApplication) (s : c.State) {r : Requeue}
      → (reconcile_found c cfg app s).result ≡ ok r
      → (r ≡ no_requeue) ⊎ (cfg.minimum_requeue_interval ≤ℤ r)
  unfolding reconcile_found
  found_requeue app s {r} h =
      chosen_requeue app.deletion_timestamp app.spec.suspend (update_suspended c cfg app)
        (synchronize c cfg app) s (update_suspended-requeue app s) (synchronize-requeue app s) h

-- How a suspended application is reported.
pub record IsSuspended (app : GitApplication) (now : ℕ) (status : GitApplicationStatus)
    : Type 0 where
  pub conditions :
      (type : Text)
      → find_condition type status.conditions ≡ (
          if type == codes "Ready"
          then some (
              condition_at
                (codes "Ready")
                condition_false
                (codes "Suspended")
                (codes "reconciliation is suspended")
                app
                now)
          else if type == codes "Reconciling"
          then some (
              condition_at
                (codes "Reconciling")
                condition_false
                (codes "Suspended")
                (codes "reconciliation is suspended")
                app
                now)
          else find_condition type app.status.conditions)
  pub attempt : status.last_attempt_time ≡ some now
  pub success : status.last_success_time ≡ app.status.last_success_time
  pub attempted : status.attempted_revision ≡ app.status.attempted_revision
  pub applied : status.applied_revision ≡ app.status.applied_revision
  pub inventory : status.inventory ≡ app.status.inventory
  pub generation : status.observed_generation ≡ app.status.observed_generation

module _ (c : Outside) (cfg : OperatorConfig) (namespace name : Text) (s : c.State) where
  update_suspended-calls :
      (app : GitApplication) (s' : c.State)
      → (update_suspended c cfg app s').calls
        ≡ patched_status app.status (suspended_status app (c.now s')) ∷ []
  unfolding update_suspended patch_status_of
  update_suspended-calls app s' =
      elim (Result-cases (patch_status_of c cfg app (suspended_status app (c.now s')) s').result) [
        | inl (b, k) ↦ rw k refl
        | inr (b, k) ↦ rw k refl
      ]

  -- An application that is not found, or that is being deleted, is read and then left alone.
  pub reconcile-left_alone :
      (((e : Error) × ((c.get_application namespace name s).0 ≡ err e)
          × (is_not_found e.cause ≡ true))
        ⊎ ((app : GitApplication) × (t : ℕ) × ((c.get_application namespace name s).0 ≡ ok app)
            × (app.deletion_timestamp ≡ some t)))
      → ((reconcile c cfg namespace name s).result ≡ ok no_requeue)
        × ((reconcile c cfg namespace name s).calls ≡ got_application namespace name ∷ [])
  unfolding reconcile
  reconcile-left_alone (inl (e, h, g)) = (rw (h, g) refl, rw (h, g) refl)
  reconcile-left_alone (inr (app, t, h, g)) =
      (simp (h, reconcile_found, g), simp (h, reconcile_found, g))

  reconcile-calls :
      (app : GitApplication)
      → (c.get_application namespace name s).0 ≡ ok app
      → (reconcile c cfg namespace name s).calls
        ≡ got_application namespace name
          ∷ (reconcile_found c cfg app (c.get_application namespace name s).1).calls
  unfolding reconcile
  reconcile-calls app h = simp h

  reconcile-result :
      (app : GitApplication)
      → (c.get_application namespace name s).0 ≡ ok app
      → (reconcile c cfg namespace name s).result
        ≡ (reconcile_found c cfg app (c.get_application namespace name s).1).result
  unfolding reconcile
  reconcile-result app h = simp h

  -- The two calls about a suspended application.
  suspended-calls :
      (app : GitApplication)
      → (c.get_application namespace name s).0 ≡ ok app
      → app.deletion_timestamp ≡ none
      → app.spec.suspend ≡ true
      → let s' = (c.get_application namespace name s).1 in
        (reconcile c cfg namespace name s).calls
        ≡ got_application namespace name
          ∷ patched_status app.status (suspended_status app (c.now s'))
          ∷ []
  suspended-calls app h d t =
      reconcile-calls app h
      ∙ ap (λ m. got_application namespace name ∷ (m (c.get_application namespace name s).1).calls)
          (found_suspended c cfg app d t)
      ∙ ap (got_application namespace name ∷◌)
          (update_suspended-calls app (c.get_application namespace name s).1)

  -- A suspended application is read, a status is reported, and nothing else is called. In that status
  -- the application is not ready and not reconciling, because it is suspended, and this was the last
  -- attempt; its other conditions, its revisions, its inventory and the time of its last success are as
  -- they were.
  pub reconcile-IsSuspended :
      (app : GitApplication)
      → (c.get_application namespace name s).0 ≡ ok app
      → app.deletion_timestamp ≡ none
      → app.spec.suspend ≡ true
      → (status : GitApplicationStatus) × ((reconcile c cfg namespace name s).calls
          ≡ got_application namespace name ∷ patched_status app.status status ∷ [])
        × IsSuspended app (c.now (c.get_application namespace name s).1) status
  unfolding suspended_status
  reconcile-IsSuspended app h d t =
      let now = c.now (c.get_application namespace name s).1 in
      (
        suspended_status app now,
        suspended-calls app h d t,
        record {
          conditions = suspended_status-conditions app now;
          attempt = refl;
          success = refl;
          attempted = refl;
          applied = refl;
          inventory = refl;
          generation = refl;
        },
      )

  -- What a reconciliation that returns asks for: nothing, or to come again after the minimum of the
  -- operator or later.
  pub reconcile-requeue :
      {r : Requeue}
      → (reconcile c cfg namespace name s).result ≡ ok r
      → (r ≡ no_requeue) ⊎ (cfg.minimum_requeue_interval ≤ℤ r)
  unfolding reconcile
  reconcile-requeue {r} h = elim (Result-cases (c.get_application namespace name s).0) [
    | inr (e, k) ↦ inl (ground arith)
    | inl (app, k) ↦
        found_requeue c cfg app (c.get_application namespace name s).1
          (sym (reconcile-result app k) ∙ h)
  ]

  -- An application that is not being deleted comes again, if its reconciliation returns.
  pub active_requeue :
      (app : GitApplication) {r : Requeue}
      → (c.get_application namespace name s).0 ≡ ok app
      → app.deletion_timestamp ≡ none
      → (reconcile c cfg namespace name s).result ≡ ok r
      → cfg.minimum_requeue_interval ≤ℤ r
  active_requeue app {r} h d k =
      let s' = (c.get_application namespace name s).1 in
      let chosen : M c.State Requeue =
        if app.spec.suspend then update_suspended c cfg app else synchronize c cfg app in
      let returned : (chosen s').result ≡ ok r =
        sym (ap (λ (m : M c.State Requeue). (m s').result) (found_active c cfg app d))
        ∙ sym (reconcile-result app h)
        ∙ k in
      elim (Bool-cases app.spec.suspend) [
        | inl t ↦ update_suspended-requeue c cfg app s' (
            sym (
              ap
                (λ (b : Bool).
                  ((if b then update_suspended c cfg app else synchronize c cfg app) s').result)
                t)
            ∙ returned)
        | inr f ↦ synchronize-requeue c cfg app s' (
            sym (
              ap
                (λ (b : Bool).
                  ((if b then update_suspended c cfg app else synchronize c cfg app) s').result)
                f)
            ∙ returned)
      ]
