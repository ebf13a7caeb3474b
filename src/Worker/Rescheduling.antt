-- ===== src/Worker/Rescheduling.antt =====
-- The worker and the reconciler together: applications come again (cmd/main.go).
use cabure.Base.{
  ℕ, zero, suc, ◌≡◌, refl, ap, sym, ◌∙◌, Bool, true, false, none, some, Option-cases, List, [], ◌∷◌,
  ◌++◌, append_assoc, Result, ok, err, Error, Cause, canceled, inl, inr, ◌⊎◌, arith, if◌then◌else◌,
}
use cabure.Base.Int.{ℤ, pos, negsuc, ◌≤ℤ◌}
use cabure.Text.{Text}
use cabure.Api.Types.{GitApplication, OperatorConfig}
use cabure.Outside.{Outside}
use cabure.Effects.{
  Call, M, on_queue, forgot, added_rate_limited, added_after, finished, return, ◌>>=◌,
}
use cabure.Controller.Reconcile.{Requeue, reconcile}
use cabure.Controller.Reconcile.Outcomes.{active_requeue}
use cabure.Worker.{
  Queue, Answer, returned, Attempt, retry_later, requeue, is_over, after_reconcile, handle_name,
  handle_key, process_key,
}

-- The `ctrl.Result` of a reconciliation, which never sets `Requeue`.
abbrev pub answered : Result Requeue → Result Answer
answered (err e) = err e
answered (ok d) = ok (record { requeue = false; requeue_after = d })

-- `Reconcile` as the worker calls it.
abbrev pub reconciler : (c : Outside) → OperatorConfig → Text → Text → c.State → Attempt c.State
reconciler c cfg namespace name s =
    let o = reconcile c cfg namespace name s in
    record { ending = returned (answered o.result); calls = o.calls; state = o.state }

-- The key was put back: for a time that is not below the minimum, or with the queue's back-off.
pub data PutsBack (minimum : ℤ) (key : Text) : Call → Type 0 where
  after_delay :
      {n : ℕ} → minimum ≤ℤ pos (suc n) → PutsBack minimum key (on_queue (added_after key (suc n)))
  with_back_off : PutsBack minimum key (on_queue (added_rate_limited key))

module _ (c : Outside) (cfg : OperatorConfig) (q : Queue c.State) where
  -- The last call puts the key back.
  abbrev EndsSo : Text → List Call → Type 0
  EndsSo key calls =
      (before : List Call) × (call : Call) × PutsBack cfg.minimum_requeue_interval key call
      × (calls ≡ before ++ (call ∷ []))

  requeue-EndsSo :
      (key : Text) (d : ℤ) (s : c.State)
      → pos 1 ≤ℤ cfg.minimum_requeue_interval
      → cfg.minimum_requeue_interval ≤ℤ d
      → EndsSo key (requeue q (reconciler c cfg) key false d s).calls
  unfolding requeue
  requeue-EndsSo key (pos (suc n)) s positive le = ([], _, after_delay le, refl)
  requeue-EndsSo key (pos zero) s positive le = absurd (omega (arith, positive, le))
  requeue-EndsSo key (negsuc n) s positive le = absurd (omega (arith, positive, le))

  -- The worker is stopping.
  abbrev pub IsStopping : Error → c.State → Type 0
  IsStopping e s = (e.cause ≡ canceled) ⊎ ((x : Error) × ((q.context_error s).0 ≡ some x))

  is_over-cases :
      (e : Error) (cause : Cause) (s : c.State)
      → e.cause ≡ cause
      → (((is_over q (reconciler c cfg) cause s).result ≡ ok true) × IsStopping e s)
        ⊎ ((is_over q (reconciler c cfg) cause s).result ≡ ok false)
  unfolding is_over
  is_over-cases e canceled s k = inl (refl, inl k)
  is_over-cases e _ s k = elim (Option-cases (q.context_error s).0) [
    | inl none_given ↦ inr (rw none_given refl)
    | inr (x, given) ↦ inl (rw given refl, inr (x, given))
  ]

  decided-EndsSo :
      (key : Text) (m : M c.State Bool) (s : c.State)
      → (m s).result ≡ ok false
      → EndsSo key
          ((m >>= λ over. if over then return tt else retry_later q (reconciler c cfg) key) s).calls
  decided-EndsSo key m s r = rw r ((m s).calls, _, with_back_off, refl)

  after_reconcile-EndsSo :
      (key : Text) (r : Result Requeue) (s : c.State)
      → pos 1 ≤ℤ cfg.minimum_requeue_interval
      → ((d : Requeue) → r ≡ ok d → cfg.minimum_requeue_interval ≤ℤ d)
      → EndsSo key (after_reconcile q (reconciler c cfg) key (returned (answered r)) s).calls
        ⊎ ((e : Error) × (r ≡ err e) × IsStopping e s)
  unfolding after_reconcile
  after_reconcile-EndsSo key (ok d) s positive least =
      let (before, call, back, e) = requeue-EndsSo key d (q.forget key s) positive (least d refl) in
      inl (on_queue (forgot key) ∷ before, call, back, ap (on_queue (forgot key) ∷◌) e)
  after_reconcile-EndsSo key (err e) s positive least = elim (is_over-cases e e.cause s refl) [
    | inl (_, stopping) ↦ inr (e, refl, stopping)
    | inr going ↦ inl (decided-EndsSo key (is_over q (reconciler c cfg) e.cause) s going)
  ]

  handle_key-calls :
      (key namespace name : Text) (s : c.State)
      → q.split_key key ≡ ok (namespace, name)
      → (handle_key q (reconciler c cfg) key s).calls
        ≡ (handle_name q (reconciler c cfg) key namespace name s).calls
  unfolding handle_key
  handle_key-calls key namespace name s h = rw (h, handle_key) refl

-- No application is forgotten. When a worker handles the key of an application that exists and is not
-- being deleted, suspended or not, then its last calls put the key back and finish it: after a delay that
-- is at least the operator's minimum, or with the back-off of the queue. The exception is a
-- reconciliation that failed because it was cancelled or while the operator stops. The minimum is
-- assumed to be above zero.
pub process_key-PutsBack :
    (c : Outside) (cfg : OperatorConfig) (q : Queue c.State) (key namespace name : Text)
    (app : GitApplication) (s : c.State)
    → pos 1 ≤ℤ cfg.minimum_requeue_interval
    → q.split_key key ≡ ok (namespace, name)
    → (c.get_application namespace name s).0 ≡ ok app
    → app.deletion_timestamp ≡ none
    → ((before : List Call) × (call : Call) × PutsBack cfg.minimum_requeue_interval key call
        × ((process_key q (reconciler c cfg) key s).calls
            ≡ before ++ (call ∷ on_queue (finished key) ∷ [])))
      ⊎ ((e : Error) × ((reconcile c cfg namespace name s).result ≡ err e)
          × IsStopping c cfg q e (reconcile c cfg namespace name s).state)
unfolding process_key handle_name
process_key-PutsBack c cfg q key namespace name app s positive split found active =
    let o = reconcile c cfg namespace name s in
    elim (after_reconcile-EndsSo c cfg q key o.result o.state positive
      (λ d r. active_requeue c cfg namespace name s app found active r)) [
        | inr stopping ↦ inr stopping
        | inl (before, call, back, e) ↦ inl (
          o.calls ++ before,
          call,
          back,
          ap (λ l. l ++ (on_queue (finished key) ∷ []))
                (handle_key-calls c cfg q key namespace name s split
                  ∙ ap (o.calls ++◌) e
                  ∙ sym (append_assoc o.calls before (call ∷ [])))
              ∙ append_assoc (o.calls ++ before) (call ∷ []) (on_queue (finished key) ∷ []),
        )
      ]
