-- ===== src/Worker.antt =====
-- The worker of the operator: `runWorker` (cmd/main.go).
pub mod Rescheduling
pub mod Bracket
use cabure.Base.{
  ℕ, zero, suc, Bool, true, false, Option, none, some, List, [], ◌∷◌, ◌++◌, Result, ok, err, Error,
  Cause, canceled, if◌then◌else◌,
}
use cabure.Base.Int.{ℤ, pos, negsuc}
use cabure.Text.{Text}
use cabure.Effects.{
  Call, Outcome, M, on_queue, got, forgot, added_rate_limited, added_after, finished, return,
  perform_only, finally, ◌>>=◌, ◌>>◌,
}

-- The queue of package workqueue, and what else the worker calls. The key is none once the queue is
-- shut down.
pub record Queue (S : Type 0) : Type 0 where
  pub get : S → Option Text × S
  pub forget : Text → S → S
  pub add_rate_limited : Text → S → S
  pub add_after : Text → ℕ → S → S
  pub done : Text → S → S
  -- `toolscache.SplitMetaNamespaceKey`: namespace and name
  pub split_key : Text → Result (Text × Text)
  -- `ctx.Err`
  pub context_error : S → Option Error × S

-- `ctrl.Result`
pub record Answer : Type 0 where
  pub requeue : Bool
  pub requeue_after : ℤ

-- How a call of `Reconcile` ends.
pub data Ending : Type 0 where
  returned : Result Answer → Ending
  panicked : Ending

pub record Attempt (S : Type 0) : Type 0 where
  pub ending : Ending
  pub calls : List Call
  pub state : S

module _ {S : Type 0} (q : Queue S) (reconcile : Text → Text → S → Attempt S) where
  abbrev pub forget_key : Text → M S (Unit {0})
  forget_key key = perform_only (on_queue (forgot key)) (q.forget key)

  abbrev pub retry_later : Text → M S (Unit {0})
  retry_later key = perform_only (on_queue (added_rate_limited key)) (q.add_rate_limited key)

  abbrev pub finish_key : Text → M S (Unit {0})
  finish_key key = perform_only (on_queue (finished key)) (q.done key)

  -- The `switch` on the result.
  unfoldable pub requeue : Text → Bool → ℤ → M S (Unit {0})
  requeue key again (pos (suc n)) =
      perform_only (on_queue (added_after key (suc n))) (q.add_after key (suc n))
  requeue key true _ = retry_later key
  requeue key false _ = return tt

  -- `errors.Is(err, context.Canceled) || ctx.Err() != nil`
  unfoldable pub is_over : Cause → M S Bool
  is_over canceled s = return true s
  is_over _ s =
      return (elim (q.context_error s).0 [ some e ↦ true | none ↦ false ]) (q.context_error s).1

  -- What follows a reconciliation; after a panic, what `recover` does.
  unfoldable pub after_reconcile : Text → Ending → M S (Unit {0})
  unfolding requeue is_over
  after_reconcile key panicked = retry_later key
  after_reconcile key (returned (err e)) =
      is_over e.cause >>= λ over. if over then return tt else retry_later key
  after_reconcile key (returned (ok answer)) =
      forget_key key >> requeue key answer.requeue answer.requeue_after

  unfoldable pub handle_name : Text → Text → Text → M S (Unit {0})
  unfolding after_reconcile
  handle_name key namespace name s =
      let attempt = reconcile namespace name s in
      let o = after_reconcile key attempt.ending attempt.state in
      record o { calls = attempt.calls ++ o.calls }

  -- The function that `runWorker` calls for a key, without its `defer` of `Done`.
  unfoldable pub handle_key : Text → M S (Unit {0})
  unfolding handle_name
  handle_key key = elim (q.split_key key) [
    | err e ↦ forget_key key
    | ok name ↦ handle_name key name.0 name.1
  ]

  unfoldable pub process_key : Text → M S (Unit {0})
  unfolding handle_key
  process_key key = finally (handle_key key) (finish_key key)

  -- One round of the loop of `runWorker`: whether it goes on.
  unfoldable pub work_round : M S Bool
  unfolding process_key
  work_round s = elim (q.get s).0 [
    | none ↦ return false (q.get s).1
    | some key ↦
        let o = process_key key (q.get s).1 in
        let over = q.context_error o.state in
        record {
          result = ok (elim over.0 [ some e ↦ false | none ↦ true ]);
          calls = on_queue (got key) ∷ o.calls;
          state = over.1;
        }
  ]

  -- `runWorker`, for as many rounds at most: whether it would go on.
  unfoldable pub run_worker : ℕ → M S Bool
  unfolding work_round
  run_worker zero = return true
  run_worker (suc rounds) =
      let rest = run_worker rounds in
      work_round >>= λ goes_on. if goes_on then rest else return false
