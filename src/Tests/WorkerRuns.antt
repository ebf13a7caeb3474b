-- ===== src/Tests/WorkerRuns.antt =====
-- The theorems on the worker, at a queue whose state is the time.
use cabure.Base.{ℕ, ◌+◌, ◌≡◌, refl, none, some, List, [], ◌∷◌, ◌++◌, ok, err, Error, ◌⊎◌, arith}
use cabure.Text.{Text, codes}
use cabure.Effects.{Call, on_queue, finished, got_application}
use cabure.Controller.Reconcile.{reconcile}
use cabure.Worker.{Queue, panicked, Attempt, process_key, run_worker}
use cabure.Worker.Bracket.{Shifts, run_worker-Shifts}
use cabure.Worker.Rescheduling.{PutsBack, IsStopping, reconciler, process_key-PutsBack}
use cabure.Tests.Demo.{world, demo_application, demo_config}

abbrev demo_queue : Queue ℕ
demo_queue = record {
  get = λ s. (some (codes "apps/shop"), s + 1);
  forget = λ key s. s;
  add_rate_limited = λ key s. s;
  add_after = λ key d s. s;
  done = λ key s. s;
  split_key = λ key. ok (codes "apps", codes "shop");
  context_error = λ s. (none, s);
}

-- A reconciler that panics after one call.
abbrev panicking : Text → Text → ℕ → Attempt ℕ
panicking namespace name s = record {
  ending = panicked;
  calls = got_application namespace name ∷ [];
  state = s;
}

run_worker-Shifts_example : Shifts (run_worker demo_queue panicking 3 7).calls
run_worker-Shifts_example =
    run_worker-Shifts demo_queue panicking (λ namespace name s. (tt, tt)) 3 7

process_key-PutsBack_example :
    ((before : List Call) × (call : Call) × PutsBack demo_config.minimum_requeue_interval
        (codes "apps/shop")
        call
      × ((process_key demo_queue (reconciler world demo_config) (codes "apps/shop") 7).calls
          ≡ before ++ (call ∷ on_queue (finished (codes "apps/shop")) ∷ [])))
    ⊎ ((e : Error) × ((reconcile world demo_config (codes "apps") (codes "shop") 7).result ≡ err e)
        × IsStopping world demo_config demo_queue e
            (reconcile world demo_config (codes "apps") (codes "shop") 7).state)
process_key-PutsBack_example =
    process_key-PutsBack world demo_config demo_queue (codes "apps/shop") (codes "apps")
      (codes "shop") demo_application 7 (omega arith) refl refl refl
