-- ===== src/Operator.antt =====
-- The process of the operator (cmd/main.go): its options, its probes, `run`, and how it ends.
pub mod Running
pub mod Election
pub mod Flags
use cabure.Base.{
  ℕ, zero, suc, ◌≡◌, ◌⊎◌, Bool, true, false, Option, none, some, List, [], ◌∷◌, ◌==◌, list_eq,
  nat_eq, Result, ok, err, Error, Cause, canceled, errorf, if◌then◌else◌,
}
use cabure.Base.Int.{ℤ, pos, negsuc, leb_ℤ}
use cabure.Text.{Text, codes, trim_space}
use cabure.Api.Types.{OperatorConfig}

-- `operatorOptions`, less the logger and the flag of readiness.
pub record OperatorOptions : Type 0 where
  pub watch_namespace : Text
  pub concurrent_reconciles : ℤ
  pub minimum_requeue_interval : ℤ
  pub allow_cluster_scoped : Bool
  pub allowed_repo_prefixes : List Text
  pub field_manager : Text
  pub cache_dir : Text

-- The configuration of the reconciler in `newOperatorRunner`.
unfoldable pub config_of : OperatorOptions → OperatorConfig
config_of opts = record {
  watch_namespace = opts.watch_namespace;
  concurrent_reconciles = opts.concurrent_reconciles;
  minimum_requeue_interval = opts.minimum_requeue_interval;
  allow_cluster_scoped_resources = opts.allow_cluster_scoped;
  allowed_repository_prefixes = opts.allowed_repo_prefixes;
  field_manager = opts.field_manager;
  cache_dir = opts.cache_dir;
}

-- `workers` of `newOperatorRunner`.
unfoldable pub worker_count : OperatorOptions → ℕ
worker_count opts = elim opts.concurrent_reconciles [ pos (suc n) ↦ suc n | _ ↦ 1 ]

-- `leaderElectionNamespace`, of the variable `POD_NAMESPACE` and of the file of the service account.
unfoldable pub leader_election_namespace : Text → Result Text → Result Text
unfolding trim_space
leader_election_namespace pod_namespace file =
    let missing = err (errorf (codes "unable to determine leader election namespace")) in
    if trim_space pod_namespace == []
    then elim file [
      | err e ↦ missing
      | ok data_read ↦ if trim_space data_read == [] then missing else ok (trim_space data_read)
    ]
    else ok (trim_space pod_namespace)

-- The answers of the probe server: a status and a body.
unfoldable pub healthz : ℕ × Text
healthz = (200, codes "ok")

unfoldable pub readyz : Bool → ℕ × Text
readyz false = (503, codes "not ready\n")
readyz true = (200, codes "ok")

-- `err != nil && !errors.Is(err, context.Canceled)`
unfoldable pub is_failure : Option Error → Bool
is_failure none = false
is_failure (some e) = elim e.cause [ canceled ↦ false | _ ↦ true ]

-- The exit status of `main`, from how `newOperatorRunner`, and then the operator or its leader election,
-- ended. The servers start without an error.
unfoldable pub exit_status : Option Error → Option Error → ℕ
unfolding is_failure
exit_status (some e) ended = 1
exit_status none ended = if is_failure ended then 1 else 0

-- Where `run` stands.
pub data Phase : Type 0 where
  starting syncing working : Phase
  returned : Error → Phase

-- What `run` and its goroutines share.
pub record Process : Type 0 where
  pub phase : Phase
  pub ready : Bool
  pub queue_open : Bool
  -- The context is done.
  pub cancelled : Bool
  -- How many workers wait in `Get` of the queue, and how many handle a key.
  pub waiting : ℕ
  pub busy : ℕ

abbrev pub fresh_process : Process
fresh_process = record {
  phase = starting;
  ready = false;
  queue_open = true;
  cancelled = false;
  waiting = 0;
  busy = 0;
}

-- What the deferred calls of `run` leave.
abbrev pub stopped : Error → Process → Process
stopped e p = record p { phase = returned e; ready = false; queue_open = false }

-- A step of `run`, of a goroutine that it has started, or of the context, on `n` workers. The error of
-- the context is `cause`.
pub data Step (n : ℕ) (cause : Error) : Process → Process → Type 0 where
  begins :
      (p : Process)
      → p.phase ≡ starting
      → Step n cause p (record p { phase = syncing; ready = false })
  cancels : (p : Process) → p.cancelled ≡ false → Step n cause p (record p { cancelled = true })
  -- `WaitForCacheSync` fails.
  stops_early :
      (p : Process) → p.phase ≡ syncing → p.cancelled ≡ true → Step n cause p (stopped cause p)
  sync_fails :
      (p : Process)
      → p.phase ≡ syncing
      → p.cancelled ≡ false
      → Step n cause p (stopped (errorf (codes "gitapplication informer cache did not sync")) p)
  syncs :
      (p : Process)
      → p.phase ≡ syncing
      → Step n cause p (record p { phase = working; ready = true; waiting = n; busy = 0 })
  -- The goroutine that waits for the context.
  shuts_down :
      (p : Process)
      → p.phase ≡ working
      → p.cancelled ≡ true
      → p.queue_open ≡ true
      → Step n cause p (record p { queue_open = false })
  -- `Get` returns a key; also what is left of a queue that is shut down.
  takes :
      (p : Process) (k : ℕ)
      → p.waiting ≡ suc k
      → Step n cause p (record p { waiting = k; busy = suc p.busy })
  -- `Get` says that the queue is shut down, and `runWorker` returns.
  finds_shutdown :
      (p : Process) (k : ℕ)
      → p.waiting ≡ suc k
      → p.queue_open ≡ false
      → Step n cause p (record p { waiting = k })
  -- A key is handled, and `runWorker` asks for the next, or returns if the context is done.
  goes_on :
      (p : Process) (k : ℕ)
      → p.busy ≡ suc k
      → p.cancelled ≡ false
      → Step n cause p (record p { waiting = suc p.waiting; busy = k })
  stops_after :
      (p : Process) (k : ℕ)
      → p.busy ≡ suc k
      → p.cancelled ≡ true
      → Step n cause p (record p { busy = k })
  returns :
      (p : Process)
      → p.phase ≡ working
      → p.cancelled ≡ true
      → p.waiting ≡ 0
      → p.busy ≡ 0
      → Step n cause p (stopped cause p)

-- What can be reached from the start.
pub data Reach (n : ℕ) (cause : Error) : Process → Type 0 where
  start : Reach n cause fresh_process
  next : {p p' : Process} → Reach n cause p → Step n cause p p' → Reach n cause p'
