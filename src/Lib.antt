-- ===== src/Lib.antt =====
-- Cabure, an operator that keeps a Kubernetes cluster in step with Git repositories: its core,
-- from the spec of an application to the calls it makes of the API server, the file system and Git.
--
-- A reconciliation reads a GitApplication, checks its spec, reads its credentials, checks out its
-- repository, renders the objects there, checks and orders them, applies them, prunes what is no
-- longer wanted and reports a status. The parts, and the files here that model them:
--
--   api/v1alpha1/gitapplication_types.go: Api (references, keys, objects as the accessors of
--     unstructured objects show them) and Api/Types (spec, status, secrets, options),
--     Api/Memory (`DeepCopyInto` is deep_copy_into, over addresses) and its children.
--   internal/inventory/inventory.go: Inventory (`Normalize` is normalize, `Equal` equal, `Diff`
--     diff), Inventory/Diff, Inventory/Normal.
--   internal/apply/apply.go: Apply (`NormalizeAndValidate` is normalize_and_validate, one round of its
--     loop normalize_one), Apply/Priority, Apply/Stages, Apply/Steps, Apply/Admission, Apply/Refusal,
--     Apply/Ordering; `Apply` is apply_objects in Controller/Requests.
--   internal/render/path.go: Path (`filepath.Clean`, `Join` and `ResolveWithinRoot`) and its children.
--   internal/render/yaml.go and helm.go: Render (`Render` is render_yaml and render_helm), Values
--     (`deepMerge` is deep_merge), Render/Files, Render/Reads, Render/Containment,
--     Values/Merge.
--   internal/controller/gitapplication_controller.go: Controller/Validation (`validateSpec`), Url,
--     Controller/Credentials (`loadCredentials`), Controller/Prune (`prune`), Controller/Conditions
--     (`setCondition` and the statuses), Controller/Reconcile (`Reconcile` is reconcile, and its
--     stages synchronize, fetch, deliver and settle).
--   internal/git/repository.go: Git (`ensureMirror` is ensure_mirror, `resolveRevision` is
--     resolve_revision), Git/Mirror, Git/Retry, Git/Revision, Git/Auth (`authHeader`), Git/Host
--     (`runGitCommand` is run_git_command; the machine), Git/Lock (`withLock` is with_lock) and its
--     children, Git/Checkout (`Checkout` is checkout, `prepareAuth` prepare_auth) and its children,
--     Git/Follows and its children (what holds of each call holds of the
--     whole).
--   cmd/main.go: Options (`splitAllowedPrefixes`, `watchNamespaceOrAll`), Options/Prefixes, Worker
--     (`runWorker` is run_worker, one round of its loop work_round) and its children, Operator
--     (options, probes, `run` as the steps of Step), Operator/Running, Operator/Election
--     (`runWithLeaderElection`), Operator/Flags (the flags of `main`).
--
-- Texts are lists of bytes (Text). Errors are values with a cause (Base/Results). Code that calls
-- what lies outside is a function of the state of the outside (Effects), whose outcome has the calls
-- that were made, in order; Outside lists what is assumed of the API server, the clock, Git, the file
-- system, and the libraries for YAML, JSON and charts, all of them parameters. Sorting is insertion
-- sort, which is stable; where the code sorts with no promise on ties, Base/Sort/Unique shows that
-- lists without ties have one sorted form. Most loops are structural recursion, and the one retry of
-- `ensureMirror` is an argument of its attempt. The loop of `withLock` has as many rounds as its
-- timeout has pauses, and two more (lock_rounds), which Git/Lock/Waiting shows to be enough. The
-- endless loop of `runWorker` is run for any number of rounds.
-- Durations are whole numbers of nanoseconds without a bound, times are natural numbers.
--
-- Not modelled: panics inside the lock of a checkout; the reconciler takes `Checkout` as a parameter,
-- as the code does with its interface; of cmd/main.go the parsing of flags, informers, the queue of client-go,
-- and servers; the charts. Of Kubernetes' metadata only what the code reads is kept; the merge patch of
-- a status is a call with the status before and after it.
pub mod Base
pub mod Text
pub mod Api
pub mod Inventory
pub mod Apply
pub mod Path
pub mod Effects
pub mod Url
pub mod Values
pub mod Outside
pub mod Render
pub mod Controller
pub mod Git
pub mod Options
pub mod Worker
pub mod Operator
mod Tests
