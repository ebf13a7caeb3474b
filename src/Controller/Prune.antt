-- ===== src/Controller/Prune.antt =====
-- `prune`, `fetchLiveObject` and `deleteObject` (internal/controller/gitapplication_controller.go).
pub mod Safety
pub mod Versions
pub mod Settled
use cabure.Base.{
  ℕ, Bool, true, false, not, ◌&&◌, ◌||◌, Option, none, some, List, [], ◌∷◌, ◌==◌, list_eq, nat_eq,
  if◌then◌else◌, Result, ok, err,
}
use cabure.Text.{Text}
use cabure.Api.{Object, ResourceReference, Gvr, Mapping, Scope, namespaced, root}
use cabure.Api.Types.{GitApplication}
use cabure.Inventory.{diff}
use cabure.Apply.{mapping_of, application_uid_anno, managed_by_label, managed_by_value}
use cabure.Outside.{Outside}
use cabure.Effects.{
  M, Call, got_object, deleted, return, throw, lift, perform, attempt, ◌>>=◌, ◌>>◌,
}
use cabure.Controller.Credentials.{data_at, is_not_found}

-- The namespace that a request names: that of a namespaced resource.
abbrev pub request_namespace : Scope → Text → Option Text
request_namespace namespaced ns = some ns
request_namespace root ns = none

module _ (c : Outside) where
  -- `fetchLiveObject`
  unfoldable pub fetch_live_object : ResourceReference → M c.State Object
  fetch_live_object ref = do
    mapping ← lift (c.machinery.rest_mapping ref.group ref.kind ref.version)
    let ns = request_namespace mapping.scope ref.namespace
    perform (got_object mapping.resource ns ref.name) (c.get_object mapping.resource ns ref.name)

  -- `deleteObject`, with propagation in the background.
  unfoldable pub delete_object : Object → M c.State (Unit {0})
  delete_object obj = do
    mapping ← lift (mapping_of c.machinery obj)
    let ns = request_namespace mapping.scope obj.namespace
    perform (deleted mapping.resource ns obj.name) (c.delete_object mapping.resource ns obj.name)

  -- The two marks that `prune` looks for before it deletes.
  unfoldable pub is_marked_by : GitApplication → Object → Bool
  is_marked_by app obj =
      data_at application_uid_anno obj.annotations == app.uid
      && data_at managed_by_label obj.labels == managed_by_value

  -- The loop of `prune`.
  unfoldable pub prune_stale : GitApplication → List ResourceReference → M c.State (Unit {0})
  unfolding fetch_live_object delete_object is_marked_by
  prune_stale app [] = return tt
  prune_stale app (ref ∷ stale) =
      attempt (fetch_live_object ref)
        (λ e. if is_not_found e.cause then prune_stale app stale else throw e)
        (λ obj.
          if not (is_marked_by app obj)
          then prune_stale app stale
          else (delete_object obj >> prune_stale app stale))

  -- `prune`
  unfoldable pub prune : GitApplication → List ResourceReference → M c.State (Unit {0})
  unfolding prune_stale
  prune app desired = prune_stale app (diff c.machinery app.status.inventory desired)
