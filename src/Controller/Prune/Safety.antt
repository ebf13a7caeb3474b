-- ===== src/Controller/Prune/Safety.antt =====
-- Which calls `prune` makes of the API server.
use cabure.Base.{
  ◌≡◌, true, not, List, [], ◌∷◌, ok, All, contains, Bool-cases, inl, inr, if◌then◌else◌,
}
use cabure.Base.Members.{All-contains}
use cabure.Api.{Object, ResourceReference, Mapping, reference_eq}
use cabure.Api.Types.{GitApplication}
use cabure.Inventory.{diff}
use cabure.Apply.{mapping_of}
use cabure.Outside.{Outside}
use cabure.Effects.{Call, got_object, deleted, throw, lift, perform, ◌>>=◌}
use cabure.Effects.Calls.{Makes, Makes-attempt, Makes-attempt_from}
use cabure.Controller.Prune.{
  request_namespace, fetch_live_object, delete_object, is_marked_by, prune_stale, prune,
}
use cabure.Controller.Credentials.{is_not_found}

module _ (c : Outside) (app : GitApplication) (stale : List ResourceReference) where
  -- A call of `prune`: it looks up a stale reference, or deletes an object that such a look-up
  -- returned, and that carries both marks of the application.
  pub data IsPruning : Call → Type 0 where
    looks_up :
        (r : ResourceReference) (mapping : Mapping)
        → contains stale r ≡ true
        → c.machinery.rest_mapping r.group r.kind r.version ≡ ok mapping
        → IsPruning
            (got_object mapping.resource (request_namespace mapping.scope r.namespace) r.name)
    removes :
        (r : ResourceReference) (obj : Object) (mapping : Mapping) (s : c.State)
        → contains stale r ≡ true
        → (fetch_live_object c r s).result ≡ ok obj
        → is_marked_by c app obj ≡ true
        → mapping_of c.machinery obj ≡ ok mapping
        → IsPruning
            (deleted mapping.resource (request_namespace mapping.scope obj.namespace) obj.name)

  fetch_live_object-IsPruning :
      (r : ResourceReference) → contains stale r ≡ true → Makes IsPruning (fetch_live_object c r)
  unfolding fetch_live_object
  fetch_live_object-IsPruning r h =
      Makes-attempt_from IsPruning (lift (c.machinery.rest_mapping r.group r.kind r.version)) throw
        (λ mapping.
          perform (got_object mapping.resource (request_namespace mapping.scope r.namespace) r.name)
            (c.get_object mapping.resource (request_namespace mapping.scope r.namespace) r.name))
        (λ s. tt) (λ e s. tt) (λ mapping s e. (looks_up r mapping h e, tt))

  delete_object-IsPruning :
      (r : ResourceReference) (obj : Object) (s : c.State)
      → contains stale r ≡ true
      → (fetch_live_object c r s).result ≡ ok obj
      → is_marked_by c app obj ≡ true
      → Makes IsPruning (delete_object c obj)
  unfolding delete_object
  delete_object-IsPruning r obj s h fetched marked =
      Makes-attempt_from IsPruning (lift (mapping_of c.machinery obj)) throw
        (λ mapping.
          perform
            (deleted mapping.resource (request_namespace mapping.scope obj.namespace) obj.name)
            (c.delete_object mapping.resource (request_namespace mapping.scope obj.namespace)
              obj.name))
        (λ s. tt) (λ e s. tt) (λ mapping s' e. (removes r obj mapping s h fetched marked e, tt))

  prune_stale-IsPruning :
      (rest : List ResourceReference)
      → All (λ r. contains stale r ≡ true) rest
      → Makes IsPruning (prune_stale c app rest)
  unfolding prune_stale
  prune_stale-IsPruning [] h = λ s. tt
  prune_stale-IsPruning (r ∷ rest) h =
      let later = prune_stale-IsPruning rest h.1 in
      Makes-attempt_from IsPruning (fetch_live_object c r)
        (λ e. if is_not_found e.cause then prune_stale c app rest else throw e)
        (λ obj.
          if not (is_marked_by c app obj)
          then prune_stale c app rest
          else (delete_object c obj >>= λ _. prune_stale c app rest))
        (fetch_live_object-IsPruning r h.0)
        (λ e s. elim (Bool-cases (is_not_found e.cause)) [
          | inl t ↦ rw t (later s)
          | inr f ↦ rw f tt
        ])
        (λ obj s fetched. elim (Bool-cases (is_marked_by c app obj)) [
          | inl t ↦ rw t (
              Makes-attempt IsPruning (delete_object c obj) throw (λ _. prune_stale c app rest)
                (delete_object-IsPruning r obj s h.0 fetched t) (λ e s. tt) (λ _. later)
                ((fetch_live_object c r s).state))
          | inr f ↦ rw f (later ((fetch_live_object c r s).state))
        ])

-- Pruning only looks up stale references, and only deletes objects that such a look-up returned
-- and that carry both the application's UID and the label of the operator.
pub prune-IsPruning :
    (c : Outside) (app : GitApplication) (desired : List ResourceReference)
    → Makes (IsPruning c app (diff c.machinery app.status.inventory desired)) (prune c app desired)
unfolding prune
prune-IsPruning c app desired =
    prune_stale-IsPruning c app (diff c.machinery app.status.inventory desired)
      (diff c.machinery app.status.inventory desired)
      (All-contains (diff c.machinery app.status.inventory desired))
