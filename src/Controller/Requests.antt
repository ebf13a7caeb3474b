-- ===== src/Controller/Requests.antt =====
-- `Apply` (internal/apply/apply.go): one server-side apply request for each object.
pub mod InOrder
pub mod Outcomes
use cabure.Base.{
  ℕ, Bool, true, false, Option, none, some, List, [], ◌∷◌, ◌++◌, ◌==◌, list_eq, nat_eq,
  if◌then◌else◌, Result, ok, err, wrap,
}
use cabure.Text.{Text, codes}
use cabure.Api.{Object, Mapping, Scope}
use cabure.Apply.{mapping_of, default_field_manager, object_label}
use cabure.Outside.{Outside}
use cabure.Effects.{M, Call, applied, return, throw, lift, perform, attempt, ◌>>=◌, ◌>>◌}
use cabure.Controller.Prune.{request_namespace}

module _ (c : Outside) (manager : Text) (force : Bool) where
  -- One round of the loop.
  unfoldable pub apply_object : Object → M c.State (Unit {0})
  unfolding object_label
  apply_object obj = do
    patch ← lift (c.machinery.marshal obj)
    mapping ← lift (mapping_of c.machinery obj)
    let ns = request_namespace mapping.scope obj.namespace
    attempt
        (perform (applied mapping.resource ns obj.name patch manager force)
          (c.patch_object mapping.resource ns obj.name patch manager force))
        (λ e. throw (wrap (object_label c.machinery obj ++ codes ": apply: ") e)) return

  -- The loop of `Apply`.
  unfoldable pub apply_loop : List Object → M c.State (Unit {0})
  unfolding apply_object
  apply_loop [] = return tt
  apply_loop (obj ∷ objects) = do apply_object obj; apply_loop objects

-- `Apply`
unfoldable pub apply_objects : (c : Outside) → List Object → Text → Bool → M c.State (Unit {0})
unfolding apply_loop
apply_objects c objects manager force =
    apply_loop c (if manager == [] then default_field_manager else manager) force objects
