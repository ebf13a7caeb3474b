-- ===== src/Controller/Requests/InOrder.antt =====
-- The apply requests that `Apply` makes (internal/apply/apply.go).
use cabure.Base.{
  ◌≡◌, refl, ◌⊎◌, Bool, List, [], ◌∷◌, ◌++◌, ok, err, Result-cases, inl, inr, ap, Error,
  if◌then◌else◌, ◌==◌, list_eq, nat_eq,
}
use cabure.Text.{Text}
use cabure.Api.{Object, Mapping}
use cabure.Apply.{mapping_of, default_field_manager}
use cabure.Outside.{Outside}
use cabure.Effects.{Call, applied, Outcome}
use cabure.Controller.Prune.{request_namespace}
use cabure.Controller.Requests.{apply_object, apply_loop, apply_objects}

module _ (c : Outside) (manager : Text) (force : Bool) where
  -- The server-side apply request for an object: its JSON, at the resource of its mapping.
  pub data IsRequest (obj : Object) : Call → Type 0 where
    asks :
        (patch : Text) (mapping : Mapping)
        → c.machinery.marshal obj ≡ ok patch
        → mapping_of c.machinery obj ≡ ok mapping
        → IsRequest obj (
            applied mapping.resource
              (request_namespace mapping.scope obj.namespace)
              obj.name
              patch
              manager
              force)

  -- One request for each object, in order.
  pub data Requests : List Object → List Call → Type 0 where
    done : Requests [] []
    next :
        {obj : Object} {objects : List Object} {call : Call} {calls : List Call}
        → IsRequest obj call
        → Requests objects calls
        → Requests (obj ∷ objects) (call ∷ calls)

  -- How far a run of the loop came: to the end if it succeeds.
  pub record Progress (objects : List Object) (o : Outcome c.State (Unit {0})) : Type 0 where
    pub requested : List Object
    pub left : List Object
    pub split : objects ≡ requested ++ left
    pub requests : Requests requested o.calls
    pub complete : (left ≡ []) ⊎ ((e : Error) × (o.result ≡ err e))

  -- One round makes at most the request for its object, and makes it if it succeeds.
  pub data Step (obj : Object) (o : Outcome c.State (Unit {0})) : Type 0 where
    asked : (call : Call) → o.calls ≡ call ∷ [] → IsRequest obj call → Step obj o
    gave_up : (e : Error) → o.calls ≡ [] → o.result ≡ err e → Step obj o

  apply_object-Step : (obj : Object) (s : c.State) → Step obj (apply_object c manager force obj s)
  unfolding apply_object
  apply_object-Step obj s = elim (Result-cases (c.machinery.marshal obj)) [
    | inr (e, h) ↦ gave_up e (rw h refl) (rw h refl)
    | inl (patch, h) ↦ elim (Result-cases (mapping_of c.machinery obj)) [
      | inr (e, g) ↦ gave_up e (rw (h, g) refl) (rw (h, g) refl)
      | inl (mapping, g) ↦
          asked
            (applied mapping.resource (request_namespace mapping.scope obj.namespace) obj.name patch
              manager force)
            (elim (Result-cases
              (c.patch_object mapping.resource (request_namespace mapping.scope obj.namespace)
                obj.name patch manager force s).0) [
                  | inl (u, k) ↦ rw (h, g, k) refl
                  | inr (e, k) ↦ rw (h, g, k) refl
                ])
            (asks patch mapping h g)
    ]
  ]

  -- A round that fails, and that ends the loop.
  stopped :
      (obj : Object) (objects : List Object) (s : c.State) (e : Error)
      → (apply_object c manager force obj s).result ≡ err e
      → Step obj (apply_object c manager force obj s)
      → Progress (obj ∷ objects) (apply_loop c manager force (obj ∷ objects) s)
  unfolding apply_loop
  stopped obj objects s e h (asked call made r) = record {
    requested = obj ∷ [];
    left = objects;
    split = refl;
    requests = rw (h, made) (next r done);
    complete = inr (e, rw h refl);
  }
  stopped obj objects s e h (gave_up e' made f) = record {
    requested = [];
    left = obj ∷ objects;
    split = refl;
    requests = rw (h, made) done;
    complete = inr (e, rw h refl);
  }

  continued :
      (obj : Object) (objects : List Object) (s : c.State)
      → (apply_object c manager force obj s).result ≡ ok tt
      → Step obj (apply_object c manager force obj s)
      → Progress objects
          (apply_loop c manager force objects (apply_object c manager force obj s).state)
      → Progress (obj ∷ objects) (apply_loop c manager force (obj ∷ objects) s)
  unfolding apply_loop
  continued obj objects s h (asked call made r) p = record {
    requested = obj ∷ p.requested;
    left = p.left;
    split = ap (obj ∷◌) p.split;
    requests = rw (h, made) (next r p.requests);
    complete = rw h p.complete;
  }
  continued obj objects s h (gave_up e made f) p = absurd cc

  apply_loop-Progress :
      (objects : List Object) (s : c.State)
      → Progress objects (apply_loop c manager force objects s)
  unfolding apply_loop
  apply_loop-Progress [] s = record {
    requested = [];
    left = [];
    split = refl;
    requests = done;
    complete = inl refl;
  }
  apply_loop-Progress (obj ∷ objects) s =
      elim (Result-cases (apply_object c manager force obj s).result) [
        | inl (u, h) ↦
            continued obj objects s h (apply_object-Step obj s)
              (apply_loop-Progress objects (apply_object c manager force obj s).state)
        | inr (e, h) ↦ stopped obj objects s e h (apply_object-Step obj s)
      ]

-- `Apply` asks for the first of the objects, in order, one request for each, with the given manager or the
-- default one; if it returns no error, every object was asked for.
pub apply_objects-in_order :
    (c : Outside) (objects : List Object) (manager : Text) (force : Bool) (s : c.State)
    → Progress c
        (if manager == [] then default_field_manager else manager)
        force
        objects
        (apply_objects c objects manager force s)
unfolding apply_objects
apply_objects-in_order c objects manager force s =
    apply_loop-Progress c (if manager == [] then default_field_manager else manager) force objects s
