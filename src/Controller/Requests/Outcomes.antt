-- ===== src/Controller/Requests/Outcomes.antt =====
-- How `Apply` ends (internal/apply/apply.go).
use cabure.Base.{
  ◌≡◌, refl, Bool, List, [], ◌∷◌, ◌++◌, Result, ok, err, Result-cases, inl, inr, Error, wrap,
  if◌then◌else◌, ◌==◌, list_eq, nat_eq,
}
use cabure.Text.{Text, codes}
use cabure.Api.{Object, Mapping}
use cabure.Apply.{mapping_of, default_field_manager, object_label}
use cabure.Outside.{Outside}
use cabure.Effects.{Call, applied}
use cabure.Controller.Prune.{request_namespace}
use cabure.Controller.Requests.{apply_object, apply_loop, apply_objects}

module _ (c : Outside) (manager : Text) (force : Bool) where
  -- The request for an object under a mapping, and the server's answer to it.
  abbrev pub request : Object → Text → Mapping → Call
  request obj patch mapping =
      applied mapping.resource (request_namespace mapping.scope obj.namespace) obj.name patch
        manager force

  abbrev pub answer : Object → Text → Mapping → c.State → Result (Unit {0}) × c.State
  answer obj patch mapping =
      c.patch_object mapping.resource (request_namespace mapping.scope obj.namespace) obj.name patch
        manager force

  -- The calls, the result and the last state of applying objects from a state: a request for the first, and
  -- once the server has accepted it, those for the others; an object that has no JSON or no mapping, or
  -- whose request is refused, ends the run with an error.
  pub data Applies : List Object → c.State → List Call → Result (Unit {0}) → c.State → Type 0 where
    done : (s : c.State) → Applies [] s [] (ok tt) s
    accepted :
        {obj : Object} {objects : List Object} {s t : c.State} {calls : List Call}
        {result : Result (Unit {0})} (patch : Text) (mapping : Mapping)
        → c.machinery.marshal obj ≡ ok patch
        → mapping_of c.machinery obj ≡ ok mapping
        → (answer obj patch mapping s).0 ≡ ok tt
        → Applies objects (answer obj patch mapping s).1 calls result t
        → Applies (obj ∷ objects) s (request obj patch mapping ∷ calls) result t
    not_encoded :
        {obj : Object} {objects : List Object} {s : c.State} (e : Error)
        → c.machinery.marshal obj ≡ err e
        → Applies (obj ∷ objects) s [] (err e) s
    not_mapped :
        {obj : Object} {objects : List Object} {s : c.State} (patch : Text) (e : Error)
        → c.machinery.marshal obj ≡ ok patch
        → mapping_of c.machinery obj ≡ err e
        → Applies (obj ∷ objects) s [] (err e) s
    rejected :
        {obj : Object} {objects : List Object} {s : c.State} (patch : Text) (mapping : Mapping)
        (e : Error)
        → c.machinery.marshal obj ≡ ok patch
        → mapping_of c.machinery obj ≡ ok mapping
        → (answer obj patch mapping s).0 ≡ err e
        → Applies
            (obj ∷ objects)
            s
            (request obj patch mapping ∷ [])
            (err (wrap (object_label c.machinery obj ++ codes ": apply: ") e))
            (answer obj patch mapping s).1

  -- How one round ends.
  accepted_round :
      (obj : Object) (patch : Text) (mapping : Mapping) (s : c.State)
      → c.machinery.marshal obj ≡ ok patch
      → mapping_of c.machinery obj ≡ ok mapping
      → (answer obj patch mapping s).0 ≡ ok tt
      → apply_object c manager force obj s ≡ record {
        result = ok tt;
        calls = request obj patch mapping ∷ [];
        state = (answer obj patch mapping s).1;
      }
  unfolding apply_object
  accepted_round obj patch mapping s h g k = rw (h, g, k) refl

  rejected_round :
      (obj : Object) (patch : Text) (mapping : Mapping) (s : c.State) (e : Error)
      → c.machinery.marshal obj ≡ ok patch
      → mapping_of c.machinery obj ≡ ok mapping
      → (answer obj patch mapping s).0 ≡ err e
      → apply_object c manager force obj s ≡ record {
        result = err (wrap (object_label c.machinery obj ++ codes ": apply: ") e);
        calls = request obj patch mapping ∷ [];
        state = (answer obj patch mapping s).1;
      }
  unfolding apply_object
  rejected_round obj patch mapping s e h g k = rw (h, g, k) refl

  unmapped_round :
      (obj : Object) (patch : Text) (s : c.State) (e : Error)
      → c.machinery.marshal obj ≡ ok patch
      → mapping_of c.machinery obj ≡ err e
      → apply_object c manager force obj s ≡ record { result = err e; calls = []; state = s }
  unfolding apply_object
  unmapped_round obj patch s e h g = rw (h, g) refl

  unencoded_round :
      (obj : Object) (s : c.State) (e : Error)
      → c.machinery.marshal obj ≡ err e
      → apply_object c manager force obj s ≡ record { result = err e; calls = []; state = s }
  unfolding apply_object
  unencoded_round obj s e h = rw h refl

  apply_loop-Applies :
      (objects : List Object) (s : c.State)
      → Applies objects s
          (apply_loop c manager force objects s).calls
          (apply_loop c manager force objects s).result
          (apply_loop c manager force objects s).state
  unfolding apply_loop
  apply_loop-Applies [] s = done s
  apply_loop-Applies (obj ∷ objects) s = elim (Result-cases (c.machinery.marshal obj)) [
    | inr (e, h) ↦ let q = unencoded_round obj s e h in rw (q, q) (not_encoded e h)
    | inl (patch, h) ↦ elim (Result-cases (mapping_of c.machinery obj)) [
      | inr (e, g) ↦ let q = unmapped_round obj patch s e h g in rw (q, q) (not_mapped patch e h g)
      | inl (mapping, g) ↦ elim (Result-cases (answer obj patch mapping s).0) [
        | inr (e, k) ↦
            let q = rejected_round obj patch mapping s e h g k in
            rw (q, q) (rejected patch mapping e h g k)
        | inl (_, k) ↦
            let q = accepted_round obj patch mapping s h g k in
            rw (q, q)
              (accepted patch mapping h g k
                (apply_loop-Applies objects (answer obj patch mapping s).1))
      ]
    ]
  ]

-- `Apply` makes one request for each object, in order, with the given manager or the default one, each from the
-- state that the one before left, and goes on only while the server accepts them. It succeeds when all are
-- accepted; the first object that cannot be encoded or mapped, or is refused, ends it with that error,
-- and nothing is asked for after it.
pub apply_objects-Applies :
    (c : Outside) (objects : List Object) (manager : Text) (force : Bool) (s : c.State)
    → Applies c
        (if manager == [] then default_field_manager else manager)
        force
        objects
        s
        (apply_objects c objects manager force s).calls
        (apply_objects c objects manager force s).result
        (apply_objects c objects manager force s).state
unfolding apply_objects
apply_objects-Applies c objects manager force s =
    apply_loop-Applies c (if manager == [] then default_field_manager else manager) force objects s
