-- ===== src/Apply/Ordering.antt =====
-- The order in which objects are applied and references recorded.
use cabure.Base.{
  map, sym, ℕ, ◌≡◌, refl, Bool, false, Result, err, Option, none, some, List, [], ◌∷◌, arith, ok,
  ltb, ◌==◌, nat_eq, list_eq, ==_iff, select, count, ap, ◌∙◌, ◌&&◌, ◌++◌, ◌≤◌, All, All-map,
}
use cabure.Base.Sort.{IsSorted, IsWeakOrder}
use cabure.Base.Sort.Laws.{sort-IsSorted, select-sort, count-sort}
use cabure.Text.{Text, codes, text_lt}
use cabure.Text.Order.{by_key-IsWeakOrder}
use cabure.Api.{Machinery, Object, ResourceReference, Mapping, reference_eq, key}
use cabure.Inventory.{key_lt}
use cabure.Inventory.Normal.{key_lt-IsWeakOrder}
use cabure.Apply.{
  Policy, ensure_metadata, resource_reference_for, priority_lt, objects_of, references_of,
  normalize_and_validate, apply_priority, with_manager, mapping_of,
}
use cabure.Apply.Stages.{stage_of, apply_priority-stage}
use cabure.Apply.Admission.{place_namespace-IsPlaced}
use cabure.Apply.Steps.{Round, Rounds, normalize_and_validate-Rounds}

ltb-IsWeakOrder : IsWeakOrder ltb
ltb-IsWeakOrder = record { asym = λ a b h. ground arith; neg_trans = λ a b c h k. ground arith }

priority_lt-IsWeakOrder : (m : Machinery) → IsWeakOrder (priority_lt m)
priority_lt-IsWeakOrder m =
    by_key-IsWeakOrder ltb (λ (o : Object). apply_priority o.kind) ltb-IsWeakOrder

-- The objects that are not nil.
abbrev pub present : List (Option Object) → List Object
present [] = []
present (none ∷ objects) = present objects
present (some o ∷ objects) = o ∷ present objects

-- What identifies an object in the cluster, but for its namespace.
abbrev pub Identity : Type 0
Identity = Text × Text × Text

abbrev pub identity : Object → Identity
identity o = (o.api_version, o.kind, o.name)

-- Whether the object is recorded by this reference.
abbrev pub recorded_at : ResourceReference → Object → Result Mapping → Bool
recorded_at r o (ok mapping) =
    r.group == mapping.resource.group
    && (r.version == mapping.resource.version
        && (r.kind == o.kind && (r.namespace == o.namespace && r.name == o.name)))
recorded_at r o (err _) = false

abbrev pub is_recorded_by : Machinery → ResourceReference → Object → Bool
is_recorded_by m r o = recorded_at r o (mapping_of m o)

count-cons :
    {A B : Type 0} (p : A → Bool) (q : B → Bool) (x : A) (y : B) (xs : List A) (ys : List B)
    → p x ≡ q y
    → count p xs ≡ count q ys
    → count p (x ∷ xs) ≡ count q (y ∷ ys)
count-cons p q x y xs ys e h = ground arith

-- References are compared field by field.
recorded_at-fields :
    (q : ResourceReference) (o : Object) (mapping : Mapping)
    → recorded_at q o (ok mapping) ≡ (q == resource_reference_for mapping.resource o)
unfolding resource_reference_for
recorded_at-fields q o mapping =
    let r = resource_reference_for mapping.resource o in
    ground (
      arith,
      ==_iff q r,
      ==_iff q.group r.group,
      ==_iff q.version r.version,
      ==_iff q.kind r.kind,
      ==_iff q.namespace r.namespace,
      ==_iff q.name r.name,
    )

-- The text by which references are ordered.
abbrev pub sort_text : Machinery → ResourceReference → Text
sort_text m r =
    m.gvk_string r.group r.version r.kind ++ (codes "/" ++ (r.namespace ++ (codes "/" ++ r.name)))

-- Each object stands before those of its stage and of later ones.
abbrev pub InStages : List Object → Type 0
InStages [] = Unit
InStages (o ∷ objects) = All (λ o'. stage_of o.kind ≤ stage_of o'.kind) objects × InStages objects

IsSorted-InStages :
    (m : Machinery) (objects : List Object) → IsSorted (priority_lt m) objects → InStages objects
IsSorted-InStages m [] h = tt
IsSorted-InStages m (o ∷ objects) h = (
  All-map _ _ objects
      (λ o' k. ground (arith, k, apply_priority-stage o.kind, apply_priority-stage o'.kind)) h.0,
  IsSorted-InStages m objects h.1,
)

module _ (m : Machinery) (policy : Policy) where
  Round-identity :
      (obj o : Object) (r : ResourceReference) → Round m policy obj o r → identity o ≡ identity obj
  unfolding ensure_metadata
  Round-identity obj o r c =
      let placed = place_namespace-IsPlaced m policy obj c.placed c.mapping.scope c.scoped c.put in
      ground (arith, placed.1, placed.2, placed.3)

  Round-recorded :
      (obj o : Object) (r q : ResourceReference)
      → Round m policy obj o r
      → is_recorded_by m q o ≡ (q == r)
  unfolding ensure_metadata
  Round-recorded obj o r q c =
      let marked = ensure_metadata c.placed policy in
      let placed = place_namespace-IsPlaced m policy obj c.placed c.mapping.scope c.scoped c.put in
      let mapped : mapping_of m marked ≡ ok c.mapping = rw (placed.2, placed.3) c.mapped in
      ap (is_recorded_by m q) c.object
      ∙ ap (recorded_at q marked) mapped
      ∙ recorded_at-fields q marked c.mapping
      ∙ ap (λ x. q == x) (sym c.reference)

  Rounds-identity :
      (p : ℕ) (objects : List (Option Object)) (done : List (Object × ResourceReference))
      → Rounds m policy objects done
      → map identity (select (λ o. stage_of o.kind == p) (objects_of m done))
        ≡ map identity (select (λ o. stage_of o.kind == p) (present objects))
  Rounds-identity p [] [] h = refl
  Rounds-identity p [] (d ∷ done) h = absurd h
  Rounds-identity p (obj ∷ objects) [] h = absurd h
  Rounds-identity p (none ∷ objects) (d ∷ done) h = absurd h
  Rounds-identity p (some obj ∷ objects) ((o, r) ∷ done) h =
      ground (arith, Round-identity obj o r h.0, Rounds-identity p objects done h.1)

  Rounds-recorded :
      (q : ResourceReference) (objects : List (Option Object))
      (done : List (Object × ResourceReference))
      → Rounds m policy objects done
      → count (λ r. q == r) (references_of m done) ≡ count (is_recorded_by m q) (objects_of m done)
  Rounds-recorded q [] [] h = refl
  Rounds-recorded q [] (d ∷ done) h = absurd h
  Rounds-recorded q (obj ∷ objects) [] h = absurd h
  Rounds-recorded q (none ∷ objects) (d ∷ done) h = absurd h
  Rounds-recorded q (some obj ∷ objects) ((o, r) ∷ done) h =
      count-cons (λ r'. q == r') (is_recorded_by m q) r o (references_of m done) (objects_of m done)
        (sym (Round-recorded obj o r q h.0)) (Rounds-recorded q objects done h.1)

module _ (m : Machinery) (objects : List (Option Object)) (policy : Policy) {out : List Object}
    {refs : List ResourceReference}
    (accepted : normalize_and_validate m objects policy ≡ ok (out, refs)) where
  -- The objects come in the order of the stages: namespaces, custom resource definitions, service accounts,
  -- config maps and secrets, roles, their bindings, services, volume claims, workloads, ingresses, and then
  -- all others; and those of one stage are those that were rendered, in their order.
  pub normalize_and_validate-ordered :
      InStages out
      × ((p : ℕ)
          → map identity (select (λ o. stage_of o.kind == p) out)
            ≡ map identity (select (λ o. stage_of o.kind == p) (present objects)))
  normalize_and_validate-ordered =
      let (done, rounds, sorted, _) = normalize_and_validate-Rounds m objects policy accepted in
      rw sorted (
        IsSorted-InStages m _
            (sort-IsSorted (priority_lt m) (priority_lt-IsWeakOrder m) (objects_of m done)),
        λ p.
            ap (map identity) (
              select-sort (priority_lt m) (λ o. stage_of o.kind == p)
                (λ a b pa pb.
                  ground (arith, apply_priority-stage a.kind, apply_priority-stage b.kind))
                (objects_of m done))
            ∙ Rounds-identity m (with_manager policy) p objects done rounds,
      )

  -- The references record the objects to apply: each reference is there as often as there are objects with
  -- its kind, namespace and name whose resource has its group and version. They come in the order of
  -- the texts of their group, version and kind, then a slash, the namespace, a slash, and the name.
  pub normalize_and_validate-recorded :
      IsSorted (λ a b. text_lt (sort_text m a) (sort_text m b)) refs
      × ((r : ResourceReference) → count (λ q. r == q) refs ≡ count (is_recorded_by m r) out)
  unfolding key
  normalize_and_validate-recorded =
      let (done, rounds, sorted, recorded) =
        normalize_and_validate-Rounds m objects policy accepted in
      (
        rw recorded (sort-IsSorted (key_lt m) (key_lt-IsWeakOrder m) (references_of m done)),
        λ r.
            ap (count (λ q. r == q)) recorded
            ∙ count-sort (key_lt m) (λ q. r == q) (references_of m done)
            ∙ Rounds-recorded m (with_manager policy) r objects done rounds
            ∙ sym (count-sort (priority_lt m) (is_recorded_by m r) (objects_of m done))
            ∙ ap (count (is_recorded_by m r)) (sym sorted),
      )
