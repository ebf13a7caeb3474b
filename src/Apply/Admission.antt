-- ===== src/Apply/Admission.antt =====
-- What every object that `NormalizeAndValidate` lets through satisfies.
use cabure.Base.{
  ◌≡◌, ◌≢◌, ◌≤◌, refl, true, false, Option, none, some, List, [], ◌∷◌, arith, ok, All, All-map,
  length, ◌==◌, subst, sym, ◌∙◌, Result-cases, inl, inr, list_eq, nat_eq,
}
use cabure.Base.Dict.{lookup, lookup-insert_self, lookup-insert_ne}
use cabure.Base.Sort.Laws.{sort-All}
use cabure.Text.{Text}
use cabure.Api.{Machinery, Object, ResourceReference, Mapping, Scope, namespaced, root}
use cabure.Apply.{
  Policy, basic_validate, mapping_of, check_scope, place_namespace, ensure_metadata, size_check,
  with_manager, priority_lt, objects_of, normalize_and_validate, cluster_scoped_kind_allowed,
  managed_by_label, managed_by_value, application_uid_anno, source_revision_anno,
  max_object_size_bytes, gvk_of,
}
use cabure.Apply.Steps.{Round, Rounds, normalize_and_validate-Rounds}

module _ (m : Machinery) (policy : Policy) where
  -- A namespaced object is in the destination namespace. A cluster-scoped one has no namespace, and
  -- the operator and the application both allow its kind.
  abbrev pub IsPlaced : Object → Scope → Type 0
  IsPlaced o namespaced = o.namespace ≡ policy.destination_namespace
  IsPlaced o root =
      (o.namespace ≡ [])
      × (policy.allow_cluster_scoped ≡ true)
      × (cluster_scoped_kind_allowed (gvk_of m o).kind policy.allowed_cluster_scoped_kinds ≡ true)

  pub record IsAdmitted (o : Object) : Type 0 where
    pub named : o.name ≢ []
    pub managed : lookup managed_by_label o.labels ≡ some managed_by_value
    pub owned : lookup application_uid_anno o.annotations ≡ some policy.application_uid
    pub revised : lookup source_revision_anno o.annotations ≡ some policy.source_revision
    pub mapping : Mapping
    pub mapped : mapping_of m o ≡ ok mapping
    pub within : IsPlaced o mapping.scope
    pub raw : Text
    pub marshalled : m.marshal o ≡ ok raw
    pub small : length raw ≤ max_object_size_bytes

  keys_differ : (application_uid_anno == source_revision_anno) ≡ false
  unfolding list_eq nat_eq
  keys_differ = refl

  basic_validate-named : (o : Object) → basic_validate o ≡ ok tt → o.name ≢ []
  unfolding basic_validate
  basic_validate-named o h e = ground arith

  size_check-small :
      (o : Object)
      → size_check m o ≡ ok tt
      → (raw : Text) × (m.marshal o ≡ ok raw) × (length raw ≤ max_object_size_bytes)
  unfolding size_check
  size_check-small o h = elim (Result-cases (m.marshal o)) [
    | inl (raw, e) ↦ (raw, e, ground arith)
    | inr (e, f) ↦ absurd (ground arith)
  ]

  pub place_namespace-IsPlaced :
      (o placed : Object) (scope : Scope)
      → check_scope m policy o scope ≡ ok tt
      → place_namespace m policy o scope ≡ ok placed
      → IsPlaced placed scope
        × (placed.name ≡ o.name)
        × (placed.api_version ≡ o.api_version)
        × (placed.kind ≡ o.kind)
  unfolding check_scope place_namespace
  place_namespace-IsPlaced o placed namespaced h k = ground arith
  place_namespace-IsPlaced o placed root h k = ground arith

  ensure_metadata-IsPlaced :
      (o : Object) (scope : Scope) → IsPlaced o scope → IsPlaced (ensure_metadata o policy) scope
  unfolding ensure_metadata
  ensure_metadata-IsPlaced o namespaced h = h
  ensure_metadata-IsPlaced o root h = h

  Round-IsAdmitted :
      (obj o : Object) (r : ResourceReference) → Round m policy obj o r → IsAdmitted o
  unfolding ensure_metadata
  Round-IsAdmitted obj o r c =
      let placed = place_namespace-IsPlaced obj c.placed c.mapping.scope c.scoped c.put in
      let (raw, marshalled, small) = size_check-small (ensure_metadata c.placed policy) c.sized in
      subst IsAdmitted (sym c.object) (record {
        named = λ e. basic_validate-named obj c.valid (sym placed.1 ∙ e);
        managed = lookup-insert_self managed_by_label managed_by_value c.placed.labels;
        owned =
            lookup-insert_ne application_uid_anno source_revision_anno policy.source_revision _
              keys_differ
            ∙ lookup-insert_self application_uid_anno policy.application_uid c.placed.annotations;
        revised = lookup-insert_self source_revision_anno policy.source_revision _;
        mapping = c.mapping;
        mapped = rw (placed.2, placed.3) c.mapped;
        within = ensure_metadata-IsPlaced c.placed c.mapping.scope placed.0;
        raw = raw;
        marshalled = marshalled;
        small = small;
      })

  Rounds-IsAdmitted :
      (objects : List (Option Object)) (done : List (Object × ResourceReference))
      → Rounds m policy objects done
      → All IsAdmitted (objects_of m done)
  Rounds-IsAdmitted [] [] h = tt
  Rounds-IsAdmitted [] (d ∷ done) h = absurd h
  Rounds-IsAdmitted (obj ∷ objects) [] h = tt
  Rounds-IsAdmitted (none ∷ objects) (d ∷ done) h = absurd h
  Rounds-IsAdmitted (some obj ∷ objects) ((o, r) ∷ done) h =
      (Round-IsAdmitted obj o r h.0, Rounds-IsAdmitted objects done h.1)

within_any_manager :
    (m : Machinery) (policy : Policy) (o : Object) (scope : Scope)
    → IsPlaced m (with_manager policy) o scope
    → IsPlaced m policy o scope
within_any_manager m policy o namespaced h = h
within_any_manager m policy o root h = h

IsAdmitted-any_manager :
    (m : Machinery) (policy : Policy) (o : Object)
    → IsAdmitted m (with_manager policy) o
    → IsAdmitted m policy o
IsAdmitted-any_manager m policy o a = record {
  named = a.named;
  managed = a.managed;
  owned = a.owned;
  revised = a.revised;
  mapping = a.mapping;
  mapped = a.mapped;
  within = within_any_manager m policy o a.mapping.scope a.within;
  raw = a.raw;
  marshalled = a.marshalled;
  small = a.small;
}

-- Every object that is let through has a name and carries the marks of its application, lies in the
-- destination namespace or is of an allowed cluster-scoped kind, and is not too large.
pub normalize_and_validate-IsAdmitted :
    (m : Machinery) (objects : List (Option Object)) (policy : Policy) {out : List Object}
    {refs : List ResourceReference}
    → normalize_and_validate m objects policy ≡ ok (out, refs)
    → All (IsAdmitted m policy) out
normalize_and_validate-IsAdmitted m objects policy h =
    let (done, rounds, sorted, _) = normalize_and_validate-Rounds m objects policy h in
    rw sorted (
      sort-All (priority_lt m) (IsAdmitted m policy) (objects_of m done) (
        All-map _ _ (objects_of m done) (IsAdmitted-any_manager m policy)
          (Rounds-IsAdmitted m (with_manager policy) objects done rounds)))
