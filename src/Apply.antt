-- ===== src/Apply.antt =====
-- internal/apply/apply.go up to the call of the API server: what is rendered is checked,
-- completed and put in order.
pub mod Priority
pub mod Steps
pub mod Admission
pub mod Stages
pub mod Ordering
pub mod Refusal
use cabure.Base.{
  ℕ, ◌+◌, Bool, true, false, not, ◌&&◌, ◌||◌, Option, none, some, List, [], ◌∷◌, ◌++◌, ◌==◌,
  contains, list_eq, nat_eq, if◌then◌else◌, ltb, is_empty, length, Result, ok, err, ◌>>=◌, ◌>>◌,
  errorf, wrap, require,
}
use cabure.Base.Sort.{sort}
use cabure.Base.Dict.{insert}
use cabure.Text.{Text, codes, to_lower}
use cabure.Text.Format.{decimal, quoted}
use cabure.Api.{
  Machinery, Object, ResourceReference, Gvr, Gvk, Mapping, Scope, namespaced, root, key,
}
use cabure.Inventory.{key_lt}

abbrev pub managed_by_label : Text
managed_by_label = codes "app.kubernetes.io/managed-by"

abbrev pub managed_by_value : Text
managed_by_value = codes "tiny-gitops"

abbrev pub application_uid_anno : Text
application_uid_anno = codes "gitops.cabure.io/application-uid"

abbrev pub source_revision_anno : Text
source_revision_anno = codes "gitops.cabure.io/source-revision"

abbrev pub default_field_manager : Text
default_field_manager = codes "tiny-gitops-controller"

abbrev pub max_object_size_bytes : ℕ
max_object_size_bytes = 1048576

-- The keys of the map `supportedClusterScopedKinds`.
abbrev pub supported_cluster_scoped_kinds : List Text
supported_cluster_scoped_kinds =
    codes "namespace"
    ∷ codes "customresourcedefinition"
    ∷ codes "clusterrole"
    ∷ codes "clusterrolebinding"
    ∷ []

-- `Policy`
pub record Policy : Type 0 where
  pub destination_namespace : Text
  pub application_uid : Text
  pub source_revision : Text
  pub allow_cluster_scoped : Bool
  pub allowed_cluster_scoped_kinds : List Text
  pub force_apply : Bool
  pub field_manager : Text

-- `if policy.FieldManager == "" { policy.FieldManager = DefaultFieldManager }`
abbrev pub with_manager : Policy → Policy
with_manager policy = record policy {
  field_manager =
      if policy.field_manager == [] then default_field_manager else policy.field_manager;
}

-- `IsSupportedClusterScopedKind`
unfoldable pub is_supported_cluster_scoped_kind : Text → Bool
is_supported_cluster_scoped_kind kind = contains supported_cluster_scoped_kinds (to_lower kind)

-- The loop of `clusterScopedKindAllowed`.
allowed_among : Text → List Text → Bool
allowed_among candidate [] = false
allowed_among candidate (item ∷ rest) =
    let more = allowed_among candidate rest in
    if to_lower item == candidate then is_supported_cluster_scoped_kind candidate else more

-- `clusterScopedKindAllowed`
unfoldable pub cluster_scoped_kind_allowed : Text → List Text → Bool
unfolding allowed_among is_supported_cluster_scoped_kind
cluster_scoped_kind_allowed kind allowed =
    if is_empty allowed then false else allowed_among (to_lower kind) allowed

-- The switch of `ApplyPriority`, at the kind in lower case.
unfoldable pub priority_of : Text → ℕ
priority_of k =
    if k == codes "namespace"
    then 0
    else if k == codes "customresourcedefinition"
    then 1
    else if k == codes "serviceaccount"
    then 2
    else if k == codes "configmap" || k == codes "secret"
    then 3
    else if k == codes "role" || k == codes "clusterrole"
    then 4
    else if k == codes "rolebinding" || k == codes "clusterrolebinding"
    then 5
    else if k == codes "service"
    then 6
    else if k == codes "persistentvolumeclaim"
    then 7
    else if k == codes "deployment"
        || k == codes "statefulset"
        || k == codes "daemonset"
        || k == codes "job"
        || k == codes "cronjob"
    then 8
    else if k == codes "ingress"
    then 9
    else 10

-- `ApplyPriority`
unfoldable pub apply_priority : Text → ℕ
unfolding priority_of
apply_priority kind = priority_of (to_lower kind)

-- `basicValidate`
unfoldable pub basic_validate : Object → Result (Unit {0})
basic_validate obj =
    if obj.api_version == [] || obj.kind == []
    then err (errorf (codes "missing apiVersion or kind"))
    else if obj.name == []
    then elim obj.generate_name [
      | some _ ↦ err (errorf (codes "generateName without name is not allowed"))
      | none ↦ err (errorf (codes "metadata.name is required"))
    ]
    else ok tt

-- `ensureMetadata`
unfoldable pub ensure_metadata : Object → Policy → Object
ensure_metadata obj policy = record obj {
  labels = insert managed_by_label managed_by_value obj.labels;
  annotations =
      insert source_revision_anno policy.source_revision
        (insert application_uid_anno policy.application_uid obj.annotations);
}

-- `resourceReferenceFor`
unfoldable pub resource_reference_for : Gvr → Object → ResourceReference
resource_reference_for res obj = record {
  group = res.group;
  version = res.version;
  kind = obj.kind;
  namespace = obj.namespace;
  name = obj.name;
}

-- The text before an error at the object of this index.
object_prefix : ℕ → Text
object_prefix idx = codes "object " ++ (decimal (idx + 1) ++ codes ": ")

slash : Text → Text → Text
slash a b = a ++ (b'/' ∷ b)

module _ (m : Machinery) where
  -- `sizeCheck`
  unfoldable pub size_check : Object → Result (Unit {0})
  size_check obj = elim (m.marshal obj) [
    | err e ↦ err e
    | ok raw ↦
        if ltb max_object_size_bytes (length raw)
        then err (
            errorf
              (codes "object exceeds size limit (" ++ (decimal (length raw) ++ codes " bytes)")))
        else ok tt
  ]

  -- `obj.GroupVersionKind()`, and its mapping.
  abbrev pub gvk_of : Object → Gvk
  gvk_of obj = m.object_gvk obj.api_version obj.kind

  abbrev pub mapping_of : Object → Result Mapping
  mapping_of obj = m.rest_mapping (gvk_of obj).group (gvk_of obj).kind (gvk_of obj).version

  -- `%s/%s` of the kind and the name, in errors about an object.
  unfoldable pub object_label : Object → Text
  unfolding slash
  object_label obj = slash (gvk_of obj).kind obj.name

  discovery_prefix : Object → Text
  unfolding slash
  discovery_prefix obj =
      slash (m.group_kind_string (gvk_of obj).group (gvk_of obj).kind) obj.name
      ++ codes ": discovery: "

  -- The two tests on a cluster-scoped object.
  unfoldable pub check_scope : Policy → Object → Scope → Result (Unit {0})
  unfolding object_label
  check_scope policy obj namespaced = ok tt
  check_scope policy obj root =
      if not policy.allow_cluster_scoped
      then err (errorf (object_label obj ++ codes ": cluster-scoped resources are disabled"))
      else if not
          (cluster_scoped_kind_allowed (gvk_of obj).kind policy.allowed_cluster_scoped_kinds)
      then err (
          errorf (
            object_label obj
            ++ (codes ": cluster-scoped kind "
                ++ (quoted (gvk_of obj).kind ++ codes " is not allowed"))))
      else ok tt

  -- The namespace that an object is given, or the refusal of the one that it has.
  unfoldable pub place_namespace : Policy → Object → Scope → Result Object
  unfolding object_label
  place_namespace policy obj root = ok (record obj { namespace = [] })
  place_namespace policy obj namespaced =
      if obj.namespace == []
      then ok (record obj { namespace = policy.destination_namespace })
      else if not (obj.namespace == policy.destination_namespace)
      then err (
          errorf (
            object_label obj
            ++ (codes ": namespace "
                ++ (quoted obj.namespace
                    ++ (codes " is outside destination namespace "
                        ++ quoted policy.destination_namespace)))))
      else ok obj

  -- `return nil, nil, fmt.Errorf("…: %w", err)`
  abbrev pub wrapped {ℓ} : {A : Type ℓ} → Text → Result A → Result A
  wrapped text (ok a) = ok a
  wrapped text (err e) = err (wrap text e)

  -- One round of the loop of `NormalizeAndValidate`, at the object of this index.
  unfoldable pub normalize_one : Policy → ℕ → Object → Result (Object × ResourceReference)
  unfolding object_prefix discovery_prefix object_label
  normalize_one policy idx obj = do
    wrapped (object_prefix idx) (basic_validate obj)
    mapping ← wrapped (discovery_prefix obj) (mapping_of obj)
    check_scope policy obj mapping.scope
    placed ← place_namespace policy obj mapping.scope
    let marked = ensure_metadata placed policy
    wrapped (object_label obj ++ codes ": ") (size_check marked)
    ok (marked, resource_reference_for mapping.resource marked)

  -- The loop of `NormalizeAndValidate`. A nil pointer is `none`.
  unfoldable pub normalize_loop :
      Policy → ℕ → List (Option Object) → Result (List (Object × ResourceReference))
  unfolding normalize_one
  normalize_loop policy idx [] = ok []
  normalize_loop policy idx (none ∷ objects) =
      err (errorf (object_prefix idx ++ codes "nil object"))
  normalize_loop policy idx (some obj ∷ objects) = do
    done ← normalize_one policy idx obj
    rest ← normalize_loop policy (idx + 1) objects
    ok (done ∷ rest)

  -- `applyPriority(out[i]) < applyPriority(out[j])`
  abbrev pub priority_lt : Object → Object → Bool
  priority_lt a b = ltb (apply_priority a.kind) (apply_priority b.kind)

  abbrev pub objects_of : List (Object × ResourceReference) → List Object
  objects_of [] = []
  objects_of ((o, r) ∷ l) = o ∷ objects_of l

  abbrev pub references_of : List (Object × ResourceReference) → List ResourceReference
  references_of [] = []
  references_of ((o, r) ∷ l) = r ∷ references_of l

  -- `NormalizeAndValidate`
  unfoldable pub normalize_and_validate :
      List (Option Object) → Policy → Result (List Object × List ResourceReference)
  unfolding normalize_loop sort
  normalize_and_validate objects policy = do
    done ← normalize_loop (with_manager policy) 0 objects
    ok (sort priority_lt (objects_of done), sort (key_lt m) (references_of done))
