-- ===== src/Api.antt =====
-- The objects of the Kubernetes API as the program sees them: references, unstructured objects and
-- REST mappings (api/v1alpha1/gitapplication_types.go), and what apimachinery answers about them.
pub mod Key
pub mod Types
pub mod Memory
use cabure.Base.{ℕ, ◌≡◌, Option, List, ◌++◌, ◌∷◌, arith, Eq, list_eq, nat_eq, Result, ℕ_discrete}
use cabure.Base.Dict.{Dict}
use cabure.Text.{Text}

-- `ResourceReference`
pub record ResourceReference : Type 0 where
  pub group : Text
  pub version : Text
  pub kind : Text
  pub namespace : Text
  pub name : Text

-- `schema.GroupVersionKind` and `schema.GroupVersionResource`
pub record Gvk : Type 0 where
  pub group : Text
  pub version : Text
  pub kind : Text

pub record Gvr : Type 0 where
  pub group : Text
  pub version : Text
  pub resource : Text

-- `meta.RESTScopeNameNamespace` and `meta.RESTScopeNameRoot`
pub data Scope : Type 0 where
  namespaced root : Scope

-- `meta.RESTMapping`
pub record Mapping : Type 0 where
  pub resource : Gvr
  pub scope : Scope

-- `unstructured.Unstructured`, by what its accessors return: an absent text is empty and an absent
-- map has no entries. `rest` stands for the other fields, which the program only passes on.
pub record Object : Type 0 where
  pub api_version : Text
  pub kind : Text
  pub name : Text
  pub generate_name : Option Text
  pub namespace : Text
  pub labels : Dict Text Text
  pub annotations : Dict Text Text
  pub rest : Text

-- What the program calls of k8s.io/apimachinery, of its RESTMapper, and of encoding/json at an
-- object. The mapper answers alike throughout a reconciliation.
pub record Machinery : Type 0 where
  -- `GroupVersionKind.String()` of a group, a version and a kind
  pub gvk_string : Text → Text → Text → Text
  -- `GroupKind.String()` of a group and a kind
  pub group_kind_string : Text → Text → Text
  -- `Unstructured.GroupVersionKind()` of an apiVersion and a kind
  pub object_gvk : Text → Text → Gvk
  -- `RESTMapper.RESTMapping` of a group, a kind and a version
  pub rest_mapping : Text → Text → Text → Result Mapping
  -- `json.Marshal(obj.Object)`
  pub marshal : Object → Result Text
  -- `validation.IsDNS1123Label`: the complaints
  pub dns1123_label_errors : Text → List Text

reference_dec : Discrete ResourceReference
reference_dec = hlevel ℕ_discrete

instance unfoldable pub reference_eq : Eq ResourceReference
unfolding reference_dec
reference_eq = record { dec = reference_dec }

-- `ResourceReference.Key`
unfoldable pub key : Machinery → ResourceReference → Text
key m r = m.gvk_string r.group r.version r.kind ++ (b'/' ∷ (r.namespace ++ (b'/' ∷ r.name)))
