-- ===== src/Outside.antt =====
-- What the reconciler calls of the world outside: the API server, the clock, the checkout, the
-- file system, and the libraries that read YAML and render charts.
use cabure.Base.{ℕ, Bool, Option, List, Result}
use cabure.Base.Dict.{Dict}
use cabure.Text.{Text}
use cabure.Api.{Machinery, Gvr, Object}
use cabure.Api.Types.{GitApplication, Secret, Credentials}
use cabure.Values.{Entries}
use cabure.Base.{Error}

-- One call of the function that `filepath.WalkDir` is given.
pub record Visit : Type 0 where
  pub path : Text
  pub is_dir : Bool
  pub is_symlink : Bool
  pub walk_error : Option Error

-- `chart.CRD`
pub record CrdFile : Type 0 where
  pub filename : Text
  pub contents : Text

-- `chartutil.ReleaseOptions`; the revision is 1 and it is an installation.
pub record ReleaseOptions : Type 0 where
  pub name : Text
  pub namespace : Text

pub record Outside : Type 1 where
  -- Of the API server, the clock and the disk, all that operations depend on.
  pub State : Type 0
  pub machinery : Machinery
  -- `metav1.Now`
  pub now : State → ℕ
  -- `ctx.Err`
  pub context_error : State → Option Error × State
  -- `r.Get` of the application with this namespace and name
  pub get_application : Text → Text → State → Result GitApplication × State
  -- `r.Status().Patch(ctx, app, client.MergeFrom(base))` of a base and an application: what the
  -- server returns is decoded into the application
  pub patch_status : GitApplication → GitApplication → State → Result GitApplication × State
  -- Whether `r.Kube` is set
  pub has_secret_client : Bool
  -- `Secrets(namespace).Get`
  pub get_secret : Text → Text → State → Result Secret × State
  -- `RepositoryCheckoutter.Checkout`: the directory and the commit
  pub checkout : Text → Text → Option Credentials → State → Result (Text × Text) × State
  -- `Patch`, `Get` and `Delete` of the dynamic client
  pub patch_object :
      Gvr → Option Text → Text → Text → Text → Bool → State → Result (Unit {0}) × State
  pub get_object : Gvr → Option Text → Text → State → Result Object × State
  pub delete_object : Gvr → Option Text → Text → State → Result (Unit {0}) × State
  -- The visits of `filepath.WalkDir`, in its order
  pub walk : Text → State → List Visit × State
  -- `os.ReadFile`
  pub read_file : Text → State → Result Text × State
  -- What `YAMLReader.Read` returns in turn, until the end of the text
  pub yaml_documents : Text → List (Result Text)
  -- `utilyaml.ToJSON`, and `json.Unmarshal` into an object
  pub to_json : Text → Result Text
  pub unmarshal : Text → Result Object
  -- `Decode` of a fresh `YAMLOrJSONDecoder` into a map
  pub decode_values : Text → Result Entries
  -- Package `helm.sh/helm/v3`: `loader.Load`, `ToRenderValues`, `engine.Render`, `CRDObjects`
  pub Chart : Type 0
  pub RenderValues : Type 0
  pub load_chart : Text → State → Result Chart × State
  pub to_render_values : Chart → Entries → ReleaseOptions → Result RenderValues
  pub render_chart : Chart → RenderValues → Result (Dict Text Text)
  pub crd_objects : Chart → List CrdFile
