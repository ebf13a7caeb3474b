-- ===== src/Tests/Demo.antt =====
-- A small world outside the program, and the values that the tests run on.
use cabure.Base.{
  ℕ, ◌≡◌, refl, subst, true, false, none, some, [], ◌∷◌, ◌++◌, ◌==◌, list_eq, nat_eq, if◌then◌else◌,
  Result, ok, ok_injective,
}
use cabure.Base.Int.{pos}
use cabure.Text.{Text, codes, to_lower}
use cabure.Path.{is_abs}
use cabure.Api.{Machinery, Object, ResourceReference, Mapping, namespaced, root}
use cabure.Api.Types.{GitApplication, Secret, Credentials, OperatorConfig, condition_true}
use cabure.Apply.{Policy, application_uid_anno, managed_by_label, managed_by_value}
use cabure.Values.{Entries, entry, end, scalar, plain_map}
use cabure.Outside.{Outside, Visit}

-- Namespaces belong to the cluster, all other kinds to a namespace.
abbrev pub demo_mapping : Text → Text → Text → Result Mapping
demo_mapping group kind version = ok (record {
  resource = record { group = group; version = version; resource = to_lower kind };
  scope = if kind == codes "Namespace" then root else namespaced;
})

abbrev pub demo_machinery : Machinery
demo_machinery = record {
  gvk_string = λ group version kind. group ++ (b'/' ∷ (version ++ (b'/' ∷ kind)));
  group_kind_string = λ group kind. kind ++ (b'.' ∷ group);
  object_gvk = λ api_version kind. record { group = []; version = api_version; kind = kind };
  rest_mapping = demo_mapping;
  marshal = λ obj. ok (obj.kind ++ obj.name);
  dns1123_label_errors = λ label. [];
}

abbrev pub web : Object
web = record {
  api_version = codes "v1";
  kind = codes "Service";
  name = codes "web";
  generate_name = none;
  namespace = [];
  labels = [];
  annotations = [];
  rest = [];
}

abbrev pub team : Object
team = record web { kind = codes "Namespace"; name = codes "team" }

abbrev pub demo_policy : Policy
demo_policy = record {
  destination_namespace = codes "prod";
  application_uid = codes "uid-1";
  source_revision = codes "abc";
  allow_cluster_scoped = true;
  allowed_cluster_scoped_kinds = codes "namespace" ∷ [];
  force_apply = false;
  field_manager = [];
}

abbrev pub web_in_prod : Object
web_in_prod = record web { namespace = codes "prod" }

abbrev pub web_reference : ResourceReference
web_reference = record {
  group = [];
  version = codes "v1";
  kind = codes "Service";
  namespace = codes "prod";
  name = codes "web";
}

abbrev pub web_reference_beta : ResourceReference
web_reference_beta = record web_reference { version = codes "v1beta1" }

abbrev pub team_reference : ResourceReference
team_reference = record {
  group = [];
  version = codes "v1";
  kind = codes "Namespace";
  namespace = [];
  name = codes "team";
}

-- `web` as the API server has it after it was applied.
abbrev pub web_live : Object
web_live = record web_in_prod {
  labels = (managed_by_label, managed_by_value) ∷ [];
  annotations = (application_uid_anno, codes "uid-1") ∷ [];
}

abbrev pub demo_application : GitApplication
demo_application = record {
  name = codes "shop";
  namespace = codes "apps";
  uid = codes "uid-1";
  generation = 3;
  deletion_timestamp = none;
  spec = record {
    source = record {
      repository = codes "https://git.example/shop";
      revision = codes "main";
      path = codes "deploy";
      secret_ref = some (codes "git");
    };
    destination = record { namespace = codes "prod" };
    render = record {
      type = codes "helm";
      helm = some (record {
        release_name = codes "shop";
        values_files = codes "values.yaml" ∷ [];
        include_crds = true;
      });
    };
    allowed_cluster_scoped_kinds = [];
    takeover_existing_resources = false;
    interval = pos 60000000000;
    prune = true;
    suspend = false;
  };
  status = record {
    observed_generation = 2;
    attempted_revision = codes "aaa";
    applied_revision = codes "aaa";
    last_attempt_time = none;
    last_success_time = none;
    inventory = web_reference ∷ [];
    conditions =
        record {
          type = codes "Ready";
          status = condition_true;
          reason = codes "Reconciled";
          message = [];
          observed_generation = 2;
          last_transition_time = 0;
        }
        ∷ [];
  };
}

abbrev pub suspended_application : GitApplication
suspended_application = record demo_application {
  spec = record demo_application.spec { suspend = true };
}

abbrev pub deleted_application : GitApplication
deleted_application = record demo_application { deletion_timestamp = some 9 }

abbrev pub demo_config : OperatorConfig
demo_config = record {
  watch_namespace = [];
  concurrent_reconciles = pos 1;
  minimum_requeue_interval = pos 15000000000;
  allow_cluster_scoped_resources = false;
  allowed_repository_prefixes = codes "https://git.example/" ∷ [];
  field_manager = [];
  cache_dir = [];
}

abbrev pub git_secret : Secret
git_secret = record {
  namespace = codes "apps";
  name = codes "git";
  type = codes "Opaque";
  contents = (codes "password", codes "pw") ∷ [];
}

abbrev pub git_credentials : Credentials
git_credentials = record {
  username = [];
  password = codes "pw";
  token = [];
  ssh_private_key = [];
  known_hosts = [];
}

abbrev pub web_visit : Visit
web_visit = record {
  path = codes "/work/x/deploy/web.yaml";
  is_dir = false;
  is_symlink = false;
  walk_error = none;
}

-- The world of one application. Its state is the time.
abbrev pub world_of : GitApplication → Outside
world_of app = record {
  State = ℕ;
  machinery = demo_machinery;
  now = λ s. s;
  context_error = λ s. (none, s);
  get_application = λ namespace name s. (ok app, s);
  patch_status = λ base changed s. (ok changed, s);
  has_secret_client = true;
  get_secret = λ namespace name s. (ok git_secret, s);
  checkout = λ repository revision creds s. (ok (codes "/work/x", codes "abc"), s);
  patch_object = λ resource namespace name patch manager force s. (ok tt, s);
  get_object = λ resource namespace name s. (ok web_live, s);
  delete_object = λ resource namespace name s. (ok tt, s);
  walk = λ dir s. (web_visit ∷ [], s);
  read_file = λ path s. (ok (codes "doc"), s);
  yaml_documents = λ content. ok content ∷ [];
  to_json = ok;
  unmarshal = λ json. ok web;
  decode_values = λ content. ok end;
  Chart = Unit {0};
  RenderValues = Unit {0};
  load_chart = λ dir s. (ok tt, s);
  to_render_values = λ chart values options. ok tt;
  render_chart = λ chart values. ok ((codes "shop/templates/web.yaml", codes "doc") ∷ []);
  crd_objects = λ chart. [];
}

abbrev pub world : Outside
world = world_of demo_application

-- Three values files that each have a map under `image`.
abbrev pub values_file : Text → Entries
values_file tag = entry (codes "image") (plain_map (entry tag (scalar tag) end)) end

abbrev pub absolute_checkout : Text × Text
absolute_checkout = (codes "/work/x", codes "abc")

pub checkout_absolute : (dir sha : Text) → ok absolute_checkout ≡ ok (dir, sha) → is_abs dir ≡ true
unfolding is_abs nat_eq
checkout_absolute dir sha h = subst (λ (p : Text × Text). is_abs p.0 ≡ true) (ok_injective h) refl
