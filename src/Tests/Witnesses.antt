-- ===== src/Tests/Witnesses.antt =====
-- The theorems on the controller and the renderers, at values of the small world.
use mathlib.Core.List.{tail-eq_of_cons-eq}
use cabure.Base.{
  ◌++◌, none, all, ◌≡◌, ◌≢◌, ◌↔◌, ◌⊎◌, refl, false, if◌then◌else◌, some, [], ◌∷◌, ◌==◌, ok, All,
  list_eq, nat_eq, is_ok,
}
use cabure.Base.Int.{pos, ◌≤ℤ◌}
use cabure.Base.Dict.{lookup}
use cabure.Text.{Text, to_lower, codes}
use cabure.Path.{elements}
use cabure.Path.Rooted.{names_of}
use cabure.Api.{key, namespaced}
use cabure.Inventory.{diff}
use cabure.Apply.{default_field_manager}
use cabure.Effects.{got_application, patched_status, got_object, deleted}
use cabure.Render.{render_helm}
use cabure.Base.Sort.{sort}
use cabure.Text.{text_lt}
use cabure.Render.{yaml_files}
use cabure.Render.Files.{value_of, is_plain, yaml_paths, yaml_files-value}
use cabure.Controller.Prune.Settled.{prune-after_success}
use cabure.Controller.Conditions.{success_status}
use cabure.Effects.{return}
use cabure.Render.Containment.{IsHelmRead, render_helm-IsHelmRead}
use cabure.Controller.Validation.{validate_spec, minimum_requeue_interval}
use cabure.Controller.Validation.Accepts.{is_acceptable, validate_spec-accepts}
use cabure.Controller.Credentials.{load_credentials}
use cabure.Controller.Credentials.Usable.{IsUsable, load_credentials-IsUsable}
use cabure.Controller.Credentials.Usable
use cabure.Controller.Prune.{prune, is_marked_by}
use cabure.Controller.Prune.Safety.{IsPruning, prune-IsPruning}
use cabure.Controller.Prune.Versions.{PrintsVersions, same_front, prune-other_version}
use cabure.Controller.Requests.{apply_objects}
use cabure.Controller.Requests.Outcomes.{Applies, apply_objects-Applies}
use cabure.Controller.Reconcile.{synchronize, reconcile, no_requeue}
use cabure.Controller.Reconcile.Authority.{IsAuthorized}
use cabure.Controller.Reconcile.Authority.Stages.{synchronize-IsAuthorized}
use cabure.Controller.Reconcile.Confinement.{IsConfined, synchronize-IsConfined}
use cabure.Controller.Reconcile.Completion.Whole.{IsComplete, synchronize-returns}
use cabure.Controller.Reconcile.Outcomes.{IsSuspended, reconcile-IsSuspended, reconcile-requeue}
use cabure.Tests.Demo.{
  checkout_absolute, demo_application, suspended_application, demo_config, world, world_of,
  web_reference, web_reference_beta, web_live, web_in_prod, git_credentials,
}

synchronize-IsConfined_example :
    All
      (IsConfined world demo_config demo_application)
      (synchronize world demo_config demo_application 7).calls
synchronize-IsConfined_example =
    synchronize-IsConfined world demo_config demo_application
      (λ creds s dir sha h. checkout_absolute dir sha h) 7

synchronize-IsAuthorized_example :
    All
      (IsAuthorized world demo_config demo_application)
      (synchronize world demo_config demo_application 7).calls
synchronize-IsAuthorized_example = synchronize-IsAuthorized world demo_config demo_application 7

synchronize-returns_example :
    (synchronize world demo_config demo_application 7).result ≡ ok (pos 60000000000)
    ↔ IsComplete world demo_config demo_application 7 (pos 60000000000)
synchronize-returns_example =
    synchronize-returns world demo_config demo_application 7 (pos 60000000000)

prune-IsPruning_example :
    All
      (IsPruning world demo_application (diff world.machinery (web_reference ∷ []) []))
      (prune world demo_application [] 7).calls
prune-IsPruning_example = prune-IsPruning world demo_application [] 7

same_back : (a b c : Text) → a ++ b ≡ a ++ c → b ≡ c
same_back [] b c h = h
same_back (x ∷ a) b c h = same_back a b c (tail-eq_of_cons-eq h)

world_prints : PrintsVersions world.machinery
world_prints group kind version version' h = same_front version version' (b'/' ∷ kind) (
    tail-eq_of_cons-eq
      (same_back group (b'/' ∷ (version ++ (b'/' ∷ kind))) (b'/' ∷ (version' ++ (b'/' ∷ kind))) h))

prune-other_version_example :
    (prune world demo_application (web_reference_beta ∷ []) 7).calls
    ≡ got_object
        (record { group = []; version = codes "v1"; resource = codes "service" })
        (some (codes "prod"))
        (codes "web")
      ∷ deleted
          (record { group = []; version = codes "v1"; resource = codes "service" })
          (some (codes "prod"))
          (codes "web")
      ∷ []
unfolding list_eq nat_eq is_marked_by key to_lower lookup
prune-other_version_example =
    prune-other_version world demo_application web_reference (codes "v1beta1") web_live
      (record {
        resource = record { group = []; version = codes "v1"; resource = codes "service" };
        scope = namespaced;
      })
      (record {
        resource = record { group = []; version = codes "v1"; resource = codes "service" };
        scope = namespaced;
      })
      7 world_prints refl (λ e. cc) refl refl refl refl

abbrev no_manager : Text
no_manager = []

apply_objects-Applies_example :
    Applies world
      (if no_manager == [] then default_field_manager else no_manager)
      false
      (web_in_prod ∷ [])
      7
      (apply_objects world (web_in_prod ∷ []) no_manager false 7).calls
      (apply_objects world (web_in_prod ∷ []) no_manager false 7).result
      (apply_objects world (web_in_prod ∷ []) no_manager false 7).state
apply_objects-Applies_example = apply_objects-Applies world (web_in_prod ∷ []) no_manager false 7

validate_spec-accepts_example :
    is_ok (validate_spec world.machinery demo_config demo_application)
    ≡ is_acceptable world.machinery demo_config demo_application
validate_spec-accepts_example = validate_spec-accepts world.machinery demo_config demo_application

root_is_deep : names_of (codes "/work") ≢ []
unfolding elements list_eq nat_eq
root_is_deep e = cc

load_credentials-IsUsable_example :
    (secret : _) × Usable.IsRead world demo_application 7 secret × IsUsable secret git_credentials
unfolding load_credentials list_eq nat_eq lookup
load_credentials-IsUsable_example = load_credentials-IsUsable world demo_application 7 refl

reconcile-IsSuspended_example :
    (status : _) × ((reconcile
        (world_of suspended_application)
        demo_config
        (codes "apps")
        (codes "shop")
        7).calls
      ≡ got_application (codes "apps") (codes "shop")
        ∷ patched_status suspended_application.status status
        ∷ [])
    × IsSuspended suspended_application 7 status
reconcile-IsSuspended_example =
    reconcile-IsSuspended (world_of suspended_application) demo_config (codes "apps") (codes "shop")
      7 suspended_application refl refl refl

reconcile-requeue_example : (pos 15000000000 ≡ no_requeue) ⊎ (pos 15000000000 ≤ℤ pos 15000000000)
unfolding reconcile minimum_requeue_interval
reconcile-requeue_example =
    reconcile-requeue (world_of suspended_application) demo_config (codes "apps") (codes "shop") 7
      refl

render_helm-IsHelmRead_example :
    All
      (IsHelmRead world (codes "/work/x") demo_application.spec)
      (render_helm world (codes "/work/x") demo_application.spec 7).calls
render_helm-IsHelmRead_example =
    render_helm-IsHelmRead world (codes "/work/x") demo_application.spec 7

yaml_files-value_example : value_of (yaml_files world (codes "/work/x/deploy") 7).result ≡ (
    if all is_plain (world.walk (codes "/work/x/deploy") 7).0
    then some (sort text_lt (yaml_paths (world.walk (codes "/work/x/deploy") 7).0))
    else none)
yaml_files-value_example = yaml_files-value world (λ s. refl) (codes "/work/x/deploy") 7

prune-after_success_example :
    prune world
      (record demo_application {
        status =
            success_status world.machinery demo_application 7 (codes "abc") (web_reference ∷ []);
      })
      (web_reference ∷ [])
      8
    ≡ return tt 8
prune-after_success_example =
    prune-after_success world demo_application 7 (codes "abc") (web_reference ∷ []) 8
