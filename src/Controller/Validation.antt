-- ===== src/Controller/Validation.antt =====
-- `validateSpec` and the functions that it calls
-- (internal/controller/gitapplication_controller.go).
pub mod Paths
pub mod Accepts
use cabure.Base.{
  ℕ, Bool, true, false, not, ◌&&◌, ◌||◌, Option, none, some, List, [], ◌∷◌, ◌++◌, ◌==◌, list_eq,
  nat_eq, any, if◌then◌else◌, is_empty, Result, ok, err, ◌>>=◌, ◌>>◌, require, errorf, wrap,
}
use cabure.Base.Int.{ℤ, pos, pos_part, ltb_ℤ, leb_ℤ}
use cabure.Text.{Text, codes, has_prefix, join}
use cabure.Text.Format.{quoted, duration_string}
use cabure.Path.{clean, is_abs, dot, dot_dot, separator}
use cabure.Url.{is_supported_repository_url}
use cabure.Api.{Machinery}
use cabure.Api.Types.{
  GitApplication, GitApplicationSpec, RenderSpec, HelmRenderSpec, OperatorConfig,
}
use cabure.Apply.{is_supported_cluster_scoped_kind, default_field_manager}

-- `15 * time.Second`
abbrev pub default_requeue_interval : ℤ
default_requeue_interval = pos 15000000000

-- `minimumRequeueInterval`
unfoldable pub minimum_requeue_interval : OperatorConfig → ℤ
minimum_requeue_interval cfg =
    if leb_ℤ cfg.minimum_requeue_interval (pos 0)
    then default_requeue_interval
    else cfg.minimum_requeue_interval

-- `fieldManagerOrDefault`
unfoldable pub field_manager_or_default : Text → Text
field_manager_or_default value = if value == [] then default_field_manager else value

-- `validateRelPath`
unfoldable pub validate_rel_path : Text → Result (Unit {0})
validate_rel_path path =
    if path == []
    then err (errorf (codes "path is required"))
    else if has_prefix (clean path) dot_dot || is_abs path
    then err (errorf (codes "path escapes checkout root"))
    else ok tt

-- `validateValuesFilePath`
unfoldable pub validate_values_file_path : Text → Result (Unit {0})
validate_values_file_path path =
    if path == []
    then err (errorf (codes "path is required"))
    else if is_abs path
    then err (errorf (codes "path must be relative to the repository root"))
    else if clean path == dot
    then err (errorf (codes "path must point to a file"))
    else if not (clean path == path)
    then err (errorf (codes "path must be a clean repository-relative path"))
    else if clean path == dot_dot || has_prefix (clean path) (dot_dot ++ separator)
    then err (errorf (codes "path must stay within the repository root"))
    else ok tt

-- `validateAllowedClusterScopedKinds`
unfoldable pub validate_allowed_cluster_scoped_kinds : List Text → Result (Unit {0})
validate_allowed_cluster_scoped_kinds [] = ok tt
validate_allowed_cluster_scoped_kinds (kind ∷ kinds) = do
  require (is_supported_cluster_scoped_kind kind)
      (errorf (codes "allowedClusterScopedKinds: unsupported kind " ++ quoted kind))
  validate_allowed_cluster_scoped_kinds kinds

-- `if err := …; err != nil { return fmt.Errorf("…: %w", err) }`
abbrev pub wrapped : Text → Result (Unit {0}) → Result (Unit {0})
wrapped text (ok a) = ok a
wrapped text (err e) = err (wrap text e)

-- The loop over `valuesFiles`.
unfoldable pub validate_values_files : List Text → Result (Unit {0})
validate_values_files [] = ok tt
validate_values_files (file ∷ files) = do
  wrapped (codes "render.helm.valuesFiles: ") (validate_values_file_path file)
  validate_values_files files

-- The tests of `validateSpec` on `render.helm`.
unfoldable pub validate_helm : Option HelmRenderSpec → Result (Unit {0})
unfolding validate_values_files
validate_helm none = err (errorf (codes "render.helm is required for helm rendering"))
validate_helm (some helm) = do
  require (not (helm.release_name == [])) (errorf (codes "render.helm.releaseName is required"))
  validate_values_files helm.values_files

module _ (m : Machinery) (cfg : OperatorConfig) where
  -- The tests on the repository.
  unfoldable pub validate_repository : Text → Result (Unit {0})
  validate_repository repository = do
    require (not (repository == []) && is_supported_repository_url repository)
        (errorf (codes "repository must use https, ssh://, or scp-style ssh"))
    require
        (is_empty cfg.allowed_repository_prefixes
          || any (λ prefix. has_prefix repository prefix) cfg.allowed_repository_prefixes)
        (errorf (codes "repository " ++ (quoted repository ++ codes " is not allowed")))

  -- The tests on the destination.
  unfoldable pub validate_destination : Text → Result (Unit {0})
  validate_destination namespace = do
    require (not (namespace == [])) (errorf (codes "destination.namespace is required"))
    require (is_empty (m.dns1123_label_errors namespace)) (
        errorf
          (codes "destination.namespace: " ++ join (codes ", ") (m.dns1123_label_errors namespace)))

  -- `validateSpec`
  unfoldable pub validate_spec : GitApplication → Result (Unit {0})
  unfolding validate_repository validate_destination validate_helm
  validate_spec app = do
    require (not (ltb_ℤ app.spec.interval (minimum_requeue_interval cfg))) (
        errorf (
          codes "interval must be at least "
          ++ duration_string (pos_part (minimum_requeue_interval cfg))))
    validate_repository app.spec.source.repository
    wrapped (codes "source.path: ") (validate_rel_path app.spec.source.path)
    require (app.spec.render.type == codes "yaml" || app.spec.render.type == codes "helm")
        (errorf (codes "unsupported render type " ++ quoted app.spec.render.type))
    validate_destination app.spec.destination.namespace
    if app.spec.render.type == codes "helm" then validate_helm app.spec.render.helm else ok tt
    validate_allowed_cluster_scoped_kinds app.spec.allowed_cluster_scoped_kinds
