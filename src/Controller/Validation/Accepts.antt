-- ===== src/Controller/Validation/Accepts.antt =====
-- Which applications `validateSpec` accepts.
use cabure.Base.{
  ◌≡◌, refl, Bool, true, false, not, ◌&&◌, ◌||◌, Option, none, some, List, [], ◌∷◌, ◌++◌, ◌==◌,
  list_eq, nat_eq, any, all, is_empty, if◌then◌else◌, Result, ok, err, Error, is_ok, is_ok->>,
  is_ok-require, arith,
}
use cabure.Base.Int.{ltb_ℤ}
use cabure.Text.{Text, codes, has_prefix}
use cabure.Path.{clean, is_abs, dot, dot_dot, separator}
use cabure.Url.{is_supported_repository_url}
use cabure.Api.{Machinery}
use cabure.Api.Types.{GitApplication, HelmRenderSpec, OperatorConfig}
use cabure.Apply.{is_supported_cluster_scoped_kind}
use cabure.Controller.Validation.{
  minimum_requeue_interval, validate_rel_path, validate_values_file_path,
  validate_allowed_cluster_scoped_kinds, validate_values_files, validate_helm, validate_repository,
  validate_destination, validate_spec, wrapped,
}

-- The path is relative, is not empty and does not begin with `..`.
abbrev is_source_path : Text → Bool
is_source_path path = not (path == []) && not (is_abs path) && not (has_prefix (clean path) dot_dot)

-- The path is cleaned, relative, and that of a file that is not above.
abbrev is_values_path : Text → Bool
is_values_path path =
    not (path == [])
    && not (is_abs path)
    && not (clean path == dot)
    && clean path == path
    && not (clean path == dot_dot)
    && not (has_prefix (clean path) (dot_dot ++ separator))

abbrev is_helm : Option HelmRenderSpec → Bool
is_helm none = false
is_helm (some helm) = not (helm.release_name == []) && all is_values_path helm.values_files

module _ (m : Machinery) (cfg : OperatorConfig) where
  -- The conditions on a spec.
  abbrev pub is_acceptable : GitApplication → Bool
  is_acceptable app =
      let s = app.spec in
      let r = s.source.repository in
      let interval = not (ltb_ℤ s.interval (minimum_requeue_interval cfg)) in
      let repository =
        not (r == [])
        && is_supported_repository_url r
        && (is_empty cfg.allowed_repository_prefixes
            || any (λ prefix. has_prefix r prefix) cfg.allowed_repository_prefixes) in
      let type = s.render.type == codes "yaml" || s.render.type == codes "helm" in
      let destination =
        not (s.destination.namespace == [])
        && is_empty (m.dns1123_label_errors s.destination.namespace) in
      let helm = not (s.render.type == codes "helm") || is_helm s.render.helm in
      let kinds = all is_supported_cluster_scoped_kind s.allowed_cluster_scoped_kinds in
      interval
      && (repository
          && (is_source_path s.source.path && (type && (destination && (helm && kinds)))))

  is_ok-wrapped : (text : Text) (r : Result (Unit {0})) → is_ok (wrapped text r) ≡ is_ok r
  is_ok-wrapped text (ok a) = refl
  is_ok-wrapped text (err e) = refl

  is_ok-validate_rel_path : (path : Text) → is_ok (validate_rel_path path) ≡ is_source_path path
  unfolding validate_rel_path
  is_ok-validate_rel_path path = ground arith

  refusals :
      (a b c d e f : Bool) (u v w x y : Error)
      → is_ok (
          if a
          then err u
          else if b
          then err v
          else if c
          then err w
          else if not d
          then err x
          else if e || f
          then err y
          else ok (tt {0}))
        ≡ (not a && not b && not c && d && not e && not f)
  refusals a b c d e f u v w x y = ground arith

  is_ok-validate_values_file_path :
      (path : Text) → is_ok (validate_values_file_path path) ≡ is_values_path path
  unfolding validate_values_file_path
  is_ok-validate_values_file_path path =
      refusals (path == []) (is_abs path) (clean path == dot) (clean path == path)
        (clean path == dot_dot) (has_prefix (clean path) (dot_dot ++ separator)) _ _ _ _ _

  is_ok-validate_values_files :
      (files : List Text) → is_ok (validate_values_files files) ≡ all is_values_path files
  unfolding validate_values_files
  is_ok-validate_values_files [] = refl
  is_ok-validate_values_files (f ∷ files) = simp (
    is_ok->>,
    is_ok-wrapped,
    is_ok-validate_values_file_path f,
    is_ok-validate_values_files files,
  )

  is_ok-validate_helm : (helm : Option HelmRenderSpec) → is_ok (validate_helm helm) ≡ is_helm helm
  unfolding validate_helm
  is_ok-validate_helm none = refl
  is_ok-validate_helm (some helm) =
      simp (is_ok->>, is_ok-require, is_ok-validate_values_files helm.values_files)

  is_ok-validate_kinds :
      (kinds : List Text)
      → is_ok (validate_allowed_cluster_scoped_kinds kinds)
        ≡ all is_supported_cluster_scoped_kind kinds
  unfolding validate_allowed_cluster_scoped_kinds
  is_ok-validate_kinds [] = refl
  is_ok-validate_kinds (k ∷ kinds) = simp (is_ok->>, is_ok-require, is_ok-validate_kinds kinds)

  is_ok-if :
      (b : Bool) (r : Result (Unit {0})) → is_ok (if b then r else ok tt) ≡ (not b || is_ok r)
  is_ok-if true r = refl
  is_ok-if false r = refl

  -- A spec is accepted exactly if it meets every condition.
  pub validate_spec-accepts :
      (app : GitApplication) → is_ok (validate_spec m cfg app) ≡ is_acceptable app
  unfolding validate_spec validate_repository validate_destination
  validate_spec-accepts app = simp (
    validate_spec, validate_repository, validate_destination, is_ok->>, is_ok-require,
    is_ok-wrapped, is_ok-validate_rel_path, is_ok-if, is_ok-validate_helm, is_ok-validate_kinds,
  )
