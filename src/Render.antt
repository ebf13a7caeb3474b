-- ===== src/Render.antt =====
-- The renderers: internal/render/yaml.go and internal/render/helm.go.
pub mod Reads
pub mod Files
pub mod Containment
use cabure.Base.{
  ℕ, ◌+◌, Bool, true, false, not, ◌&&◌, ◌||◌, Option, none, some, List, [], ◌∷◌, ◌++◌, ◌==◌,
  list_eq, nat_eq, if◌then◌else◌, Result, ok, err, errorf, wrap, Error, Cause, plain, not_found,
  canceled, exists, would_block, end_of_file, select, map, is_empty,
}
use cabure.Base.Dict.{Dict}
use cabure.Base.Sort.{sort}
use cabure.Text.{Text, codes, text_lt, to_lower, trim_space, has_prefix}
use cabure.Text.Format.{decimal}
use cabure.Path.{clean, resolve_within_root}
use cabure.Api.{Object}
use cabure.Api.Types.{GitApplicationSpec, HelmRenderSpec}
use cabure.Values.{Entries, end, deep_merge}
use cabure.Outside.{Outside, Visit, CrdFile, ReleaseOptions}
use cabure.Effects.{
  M, Call, walked, opened, loaded_chart, return, throw, lift, perform, attempt, ◌>>=◌, ◌>>◌,
}

-- `filepath.Ext`: what follows the last dot of the last element, with the dot.
ext_from : Text → Text → Text
ext_from found [] = found
ext_from found (c ∷ s) = ext_from (if c == b'/' then [] else if c == b'.' then c ∷ s else found) s

unfoldable pub is_yaml_name : Text → Bool
unfolding ext_from
is_yaml_name path =
    to_lower (ext_from [] path) == codes ".yaml" || to_lower (ext_from [] path) == codes ".yml"

-- `errors.Is(err, io.EOF)`
abbrev pub is_end_of_file : Cause → Bool
is_end_of_file end_of_file = true
is_end_of_file plain = false
is_end_of_file not_found = false
is_end_of_file canceled = false
is_end_of_file exists = false
is_end_of_file would_block = false

module _ (c : Outside) where
  abbrev pub Run : Type 0 → Type 0
  Run = M c.State

  -- `if err := ctx.Err(); err != nil { return nil, err }`
  unfoldable pub check_context : Run (Unit {0})
  check_context s = elim (c.context_error s).0 [
    | none ↦ return tt (c.context_error s).1
    | some e ↦ throw e (c.context_error s).1
  ]

  -- The text before an error in a document.
  document_prefix : Text → ℕ → Text
  document_prefix source idx = source ++ (codes " document " ++ (decimal (idx + 1) ++ codes ": "))

  abbrev pub wrapped : {A : Type 0} → Text → Result A → Run A
  wrapped text (ok a) = return a
  wrapped text (err e) = throw (wrap text e)

  -- The loop of `renderYAMLFile` and of `decodeManifest`, over what the reader returns.
  pub decode_documents : Text → ℕ → List (Result Text) → Run (List Object)
  unfolding document_prefix check_context
  decode_documents source idx [] = check_context >> return []
  decode_documents source idx (err e ∷ documents) =
      check_context
      >> (if is_end_of_file e.cause then return [] else throw (wrap (document_prefix source idx) e))
  decode_documents source idx (ok doc ∷ documents) =
      check_context
      >> (if is_empty (trim_space doc)
          then decode_documents source (idx + 1) documents
          else (wrapped (document_prefix source idx) (c.to_json doc) >>= λ json.
              wrapped (document_prefix source idx) (c.unmarshal json) >>= λ raw.
              decode_documents source (idx + 1) documents >>= λ rest. return (raw ∷ rest)))

  -- `decodeManifest`
  unfoldable pub decode_manifest : Text → Text → Run (List Object)
  unfolding decode_documents
  decode_manifest source manifest = decode_documents source 0 (c.yaml_documents manifest)

  -- `renderYAMLFile`
  unfoldable pub render_yaml_file : Text → Run (List Object)
  unfolding decode_documents
  render_yaml_file path = do
    content ← perform (opened path) (c.read_file path)
    decode_documents path 0 (c.yaml_documents content)

  -- The function that `yamlFiles` walks with, at each visit in turn.
  pub walk_visits : List Visit → List Text → Run (List Text)
  unfolding check_context is_yaml_name
  walk_visits [] paths = return paths
  walk_visits (v ∷ visits) paths = check_context >> elim v.walk_error [
    | some e ↦ throw e
    | none ↦
        if v.is_dir
        then walk_visits visits paths
        else if v.is_symlink
        then throw (errorf (codes "refusing symlink: " ++ v.path))
        else if is_yaml_name v.path
        then walk_visits visits (paths ++ (v.path ∷ []))
        else walk_visits visits paths
  ]

  -- `yamlFiles`
  unfoldable pub yaml_files : Text → Run (List Text)
  unfolding walk_visits sort text_lt
  yaml_files root = do
    visits ← perform (walked root) (λ s. (ok (c.walk root s).0, (c.walk root s).1))
    paths ← walk_visits visits []
    return (sort text_lt paths)

  -- The loop of `YAMLRenderer.Render`.
  render_files : List Text → Run (List Object)
  unfolding check_context render_yaml_file
  render_files [] = return []
  render_files (path ∷ paths) = do
    check_context
    objects ← render_yaml_file path
    rest ← render_files paths
    return (objects ++ rest)

  -- `YAMLRenderer.Render`
  unfoldable pub render_yaml : Text → GitApplicationSpec → Run (List Object)
  unfolding check_context yaml_files render_files
  render_yaml checkout_root spec = do
    check_context
    app_root ← lift (resolve_within_root checkout_root spec.source.path)
    paths ← yaml_files app_root
    render_files paths

  -- `readValuesDocument`
  unfoldable pub read_values_document : Text → Result Entries
  read_values_document content = elim (c.decode_values content) [
    | ok values ↦ ok values
    | err e ↦ if is_end_of_file e.cause then ok end else err e
  ]

  -- The loop of `readHelmValues`, with what is merged so far.
  read_values_files : Text → Entries → List Text → Run Entries
  unfolding check_context read_values_document
  read_values_files checkout_root merged [] = return merged
  read_values_files checkout_root merged (rel ∷ files) = do
    check_context
    lift (if rel == [] then err (errorf (codes "values file path is required")) else ok tt)
    path ← lift (resolve_within_root checkout_root rel)
    content ← perform (opened (clean path)) (c.read_file (clean path))
    values ←
        wrapped (codes "parse values file " ++ (rel ++ codes ": ")) (read_values_document content)
    read_values_files checkout_root (deep_merge merged values) files

  -- `readHelmValues`
  unfoldable pub read_helm_values : Text → List Text → Run Entries
  unfolding read_values_files
  read_helm_values checkout_root files = read_values_files checkout_root end files

  -- The loops of `HelmRenderer.Render`, over sources and their manifests.
  pub render_manifests : List (Text × Text) → Run (List Object)
  unfolding check_context decode_manifest
  render_manifests [] = return []
  render_manifests ((name, manifest) ∷ manifests) = do
    check_context
    objects ← decode_manifest name manifest
    rest ← render_manifests manifests
    return (objects ++ rest)

  -- The chart's CRDs by file name, if they are included.
  abbrev pub crd_manifests : HelmRenderSpec → c.Chart → List (Text × Text)
  crd_manifests helm chart =
      if helm.include_crds
      then map (λ (f : CrdFile). (f.filename, f.contents))
          (sort (λ (a b : CrdFile). text_lt a.filename b.filename) (c.crd_objects chart))
      else []

  -- The rendered templates but for the notes, by name.
  abbrev pub template_manifests : Dict Text Text → List (Text × Text)
  template_manifests manifests =
      sort (λ (a b : Text × Text). text_lt a.0 b.0)
        (select (λ (a : Text × Text). not (has_prefix a.0 (codes "templates/NOTES.txt"))) manifests)

  -- The end of `HelmRenderer.Render`, from a chart and its values.
  render_chart_with : GitApplicationSpec → HelmRenderSpec → c.Chart → Entries → Run (List Object)
  unfolding check_context render_manifests sort has_prefix
  render_chart_with spec helm chart values = do
    let options : ReleaseOptions = record {
      name = helm.release_name;
      namespace = spec.destination.namespace;
    }
    render_values ←
        wrapped (codes "prepare render values: ") (c.to_render_values chart values options)
    check_context
    manifests ← wrapped (codes "render chart: ") (c.render_chart chart render_values)
    crds ← render_manifests (crd_manifests helm chart)
    templates ← render_manifests (template_manifests manifests)
    return (crds ++ templates)

  -- `HelmRenderer.Render` once there is a configuration.
  render_helm_with : Text → GitApplicationSpec → Text → HelmRenderSpec → Run (List Object)
  unfolding check_context read_helm_values render_chart_with
  render_helm_with checkout_root spec app_root helm = do
    chart ←
        attempt (perform (loaded_chart app_root) (c.load_chart app_root))
          (λ e. throw (wrap (codes "load chart: ") e)) return
    check_context
    values ← read_helm_values checkout_root helm.values_files
    render_chart_with spec helm chart values

  -- `HelmRenderer.Render`
  unfoldable pub render_helm : Text → GitApplicationSpec → Run (List Object)
  unfolding check_context render_helm_with
  render_helm checkout_root spec = do
    check_context
    app_root ← lift (resolve_within_root checkout_root spec.source.path)
    elim spec.render.helm [
      | none ↦ throw (errorf (codes "helm render configuration is required"))
      | some helm ↦ render_helm_with checkout_root spec app_root helm
    ]
