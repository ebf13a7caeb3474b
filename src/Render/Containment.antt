-- ===== src/Render/Containment.antt =====
-- Where the renderers read, and that it is inside the checkout.
use cabure.Base.{
  ◌≡◌, true, false, none, some, List, [], ◌∷◌, ◌++◌, ◌==◌, list_eq, nat_eq, ok, err, All, All-map,
  All-split, contains, if◌then◌else◌, errorf, wrap, Error, subst, ok_injective,
}
use cabure.Base.Dict.{Dict}
use cabure.Base.Members.{All-contains}
use cabure.Base.Sort.{sort}
use cabure.Base.Sort.Laws.{sort-All}
use cabure.Text.{Text, codes, text_lt}
use cabure.Path.{clean, resolve_within_root}
use cabure.Api.{Object}
use cabure.Api.Types.{GitApplicationSpec, HelmRenderSpec}
use cabure.Values.{Entries, deep_merge, end}
use cabure.Outside.{Outside, Visit}
use cabure.Effects.{
  Call, walked, opened, loaded_chart, M, attempt, perform, return, throw, lift, ◌>>=◌,
}
use cabure.Effects.Calls.{Makes, Makes-attempt, Makes-attempt_from, Option-Makes, >>=-returned}
use cabure.Render.{
  is_yaml_name, check_context, decode_documents, render_yaml_file, walk_visits, yaml_files,
  render_files, render_yaml, read_values_files, render_manifests, render_helm_with, render_helm,
  render_chart_with, crd_manifests, template_manifests, read_helm_values, read_values_document,
  wrapped,
}
use cabure.Render.Reads.{
  checked-Makes, wrapped-Makes, decode_documents-Makes, render_manifests-Makes, walk_visits-Makes,
  walk_visits-Collected,
}

module _ (c : Outside) (root : Text) (spec : GitApplicationSpec) where
  -- What a renderer may read: the chart or the tree at the source path, in that tree the YAML files
  -- that are visited and no links, and the values files; each path as it is resolved in the
  -- checkout.
  pub data IsRead : Call → Type 0 where
    walks : (p : Text) → resolve_within_root root spec.source.path ≡ ok p → IsRead (walked p)
    opens_visited :
        (p : Text) (s : c.State) (v : Visit) (before after : List Visit)
        → resolve_within_root root spec.source.path ≡ ok p
        → (c.walk p s).0 ≡ before ++ (v ∷ after)
        → v.is_dir ≡ false
        → v.is_symlink ≡ false
        → is_yaml_name v.path ≡ true
        → IsRead (opened v.path)
    loads : (p : Text) → resolve_within_root root spec.source.path ≡ ok p → IsRead (loaded_chart p)
    opens_values :
        (helm : HelmRenderSpec) (file p : Text)
        → spec.render.helm ≡ some helm
        → contains helm.values_files file ≡ true
        → resolve_within_root root file ≡ ok p
        → IsRead (opened (clean p))

  -- What the Helm renderer may read: the chart at the source path, and the values files, each path as it is
  -- resolved in the checkout.
  pub data IsHelmRead : Call → Type 0 where
    loads_chart :
        (p : Text) → resolve_within_root root spec.source.path ≡ ok p → IsHelmRead (loaded_chart p)
    opens_listed :
        (helm : HelmRenderSpec) (file p : Text)
        → spec.render.helm ≡ some helm
        → contains helm.values_files file ≡ true
        → resolve_within_root root file ≡ ok p
        → IsHelmRead (opened (clean p))

  -- Both renderers' reads.
  IsHelmRead-IsRead : (call : Call) → IsHelmRead call → IsRead call
  IsHelmRead-IsRead _ (loads_chart p h) = loads p h
  IsHelmRead-IsRead _ (opens_listed helm file p g at h) = opens_values helm file p g at h

  abbrev IsOpened : Text → Type 0
  IsOpened path = IsRead (opened path)

  yaml_files-IsRead :
      (p : Text) → resolve_within_root root spec.source.path ≡ ok p → Makes IsRead (yaml_files c p)
  unfolding yaml_files
  yaml_files-IsRead p h s = (
    walks p h,
    Makes-attempt IsRead (walk_visits c (c.walk p s).0 []) throw
        (λ paths. return (sort text_lt paths)) (walk_visits-Makes c IsRead (c.walk p s).0 [])
        (λ e s'. tt) (λ paths s'. tt) (c.walk p s).1,
  )

  yaml_files-IsOpened :
      (p : Text) (s : c.State) {paths : List Text}
      → resolve_within_root root spec.source.path ≡ ok p
      → (yaml_files c p s).result ≡ ok paths
      → All IsOpened paths
  unfolding yaml_files
  yaml_files-IsOpened p s {paths} h g =
      let (found, k, e) =
        >>=-returned (walk_visits c (c.walk p s).0 []) (λ paths. return (sort text_lt paths))
          (c.walk p s).1 g in
      subst (All IsOpened) (ok_injective e) (
        sort-All text_lt IsOpened found (
          walk_visits-Collected c IsOpened (c.walk p s).0 [] (c.walk p s).1
            (All-map _ _ (c.walk p s).0
              (λ v (before, after, at) d l y. opens_visited p s v before after h at d l y)
              (All-split (c.walk p s).0))
            tt k))

  render_files-IsRead :
      (paths : List Text) → All IsOpened paths → Makes IsRead (render_files c paths)
  unfolding render_files render_yaml_file
  render_files-IsRead [] h = λ s. tt
  render_files-IsRead (path ∷ paths) h =
      let rest =
        λ (objects : List Object). (render_files c paths >>= λ rest. return (objects ++ rest)) in
      let decode = λ (content : Text). decode_documents c path 0 (c.yaml_documents content) in
      checked-Makes c IsRead (render_yaml_file c path >>= rest) (
        Makes-attempt IsRead (render_yaml_file c path) throw rest
          (Makes-attempt IsRead (perform (opened path) (c.read_file path)) throw decode
            (λ s. (h.0, tt)) (λ e s. tt)
            (λ content. decode_documents-Makes c IsRead path 0 (c.yaml_documents content)))
          (λ e s. tt)
          (λ objects.
            Makes-attempt IsRead (render_files c paths) throw (λ rest. return (objects ++ rest))
              (render_files-IsRead paths h.1) (λ e s. tt) (λ rest s. tt)))

  -- The YAML renderer walks the source path as it is resolved in the checkout, and opens only files of
  -- that walk that have a YAML name and are neither directories nor links.
  pub render_yaml-IsRead : Makes IsRead (render_yaml c root spec)
  unfolding render_yaml
  render_yaml-IsRead =
      let rest = λ (p : Text). (yaml_files c p >>= λ paths. render_files c paths) in
      let resolve = lift (resolve_within_root root spec.source.path) in
      checked-Makes c IsRead (resolve >>= rest) (
        Makes-attempt_from IsRead resolve throw rest (λ s. tt) (λ e s. tt)
          (λ p s h.
            Makes-attempt_from IsRead (yaml_files c p) throw (λ paths. render_files c paths)
              (yaml_files-IsRead p h) (λ e s'. tt)
              (λ paths s' g.
                render_files-IsRead paths (yaml_files-IsOpened p s' h g) (yaml_files c p s').state)
              s))

  read_values_files-IsHelmRead :
      (helm : HelmRenderSpec) (merged : Entries) (files : List Text)
      → spec.render.helm ≡ some helm
      → All (λ file. contains helm.values_files file ≡ true) files
      → Makes IsHelmRead (read_values_files c root merged files)
  unfolding read_values_files
  read_values_files-IsHelmRead helm merged [] g h = λ s. tt
  read_values_files-IsHelmRead helm merged (file ∷ files) g h =
      let parse_prefix = codes "parse values file " ++ (file ++ codes ": ") in
      let merge = λ (values : Entries). read_values_files c root (deep_merge merged values) files in
      let parse =
        λ (content : Text). (wrapped c parse_prefix (read_values_document c content) >>= merge) in
      let read = λ (p : Text). (perform (opened (clean p)) (c.read_file (clean p)) >>= parse) in
      let present =
        if file == [] then err (errorf (codes "values file path is required")) else ok tt in
      let resolve = lift (resolve_within_root root file) in
      checked-Makes c IsHelmRead (lift present >>= λ _. (resolve >>= read)) (
        Makes-attempt IsHelmRead (lift present) throw (λ _. (resolve >>= read)) (λ s. tt)
          (λ e s. tt)
          (λ _.
            Makes-attempt_from IsHelmRead resolve throw read (λ s. tt) (λ e s. tt)
              (λ p s at.
                Makes-attempt IsHelmRead (perform (opened (clean p)) (c.read_file (clean p))) throw
                  parse (λ s'. (opens_listed helm file p g h.0 at, tt)) (λ e s'. tt)
                  (λ content.
                    Makes-attempt IsHelmRead
                      (wrapped c parse_prefix (read_values_document c content)) throw merge
                      (wrapped-Makes c IsHelmRead parse_prefix (read_values_document c content))
                      (λ e s'. tt)
                      (λ values.
                        read_values_files-IsHelmRead helm (deep_merge merged values) files g h.1))
                  s)))

  -- Rendering once values are read reads nothing.
  after_values-IsHelmRead :
      (helm : HelmRenderSpec) (chart : c.Chart) (values : Entries)
      → Makes IsHelmRead (render_chart_with c spec helm chart values)
  unfolding render_chart_with
  after_values-IsHelmRead helm chart values =
      let manifests = λ (found : Dict Text Text).
        (render_manifests c (crd_manifests c helm chart) >>= λ crds.
        (render_manifests c (template_manifests c found) >>= λ templates.
        return (crds ++ templates))) in
      let engine = λ (render_values : c.RenderValues).
        (check_context c >>= λ _.
        (wrapped c (codes "render chart: ") (c.render_chart chart render_values) >>= manifests)) in
      let prepared =
        c.to_render_values chart values
          (record { name = helm.release_name; namespace = spec.destination.namespace }) in
      Makes-attempt IsHelmRead (wrapped c (codes "prepare render values: ") prepared) throw engine
        (wrapped-Makes c IsHelmRead (codes "prepare render values: ") prepared) (λ e s. tt)
        (λ render_values.
          checked-Makes c IsHelmRead
            (wrapped c (codes "render chart: ") (c.render_chart chart render_values) >>= manifests)
            (Makes-attempt IsHelmRead
              (wrapped c (codes "render chart: ") (c.render_chart chart render_values)) throw
              manifests
              (wrapped-Makes c IsHelmRead (codes "render chart: ")
                (c.render_chart chart render_values))
              (λ e s. tt)
              (λ found.
                Makes-attempt IsHelmRead (render_manifests c (crd_manifests c helm chart)) throw
                  (λ crds.
                    (render_manifests c (template_manifests c found) >>= λ templates.
                    return (crds ++ templates)))
                  (render_manifests-Makes c IsHelmRead (crd_manifests c helm chart)) (λ e s. tt)
                  (λ crds.
                    Makes-attempt IsHelmRead (render_manifests c (template_manifests c found)) throw
                      (λ templates. return (crds ++ templates))
                      (render_manifests-Makes c IsHelmRead (template_manifests c found)) (λ e s. tt)
                      (λ templates s. tt)))))

  render_helm_with-IsHelmRead :
      (helm : HelmRenderSpec) (p : Text)
      → spec.render.helm ≡ some helm
      → resolve_within_root root spec.source.path ≡ ok p
      → Makes IsHelmRead (render_helm_with c root spec p helm)
  unfolding render_helm_with read_helm_values
  render_helm_with-IsHelmRead helm p g h =
      let load = perform (loaded_chart p) (c.load_chart p) in
      let failed = λ (e : Error). throw {A = c.Chart} (wrap (codes "load chart: ") e) in
      let values = read_helm_values c root helm.values_files in
      let rest = λ (chart : c.Chart).
        (check_context c >>= λ _. (values >>= render_chart_with c spec helm chart)) in
      Makes-attempt IsHelmRead (attempt load failed return) throw rest
        (Makes-attempt IsHelmRead load failed return (λ s. (loads_chart p h, tt)) (λ e s. tt)
          (λ chart s. tt))
        (λ e s. tt)
        (λ chart. checked-Makes c IsHelmRead (values >>= render_chart_with c spec helm chart) (
          Makes-attempt IsHelmRead values throw (render_chart_with c spec helm chart)
            (read_values_files-IsHelmRead helm end helm.values_files g
              (All-contains helm.values_files))
            (λ e s. tt) (after_values-IsHelmRead helm chart)))

  -- The Helm renderer loads the chart at the source path, and opens only values files of the spec,
  -- each path as it is resolved in the checkout.
  pub render_helm-IsHelmRead : Makes IsHelmRead (render_helm c root spec)
  unfolding render_helm
  render_helm-IsHelmRead =
      let resolve = lift (resolve_within_root root spec.source.path) in
      let missing =
        throw {A = List Object} (errorf (codes "helm render configuration is required")) in
      let chosen : Text → M c.State (List Object) = λ p. elim spec.render.helm [
        | none ↦ missing
        | some helm ↦ render_helm_with c root spec p helm
      ] in
      checked-Makes c IsHelmRead (resolve >>= chosen) (
        Makes-attempt_from IsHelmRead resolve throw chosen (λ s. tt) (λ e s. tt)
          (λ p s h.
            Option-Makes IsHelmRead spec.render.helm missing (render_helm_with c root spec p)
              (λ s'. tt) (λ helm g. render_helm_with-IsHelmRead helm p g h) s))

  pub render_helm-IsRead : Makes IsRead (render_helm c root spec)
  render_helm-IsRead s =
      All-map IsHelmRead IsRead (render_helm c root spec s).calls IsHelmRead-IsRead
        (render_helm-IsHelmRead s)
