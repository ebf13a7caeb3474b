-- ===== src/Render/Reads.antt =====
-- Which files the renderers read.
use cabure.Base.{
  ℕ, ◌+◌, ◌≡◌, true, false, List, [], ◌∷◌, ◌++◌, list_eq, nat_eq, Result, ok, err, All, All-append,
  arith, Option-cases, inl, inr, if◌then◌else◌, is_empty, errorf, wrap, subst, ok_injective,
}
use cabure.Text.{Text, codes, trim_space}
use cabure.Api.{Object}
use cabure.Outside.{Outside, Visit}
use cabure.Effects.{Call, M, return, throw, ◌>>=◌}
use cabure.Effects.Calls.{Makes, if-Makes, Makes-attempt}
use cabure.Render.{
  is_yaml_name, check_context, decode_documents, wrapped, walk_visits, render_manifests,
  decode_manifest, is_end_of_file, document_prefix,
}

module _ (c : Outside) (P : Call → Type 0) where
  check_context-Makes : Makes P (check_context c)
  unfolding check_context
  check_context-Makes s = elim (Option-cases (c.context_error s).0) [
    | inl h ↦ rw (h, check_context) tt
    | inr (e, h) ↦ rw (h, check_context) tt
  ]

  -- Code after the test of the context.
  pub checked-Makes :
      {A : Type 0} (m : M c.State A) → Makes P m → Makes P (check_context c >>= λ _. m)
  checked-Makes m h =
      Makes-attempt P (check_context c) throw (λ _. m) check_context-Makes (λ e s. tt) (λ _. h)

  pub wrapped-Makes : {A : Type 0} (text : Text) (r : Result A) → Makes P (wrapped c text r)
  wrapped-Makes text (ok a) s = tt
  wrapped-Makes text (err e) s = tt

  -- Decoding reads no file.
  pub decode_documents-Makes :
      (source : Text) (idx : ℕ) (documents : List (Result Text))
      → Makes P (decode_documents c source idx documents)
  unfolding decode_documents
  decode_documents-Makes source idx [] = checked-Makes (return []) (λ s. tt)
  decode_documents-Makes source idx (err e ∷ documents) =
      checked-Makes
        (if is_end_of_file e.cause
          then return []
          else throw (wrap (document_prefix c source idx) e))
        (if-Makes P (is_end_of_file e.cause) (return [])
          (throw (wrap (document_prefix c source idx) e)) (λ s. tt) (λ s. tt))
  decode_documents-Makes source idx (ok doc ∷ documents) =
      let rest = decode_documents-Makes source (idx + 1) documents in
      let prefix = document_prefix c source idx in
      let objects = λ (raw : Object).
        (decode_documents c source (idx + 1) documents >>= λ rest. return (raw ∷ rest)) in
      let decoded = λ (json : Text). (wrapped c prefix (c.unmarshal json) >>= objects) in
      checked-Makes
        (if is_empty (trim_space doc)
          then decode_documents c source (idx + 1) documents
          else (wrapped c prefix (c.to_json doc) >>= decoded))
        (if-Makes P (is_empty (trim_space doc)) (decode_documents c source (idx + 1) documents)
          (wrapped c prefix (c.to_json doc) >>= decoded) rest
          (Makes-attempt P (wrapped c prefix (c.to_json doc)) throw decoded
            (wrapped-Makes prefix (c.to_json doc)) (λ e s. tt)
            (λ json.
              Makes-attempt P (wrapped c prefix (c.unmarshal json)) throw objects
                (wrapped-Makes prefix (c.unmarshal json)) (λ e s. tt)
                (λ raw.
                  Makes-attempt P (decode_documents c source (idx + 1) documents) throw
                    (λ rest. return (raw ∷ rest)) rest (λ e s. tt) (λ rest s. tt)))))

  pub render_manifests-Makes :
      (manifests : List (Text × Text)) → Makes P (render_manifests c manifests)
  unfolding render_manifests decode_manifest
  render_manifests-Makes [] = λ s. tt
  render_manifests-Makes ((name, manifest) ∷ manifests) =
      let rest = λ (objects : List Object).
        (render_manifests c manifests >>= λ rest. return (objects ++ rest)) in
      checked-Makes (decode_manifest c name manifest >>= rest) (
        Makes-attempt P (decode_manifest c name manifest) throw rest
          (decode_documents-Makes name 0 (c.yaml_documents manifest)) (λ e s. tt)
          (λ objects.
            Makes-attempt P (render_manifests c manifests) throw (λ rest. return (objects ++ rest))
              (render_manifests-Makes manifests) (λ e s. tt) (λ rest s. tt)))

  -- The walk reads no file, and collects only paths that it visits.
  pub walk_visits-Makes :
      (visits : List Visit) (paths : List Text) → Makes P (walk_visits c visits paths)
  unfolding walk_visits
  walk_visits-Makes [] paths s = tt
  walk_visits-Makes (v ∷ visits) paths s = elim (Option-cases v.walk_error) [
    | inr (e, h) ↦ rw h (checked-Makes (throw {A = List Text} e) (λ s. tt) s)
    | inl h ↦ rw h (
        checked-Makes
          (if v.is_dir
            then walk_visits c visits paths
            else if v.is_symlink
            then throw (errorf (codes "refusing symlink: " ++ v.path))
            else if is_yaml_name v.path
            then walk_visits c visits (paths ++ (v.path ∷ []))
            else walk_visits c visits paths)
          (if-Makes P v.is_dir _ _ (walk_visits-Makes visits paths) (
            if-Makes P v.is_symlink _ _ (λ s. tt)
              (if-Makes P (is_yaml_name v.path) _ _
                (walk_visits-Makes visits (paths ++ (v.path ∷ [])))
                (walk_visits-Makes visits paths))))
          s)
  ]

module _ (c : Outside) (Q : Text → Type 0) where
  -- What the walk may collect of a visit.
  abbrev pub Collected : Visit → Type 0
  Collected v = v.is_dir ≡ false → v.is_symlink ≡ false → is_yaml_name v.path ≡ true → Q v.path

  pub walk_visits-Collected :
      (visits : List Visit) (paths : List Text) (s : c.State) {out : List Text}
      → All Collected visits
      → All Q paths
      → (walk_visits c visits paths s).result ≡ ok out
      → All Q out
  unfolding walk_visits check_context
  walk_visits-Collected [] paths s hv hp h = subst (All Q) (ok_injective h) hp
  walk_visits-Collected (v ∷ visits) paths s {out} hv hp h =
      let next = (c.context_error s).1 in
      let skip = walk_visits-Collected visits paths next {out = out} hv.1 hp in
      let take = λ (q : Q v.path).
        walk_visits-Collected visits (paths ++ (v.path ∷ [])) next {out = out} hv.1
          (All-append Q paths (v.path ∷ []) hp (q, tt)) in
      ground (arith, skip, take, hv.0)
